-- ===== src/Strategy/Search.antt =====
-- The result of boundedStrategySearch in src/strategy.ts.
use fareradar.Prelude.{
  ◌≤◌, String, Bool, true, false, List, ◌≡◌, arith, ◌&&◌, leb, not, not-eq-true, any_of_In, filter,
  In, In-filter, In-take, length, length-filter-le, length-take-le, take, ok, assert, >>=-eq-ok,
  subst, sym, ◌∙◌, ap, Bool-cases, inl, inr,
}
use fareradar.Sql.{order_by}
use fareradar.Sql.Laws.{length-order_by}
use fareradar.Sql.Claims.{In-order_by}
use fareradar.Strategy.{
  Candidate, Options, dominates, pareto, is_eligible, by_rank, by_costs, bounded_strategy_search,
}
use fareradar.Strategy.Pareto.{pareto-filter, dominated_in}

ok-injective : {A : Type 0} (a b : A) → ok a ≡ ok b → a ≡ b
ok-injective a b h = cc

module _ (id_le : String → String → Bool) (items : List Candidate) (o : Options)
    (best : List Candidate) where
  abbrev nodes : List Candidate
  nodes = take o.max_nodes (order_by (by_rank id_le) (filter (is_eligible o) items))

  -- What a search that does not throw returns.
  search_result :
      bounded_strategy_search id_le items o ≡ ok best
      → order_by (by_costs id_le) (filter (λ a. not (dominated_in (λ x. x.costs) nodes a)) nodes)
        ≡ best
  unfolding bounded_strategy_search
  search_result h =
      let frontier : List Candidate = order_by (by_costs id_le) (pareto (λ x. x.costs) nodes) in
      let (u, e, rest) = >>=-eq-ok (assert o.threshold_valid "EXPANSION_THRESHOLD_INVALID") _ h in
      let (v, f, final) =
        >>=-eq-ok
          (assert (o.budget_valid && leb 1 o.max_tickets && leb 1 o.max_nodes)
            "SEARCH_BUDGET_INVALID")
          (λ w. ok frontier) rest in
      ap (order_by (by_costs id_le)) (sym (pareto-filter (λ x. x.costs) nodes))
      ∙ ok-injective frontier best final

  -- A node of the frontier is a node of the search, and none of these dominates it.
  best_node :
      bounded_strategy_search id_le items o ≡ ok best
      → (x : Candidate) → In x best
      → In x nodes × (not (dominated_in (λ c. c.costs) nodes x) ≡ true)
  best_node h x i =
      In-filter (λ a. not (dominated_in (λ c. c.costs) nodes a)) x nodes
        (In-order_by (by_costs id_le) x _ (subst (In x) (sym (search_result h)) i))

  -- A search that returns keeps to its budget: at most max_nodes candidates, each of them one of the
  -- input that passes every eligibility test, and no two of them such that one dominates the other.
  pub search_sound :
      bounded_strategy_search id_le items o ≡ ok best
      → (length best ≤ o.max_nodes)
        × ((x : Candidate) → In x best → In x items × (is_eligible o x ≡ true))
        × ((x y : Candidate) → In x best → In y best → dominates y.costs x.costs ≡ false)
  search_sound h = (
    subst (λ xs. length xs ≤ o.max_nodes) (search_result h)
        (omega (
          arith,
          length-order_by (by_costs id_le)
              (filter (λ a. not (dominated_in (λ x. x.costs) nodes a)) nodes),
          length-filter-le (λ a. not (dominated_in (λ x. x.costs) nodes a)) nodes,
          length-take-le o.max_nodes (order_by (by_rank id_le) (filter (is_eligible o) items)),
        )),
    λ x i.
        In-filter (is_eligible o) x items
          (In-order_by (by_rank id_le) x _ (In-take o.max_nodes x _ (best_node h x i).0)),
    λ x y i j. elim (Bool-cases (dominates y.costs x.costs)) [
      | inr e ↦ e
      | inl e ↦ absurd (
          let hit = any_of_In (λ b. dominates b.costs x.costs) nodes y (best_node h y j).0 e in
          let clear = not-eq-true _ (best_node h x i).1 in cc)
    ],
  )

-- ===== src/Strategy.antt =====
-- src/strategy.ts: candidate strategies and the bounded search for the best of them. Costs, times and
-- risks are whole numbers; `finite` says of a candidate that its four numbers are finite.
-- `a.id.localeCompare(b.id) <= 0` is the parameter `id_le`.
pub mod Pareto
pub mod Search
use fareradar.Prelude.{
  ℕ, zero, suc, ◌+◌, String, Bool, true, false, Option, none, some, List, [], ◌∷◌, ◌&&◌, ◌||◌, not,
  leb, ltb, ◌==◌, str_eq, get_or, filter, take, if◌then◌else◌, Result, ok, err, ◌>>=◌, ◌>>◌, assert,
  all,
}
use fareradar.Sql.{mem, order_by}

pub record Costs : Type 0 where
  pub cash : ℕ
  pub elapsed : ℕ
  pub risk : ℕ

-- `b` is nowhere worse than `a`, and somewhere better.
unfoldable pub dominates : Costs → Costs → Bool
dominates b a =
    leb b.cash a.cash
    && leb b.elapsed a.elapsed
    && leb b.risk a.risk
    && (ltb b.cash a.cash || ltb b.elapsed a.elapsed || ltb b.risk a.risk)

module _ {A : Type 0} (costs : A → Costs) where
  -- `xs.some((b, j) => j !== i && …)`, from index j on.
  unfoldable pub some_other : A → ℕ → ℕ → List A → Bool
  some_other a i j [] = false
  some_other a i j (b ∷ bs) =
      not (j == i) && dominates (costs b) (costs a) || some_other a i (suc j) bs

  -- `xs.filter((a, i) => !xs.some(…))`, from index i on.
  unfoldable pub undominated : List A → ℕ → List A → List A
  unfolding some_other
  undominated all_items i [] = []
  undominated all_items i (a ∷ as') =
      let rest = undominated all_items (suc i) as' in
      if some_other a i 0 all_items then rest else a ∷ rest

  unfoldable pub pareto : List A → List A
  unfolding undominated
  pareto xs = undominated xs 0 xs

pub record Item : Type 0 where
  pub costs : Costs
  pub tickets : ℕ

-- boundedExpand.
unfoldable pub bounded_expand : List Item → ℕ → List Item
bounded_expand items max_tickets =
    pareto (λ x. x.costs) (filter (λ x. leb x.tickets max_tickets) items)

pub record Candidate : Type 0 where
  pub id : String
  pub strategy_id : String
  pub costs : Costs
  pub tickets : ℕ
  pub estimated_saving_vs_baseline : ℕ
  pub route_prior : Option ℕ
  pub self_transfers : Option ℕ
  pub overnights : Option ℕ
  pub hard_filters_pass : Option Bool
  pub finite : Bool

pub record Options : Type 0 where
  pub threshold_valid : Bool
  pub expansion_threshold : ℕ
  pub budget_valid : Bool
  pub max_tickets : ℕ
  pub max_self_transfers : ℕ
  pub max_overnights : ℕ
  pub max_nodes : ℕ
  pub mainland_enabled : Bool
  pub advanced_enabled : Bool

-- STRATEGY_LEVEL.
abbrev level_table : List (String × ℕ)
level_table =
    ("S00", 0)
    ∷ ("S01", 0)
    ∷ ("S02", 0)
    ∷ ("S03", 0)
    ∷ ("S04", 1)
    ∷ ("S05", 1)
    ∷ ("S06", 2)
    ∷ ("S07", 2)
    ∷ ("S08", 2)
    ∷ ("S09", 3)
    ∷ ("S10", 2)
    ∷ ("S11", 3)
    ∷ ("S12", 3)
    ∷ ("S13", 4)
    ∷ ("S14", 4)
    ∷ ("S15", 5)
    ∷ ("S16", 0)
    ∷ ("S17", 0)
    ∷ ("S18", 0)
    ∷ ("S19", 0)
    ∷ []

lookup_level : String → List (String × ℕ) → Option ℕ
lookup_level k [] = none
lookup_level k ((s, n) ∷ t) = if str_eq k s then some n else lookup_level k t

-- STRATEGY_LEVEL[strategyId]; ACTIVE_STRATEGIES are the keys of the table, S00 to S19.
unfoldable pub strategy_level : String → Option ℕ
unfolding lookup_level
strategy_level s = lookup_level s level_table

-- `hard_filters_pass === false` fails.
abbrev hard_ok : Option Bool → Bool
hard_ok none = true
hard_ok (some b) = b

abbrev level_ok : Options → Candidate → Option ℕ → Bool
level_ok o x none = false
level_ok o x (some level) =
    not (ltb 0 level && ltb x.estimated_saving_vs_baseline o.expansion_threshold)

-- The filter: each early `return false` in order.
unfoldable pub is_eligible : Options → Candidate → Bool
is_eligible o x =
    level_ok o x (strategy_level x.strategy_id)
    && not ((str_eq x.strategy_id "S10" || str_eq x.strategy_id "S11") && not o.mainland_enabled)
    && not (str_eq x.strategy_id "S15" && not o.advanced_enabled)
    && hard_ok x.hard_filters_pass
    && leb x.tickets o.max_tickets
    && leb (get_or x.self_transfers 0) o.max_self_transfers
    && leb (get_or x.overnights 0) o.max_overnights
    && x.finite

-- A comparison of two numbers, and the rest where they are equal: `a - b || …`.
abbrev then_by : ℕ → ℕ → Bool → Bool
then_by a b rest = if a == b then rest else ltb a b

module _ (id_le : String → String → Bool) where
  abbrev pub by_rank : Candidate → Candidate → Bool
  by_rank a b = then_by a.costs.cash b.costs.cash (
      then_by a.costs.risk b.costs.risk (
        then_by a.costs.elapsed b.costs.elapsed (
          then_by (get_or b.route_prior 0) (get_or a.route_prior 0) (
            then_by (get_or (strategy_level a.strategy_id) 0)
              (get_or (strategy_level b.strategy_id) 0) (id_le a.id b.id)))))

  abbrev pub by_costs : Candidate → Candidate → Bool
  by_costs a b = then_by a.costs.cash b.costs.cash (
      then_by a.costs.elapsed b.costs.elapsed (then_by a.costs.risk b.costs.risk (id_le a.id b.id)))

  -- boundedStrategySearch.
  unfoldable pub bounded_strategy_search : List Candidate → Options → Result (List Candidate)
  bounded_strategy_search items o = do
    assert o.threshold_valid "EXPANSION_THRESHOLD_INVALID"
    assert (o.budget_valid && leb 1 o.max_tickets && leb 1 o.max_nodes) "SEARCH_BUDGET_INVALID"
    let ordered = take o.max_nodes (order_by by_rank (filter (is_eligible o) items))
    ok (order_by by_costs (pareto (λ x. x.costs) ordered))

-- foreignOriginCycleCost, over the seven parts.
unfoldable pub foreign_origin_cycle_cost : ℕ → ℕ → ℕ → ℕ → ℕ → ℕ → ℕ → ℕ
foreign_origin_cycle_cost main positioning tail taxes hotel ground_part documents =
    main + positioning + tail + taxes + hotel + ground_part + documents

-- priceBeatEligible: every flag holds.
unfoldable pub price_beat_eligible : List Bool → Bool
price_beat_eligible flags = all (λ b. b) flags

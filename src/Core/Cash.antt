-- ===== src/Core/Cash.antt =====
-- cashTripCost of src/core.ts against a description without a loop.
use fareradar.Prelude.{
  String, Bool, true, false, none, some, List, [], ◌∷◌, ◌++◌, ◌≡◌, ◌&&◌, ◌||◌, arith, if◌then◌else◌,
  all, map, Bool-cases, ap, sym, subst, inl, inr, eq_iff, str_eq,
}
use fareradar.Prelude.Int.{ℤ, pos, ◌+ℤ◌, int_laws}
use fareradar.Sql.{mem}
use fareradar.Core.{
  finite, not_finite, InclusionState, CostComponent, CashTripCost, add_component, cash_loop,
  cash_trip_cost,
}

-- The components whose key stands in no earlier one, nor in `seen`.
pub firsts : List String → List CostComponent → List CostComponent
firsts seen [] = []
firsts seen (c ∷ cs) =
    let known = mem c.dedupe_key seen in
    let rest = firsts (if known then seen else c.dedupe_key ∷ seen) cs in
    if known then rest else c ∷ rest

-- What a component adds to the total: the amount of an ADD_ON that has one.
abbrev pub charge : CostComponent → ℤ
charge c = elim c.inclusion_state [
  | InclusionState.add_on ↦ elim c.twd_amount [
    | none ↦ pos 0
    | some n ↦ elim n [ finite x ↦ x | not_finite ↦ pos 0 ]
  ]
  | _ ↦ pos 0
]

-- Its cost is known: it is not UNKNOWN, and as an ADD_ON it has a finite amount.
abbrev pub known_cost : CostComponent → Bool
known_cost c = elim c.inclusion_state [
  | InclusionState.unknown ↦ false
  | InclusionState.included_in_offer ↦ true
  | InclusionState.add_on ↦ elim c.twd_amount [
    | none ↦ false
    | some n ↦ elim n [ finite x ↦ true | not_finite ↦ false ]
  ]
]

pub charges : List CostComponent → ℤ
charges [] = pos 0
charges (c ∷ cs) = charge c +ℤ charges cs

+ℤ_assoc : (a b c : ℤ) → a +ℤ b +ℤ c ≡ a +ℤ (b +ℤ c)
+ℤ_assoc a b c = omega int_laws

+ℤ_zero : (a : ℤ) → a +ℤ pos 0 ≡ a
+ℤ_zero a = omega int_laws

add_component-total :
    (r : CashTripCost) (c : CostComponent)
    → (add_component r c).cash_trip_cost_twd ≡ r.cash_trip_cost_twd +ℤ charge c
add_component-total r c = ground (arith, +ℤ_zero r.cash_trip_cost_twd)

add_component_complete :
    (r : CashTripCost) (c : CostComponent)
    → (add_component r c).cost_complete ≡ (r.cost_complete && known_cost c)
add_component_complete r c = ground arith

cash_loop-total :
    (r : CashTripCost) (seen : List String) (cs : List CostComponent)
    → (cash_loop r seen cs).cash_trip_cost_twd ≡ r.cash_trip_cost_twd +ℤ charges (firsts seen cs)
unfolding cash_loop firsts charges
cash_loop-total r seen [] = sym (+ℤ_zero r.cash_trip_cost_twd)
cash_loop-total r seen (c ∷ cs) = elim (Bool-cases (mem c.dedupe_key seen)) [
  | inl known ↦ ground (arith, cash_loop-total r seen cs)
  | inr new ↦ ground (
    arith,
    cash_loop-total (add_component r c) (c.dedupe_key ∷ seen) cs,
    add_component-total r c,
    +ℤ_assoc r.cash_trip_cost_twd (charge c) (charges (firsts (c.dedupe_key ∷ seen) cs)),
  )
]

cash_loop_complete :
    (r : CashTripCost) (seen : List String) (cs : List CostComponent)
    → (cash_loop r seen cs).cost_complete ≡ (r.cost_complete && all known_cost (firsts seen cs))
unfolding cash_loop firsts
cash_loop_complete r seen [] = ground arith
cash_loop_complete r seen (c ∷ cs) = elim (Bool-cases (mem c.dedupe_key seen)) [
  | inl known ↦ ground (arith, cash_loop_complete r seen cs)
  | inr new ↦ ground (
    arith,
    cash_loop_complete (add_component r c) (c.dedupe_key ∷ seen) cs,
    add_component_complete r c,
  )
]

-- The cost of a trip is the offer plus the finite ADD_ON amounts of the first component of each
-- dedupe key, and it is complete exactly when the cost of each of these first components is known.
pub cash_trip_cost_lem :
    (offer : ℤ) (cs : List CostComponent)
    → ((cash_trip_cost offer cs).cash_trip_cost_twd ≡ offer +ℤ charges (firsts [] cs))
      × ((cash_trip_cost offer cs).cost_complete ≡ all known_cost (firsts [] cs))
unfolding cash_trip_cost
cash_trip_cost_lem offer cs = (cash_loop-total _ [] cs, cash_loop_complete _ [] cs)

mem_eq :
    (k j : String) (seen : List String) → str_eq k j ≡ true → mem j seen ≡ true → mem k seen ≡ true
mem_eq k j seen e h = subst (λ x. mem x seen ≡ true) (sym ((eq_iff k j).0 e)) h

firsts-append :
    (seen : List String) (cs : List CostComponent) (c : CostComponent)
    → (mem c.dedupe_key seen || mem c.dedupe_key (map (λ x. x.dedupe_key) cs)) ≡ true
    → firsts seen (cs ++ c ∷ []) ≡ firsts seen cs
unfolding firsts
firsts-append seen [] c h = ground arith
firsts-append seen (x ∷ cs) c h = elim (Bool-cases (mem x.dedupe_key seen)) [
  | inl known ↦
      rw known (firsts-append seen cs c (ground (arith, mem_eq c.dedupe_key x.dedupe_key seen)))
  | inr new ↦ rw new (ap (λ r. x ∷ r) (firsts-append (x.dedupe_key ∷ seen) cs c (ground arith)))
]

-- A component whose dedupe key stands in an earlier one changes neither the total nor the flag.
cash_trip_cost-duplicate :
    (offer : ℤ) (cs : List CostComponent) (c : CostComponent)
    → mem c.dedupe_key (map (λ x. x.dedupe_key) cs) ≡ true
    → cash_trip_cost offer (cs ++ c ∷ []) ≡ cash_trip_cost offer cs
cash_trip_cost-duplicate offer cs c h =
    let same = firsts-append [] cs c h in
    ground (
      arith,
      cash_trip_cost_lem offer cs,
      cash_trip_cost_lem offer (cs ++ c ∷ []),
      ap (λ l. offer +ℤ charges l) same,
      ap (λ l. all known_cost l) same,
    )

-- ===== src/Lifecycle/Repricing.antt =====
-- Which searches finishLifecycleEvent of src/offer_lifecycle.ts repeats.
use fareradar.Prelude.{
  ℕ, zero, suc, ◌≤◌, String, true, false, List, [], ◌∷◌, ◌≡◌, refl, ◌&&◌, inl, inr, str_eq, eq_iff,
  In, In-filter, length, map, arith, Bool-cases,
}
use fareradar.Sql.{mem}
use fareradar.Sql.Claims.{Distinct, In-order_by}
use fareradar.Runtime.{Runtime}
use fareradar.Offers.{SearchPlan}
use fareradar.Lifecycle.{LifecycleEvent, choose, ranked_plans, chosen_plans}

abbrev pub provider_of : SearchPlan → String
provider_of p = p.provider_id

choose-few : (n : ℕ) (seen : List String) (ps : List SearchPlan) → length (choose n seen ps) ≤ n
unfolding choose
choose-few zero seen ps = omega arith
choose-few (suc n) seen [] = omega arith
choose-few (suc n) seen (p ∷ ps) =
    ground (arith, choose-few (suc n) seen ps, choose-few n (p.provider_id ∷ seen) ps)

choose-In :
    (n : ℕ) (seen : List String) (ps : List SearchPlan) (q : SearchPlan)
    → In q (choose n seen ps)
    → In q ps
unfolding choose
choose-In zero seen ps q i = elim i [ ]
choose-In (suc n) seen [] q i = i
choose-In (suc n) seen (p ∷ ps) q i =
    ground (arith, choose-In (suc n) seen ps q, choose-In n (p.provider_id ∷ seen) ps q)

-- No plan is chosen for a provider that has been seen.
choose-unseen :
    (n : ℕ) (seen : List String) (ps : List SearchPlan) (k : String)
    → mem k seen ≡ true
    → mem k (map provider_of (choose n seen ps)) ≡ false
unfolding choose
choose-unseen zero seen ps k h = refl
choose-unseen (suc n) seen [] k h = refl
choose-unseen (suc n) seen (p ∷ ps) k h = elim (Bool-cases (mem p.provider_id seen)) [
  | inl old ↦ rw old (choose-unseen (suc n) seen ps k h)
  | inr new ↦
      rw new (
        ground (arith, choose-unseen n (p.provider_id ∷ seen) ps k, eq_iff k p.provider_id, h, new))
]

choose-Distinct :
    (n : ℕ) (seen : List String) (ps : List SearchPlan) → Distinct provider_of (choose n seen ps)
unfolding choose
choose-Distinct zero seen ps = tt
choose-Distinct (suc n) seen [] = tt
choose-Distinct (suc n) seen (p ∷ ps) = elim (Bool-cases (mem p.provider_id seen)) [
  | inl old ↦ rw old (choose-Distinct (suc n) seen ps)
  | inr new ↦ rw new (
    choose-unseen n (p.provider_id ∷ seen) ps p.provider_id
        (ground (arith, eq_iff p.provider_id p.provider_id)),
    choose-Distinct n (p.provider_id ∷ seen) ps,
  )
]

-- An expired offer is repriced by at most two searches, of different providers, each of them a plan of
-- the event's own queue entry and query.
pub reprices_two_providers :
    (R : Runtime) (e : LifecycleEvent) (plans : List SearchPlan)
    → (length (chosen_plans R e plans) ≤ 2)
      × Distinct provider_of (chosen_plans R e plans)
      × ((p : SearchPlan)
          → In p (chosen_plans R e plans)
          → In p plans × (p.queue_id ≡ e.queue_id) × (p.query_fingerprint ≡ e.query_fingerprint))
unfolding chosen_plans ranked_plans
reprices_two_providers R e plans =
    let ours = λ (p : SearchPlan).
      str_eq p.queue_id e.queue_id && str_eq p.query_fingerprint e.query_fingerprint in
    (
      choose-few 2 [] (ranked_plans R e plans),
      choose-Distinct 2 [] (ranked_plans R e plans),
      λ p i.
          let (j, k) =
            In-filter ours p plans (
              In-order_by _ p _
                (In-order_by _ p _ (choose-In 2 [] (ranked_plans R e plans) p i))) in
          (
            j,
            (eq_iff p.queue_id e.queue_id).0 (ground (arith, k)),
            (eq_iff p.query_fingerprint e.query_fingerprint).0 (ground (arith, k)),
          ),
    )

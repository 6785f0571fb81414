-- ===== src/Core/Actionable.antt =====
-- `actionable` of src/core.ts: what it asks of the facets.
use fareradar.Prelude.{
  ℕ, ◌<◌, String, Bool, true, Option, none, some, List, [], ◌∷◌, ◌≡◌, ◌≢◌, refl, sym, subst, ap,
  ◌↔◌, ◌⊎◌, inl, inr, arith, all, All, all-All, &&-left, &&-right, Option-cases, Bool-cases,
}
use fareradar.Core.{
  VerificationState, confirmed, pass, RequiredFacet, fare_verified, document_clear,
  connection_acceptable, baggage_feasible, cost_complete_facet, coupon_sequence_clear_facet,
  policy_fresh, required_facets, ReadinessFacet, is_confirmed, same_facet, by_type, facet_ready,
  actionable,
}

state_confirmed : (state : VerificationState) → is_confirmed state ≡ true → state ≡ confirmed
state_confirmed state h = ground arith

same_facet_iff : (a b : RequiredFacet) → (same_facet a b ≡ true) ↔ (a ≡ b)
unfolding same_facet
same_facet_iff a b = (λ h. ground (arith, h), λ h. ground (arith, h))

-- `f` is the last facet of its type in the list.
abbrev pub LastOf : RequiredFacet → ReadinessFacet → List ReadinessFacet → Type 0
LastOf type f [] = ⊥
LastOf type f (g ∷ gs) =
    LastOf type f gs ⊎ ((f ≡ g) × (g.facet_type ≡ type) × All (λ h. (h.facet_type ≢ type)) gs)

by_type-none :
    (type : RequiredFacet) (fs : List ReadinessFacet)
    → by_type type fs ≡ none
    → All (λ h. (h.facet_type ≢ type)) fs
unfolding by_type
by_type-none type [] e = tt
by_type-none type (g ∷ gs) e = elim (Option-cases (by_type type gs)) [
  | inr (f, found) ↦ absurd (ground (arith, e, found))
  | inl free ↦ (
    λ same. absurd (ground (arith, e, free, (same_facet_iff g.facet_type type).1 same)),
    by_type-none type gs free,
  )
]

none-by_type :
    (type : RequiredFacet) (fs : List ReadinessFacet)
    → All (λ h. (h.facet_type ≢ type)) fs
    → by_type type fs ≡ none
unfolding by_type
none-by_type type [] e = refl
none-by_type type (g ∷ gs) (other, rest) = elim (Bool-cases (same_facet g.facet_type type)) [
  | inl same ↦ absurd (other ((same_facet_iff g.facet_type type).0 same))
  | inr differs ↦ rw (none-by_type type gs rest, differs) refl
]

by_type-LastOf :
    (type : RequiredFacet) (f : ReadinessFacet) (fs : List ReadinessFacet)
    → by_type type fs ≡ some f
    → LastOf type f fs
unfolding by_type
by_type-LastOf type f [] e = cc
by_type-LastOf type f (g ∷ gs) e = elim (Option-cases (by_type type gs)) [
  | inr (x, found) ↦
      let same : x ≡ f = ground (arith, e, found) in
      inl (by_type-LastOf type f gs (subst (λ y. by_type type gs ≡ some y) same found))
  | inl free ↦ inr (
    ground (arith, e, free),
    (same_facet_iff g.facet_type type).0 (ground (arith, e, free)),
    by_type-none type gs free,
  )
]

LastOf-by_type :
    (type : RequiredFacet) (f : ReadinessFacet) (fs : List ReadinessFacet)
    → LastOf type f fs
    → by_type type fs ≡ some f
unfolding by_type
LastOf-by_type type f [] l = elim l [ ]
LastOf-by_type type f (g ∷ gs) (inl later) = rw (LastOf-by_type type f gs later) refl
LastOf-by_type type f (g ∷ gs) (inr (e, named, rest)) =
    rw (none-by_type type gs rest, (same_facet_iff g.facet_type type).1 named) (ap some (sym e))

module _ (parse : String → Option ℕ) where
  -- The last facet of the type lets a candidate be acted on: it passed, and expires later than `now`.
  abbrev pub IsReady : ℕ → List ReadinessFacet → RequiredFacet → Type 0
  IsReady now facets type =
      (f : ReadinessFacet) × LastOf type f facets
      × (f.status ≡ pass)
      × ((expires : ℕ) × (parse f.expires_at ≡ some expires) × (now < expires))

  ready_passed :
      (now : ℕ) (f : ReadinessFacet)
      → (facet_ready parse now (some f) ≡ true) ↔ (
          (f.status ≡ pass)
          × ((expires : ℕ) × (parse f.expires_at ≡ some expires) × (now < expires)))
  unfolding facet_ready
  ready_passed now f = elim (Option-cases (parse f.expires_at)) [
    | inl e ↦ (λ h. absurd (ground arith), λ h. ground arith)
    | inr (t, e) ↦ (λ h. (ground arith, (t, e, ground arith)), λ h. ground arith)
  ]

  none_ready : (now : ℕ) → facet_ready parse now none ≡ true → ⊥
  unfolding facet_ready
  none_ready now h = cc

  facet_ready-IsReady :
      (now : ℕ) (facets : List ReadinessFacet) (type : RequiredFacet)
      → (facet_ready parse now (by_type type facets) ≡ true) ↔ IsReady now facets type
  facet_ready-IsReady now facets type = (
    λ h. elim (Option-cases (by_type type facets)) [
      | inl lost ↦ absurd (none_ready now (rw lost at h))
      | inr (f, found) ↦
          let (passed, fresh) = (ready_passed now f).0 (rw found at h) in
          (f, by_type-LastOf type f facets found, passed, fresh)
    ],
    λ (f, last, passed, fresh).
        rw (LastOf-by_type type f facets last) ((ready_passed now f).1 (passed, fresh)),
  )

  -- `actionable` holds exactly when the fare is CONFIRMED and, for each of the seven types
  -- FARE_VERIFIED, DOCUMENT_CLEAR, CONNECTION_ACCEPTABLE, BAGGAGE_FEASIBLE, COST_COMPLETE,
  -- COUPON_SEQUENCE_CLEAR and POLICY_FRESH, the last facet of that type in the list is there, passed,
  -- and expires later than now.
  pub actionable_iff :
      (state : VerificationState) (facets : List ReadinessFacet) (now : ℕ)
      → (actionable parse state facets now ≡ true) ↔ (
          (state ≡ confirmed)
          × All (IsReady now facets) (
              fare_verified ∷ document_clear ∷ connection_acceptable ∷ baggage_feasible
              ∷ cost_complete_facet ∷ coupon_sequence_clear_facet ∷ policy_fresh ∷ []))
  unfolding actionable
  actionable_iff state facets now =
      let ready : RequiredFacet → Bool = λ type. facet_ready parse now (by_type type facets) in
      let each =
        all-All ready (IsReady now facets) (facet_ready-IsReady now facets) required_facets in
      (
        λ h. (
          state_confirmed state (&&-left (is_confirmed state) (all ready required_facets) h),
          each.0 (&&-right (is_confirmed state) (all ready required_facets) h),
        ),
        λ (c, r). rw c (each.1 r),
      )

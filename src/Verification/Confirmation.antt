-- ===== src/Verification/Confirmation.antt =====
-- What verifyMultiProvider of src/verification.ts confirms.
use fareradar.Prelude.{
  Bool-cases, str_eq, In-filter, subst, sym, ℕ, String, Bool, true, false, Option, none, some, List,
  [], ◌∷◌, ◌≡◌, refl, ◌⊎◌, inl, inr, ◌↔◌, ◌≢◌, arith, filter, find, In, Option-cases, any, ap, ◌*◌,
  ◌<◌, ◌≤◌, eq_iff, str_eq_refl,
}
use fareradar.Sql.{mem}
use fareradar.Verification.{
  ids_of, VerificationEvidence, confirmed, probable, is_live, is_direct, matches, first_pair,
  verify_multi_provider, price_of, distance, max_price, same_text, no_live_confirmation,
}

module _ {A : Type 0} (p : A → Bool) where
  pub find-some : (xs : List A) (a : A) → find p xs ≡ some a → In a xs × (p a ≡ true)
  find-some [] a h = cc
  find-some (x ∷ xs) a h = ground (arith, find-some xs a)

  find-none : (xs : List A) (a : A) → find p xs ≡ none → In a xs → p a ≡ false
  find-none [] a h i = elim i [ ]
  find-none (x ∷ xs) a h i = ground (arith, find-none xs a)

  filter-none : (xs : List A) → any p xs ≡ false → filter p xs ≡ []
  filter-none [] h = refl
  filter-none (x ∷ xs) h = ground (arith, filter-none xs)

-- `a` stands before `b` in the list.
abbrev pub Before : VerificationEvidence → VerificationEvidence → List VerificationEvidence → Type 0
Before a b [] = ⊥
Before a b (x ∷ xs) = ((a ≡ x) × In b xs) ⊎ Before a b xs

module _ (num den : ℕ) where
  first_pair-some :
      (xs : List VerificationEvidence) (a b : VerificationEvidence)
      → first_pair num den xs ≡ some (a, b)
      → Before a b xs × (matches num den a b ≡ true)
  unfolding first_pair
  first_pair-some [] a b h = cc
  first_pair-some (x ∷ xs) a b h = elim (Option-cases (find (matches num den x) xs)) [
    | inl e ↦ ground (arith, first_pair-some xs a b)
    | inr (y, e) ↦ ground (arith, find-some (matches num den x) xs y e)
  ]

  first_pair-none :
      (xs : List VerificationEvidence) (a b : VerificationEvidence)
      → first_pair num den xs ≡ none
      → Before a b xs
      → matches num den a b ≡ false
  unfolding first_pair
  first_pair-none [] a b h i = elim i [ ]
  first_pair-none (x ∷ xs) a b h i = elim (Option-cases (find (matches num den x) xs)) [
    | inl e ↦ elim i [
      | inl (q, j) ↦ rw q (find-none (matches num den x) xs b e j)
      | inr later ↦ first_pair-none xs a b (ground arith) later
    ]
    | inr (y, e) ↦ ground arith
  ]

-- Two offers that confirm one another: different providers, one query, both priced, and the
-- difference of the prices at most `num / den` of the larger one.
pub record Agree (num den : ℕ) (a b : VerificationEvidence) : Type 0 where
  pub independent : a.provider ≢ b.provider
  pub same_query : a.query_fingerprint ≡ b.query_fingerprint
  pub priced : 0 < price_of a.price
  pub also_priced : 0 < price_of b.price
  pub within_tolerance :
      (distance (price_of a.price) (price_of b.price)) * den
      ≤ num * max_price (price_of a.price) (price_of b.price)

same_text-eq : (s t : Option String) → same_text s t ≡ true → s ≡ t
same_text-eq none none h = refl
same_text-eq none (some t) h = cc
same_text-eq (some s) none h = cc
same_text-eq (some s) (some t) h = ap some ((eq_iff s t).0 h)

same_text_refl : (s t : Option String) → s ≡ t → same_text s t ≡ true
same_text_refl s none h = rw h
same_text_refl s (some t) h = rw h (str_eq_refl t)

matches-Agree :
    (num den : ℕ) (a b : VerificationEvidence) → (matches num den a b ≡ true) ↔ Agree num den a b
unfolding matches
matches-Agree num den a b = (
  λ h. record {
    independent = λ e. ground (arith, (eq_iff a.provider b.provider).1 e);
    same_query = same_text-eq a.query_fingerprint b.query_fingerprint (ground arith);
    priced = ground arith;
    also_priced = ground arith;
    within_tolerance = ground arith;
  },
  λ h. ground (
    arith,
    eq_iff a.provider b.provider,
    same_text_refl a.query_fingerprint b.query_fingerprint h.same_query,
  ),
)

module _ (parse : String → Option ℕ) (evidence : List VerificationEvidence) (now num den : ℕ) where
  abbrev live : List VerificationEvidence
  live = filter (is_live parse now) evidence

  -- What it takes to confirm: a live offer of an airline itself, or two live offers that agree.
  abbrev pub Supported : Type 0
  Supported =
      ((e : VerificationEvidence) × In e live × (is_direct e ≡ true))
      ⊎ ((a : VerificationEvidence) × (b : VerificationEvidence) × Before a b live
          × Agree num den a b)

  to_supported : (verify_multi_provider parse evidence now num den).state ≡ confirmed → Supported
  unfolding verify_multi_provider
  to_supported h = elim (Option-cases (find is_direct live)) [
    | inr (e, found) ↦ let (i, d) = find-some is_direct live e found in inl (e, i, d)
    | inl none_direct ↦ elim (Option-cases (first_pair num den live)) [
      | inr (ab, found) ↦
          let (i, m) = first_pair-some num den live ab.0 ab.1 found in
          inr (ab.0, ab.1, i, (matches-Agree num den ab.0 ab.1).0 m)
      | inl no_pair ↦ absurd (ground arith)
    ]
  ]

  from_supported : Supported → (verify_multi_provider parse evidence now num den).state ≡ confirmed
  unfolding verify_multi_provider
  from_supported (inl (e, i, d)) = elim (Option-cases (find is_direct live)) [
    | inr (x, found) ↦ ground arith
    | inl nothing ↦ cc (find-none is_direct live e nothing i)
  ]
  from_supported (inr (a, b, i, m)) = elim (Option-cases (find is_direct live)) [
    | inr (x, found) ↦ ground arith
    | inl nothing ↦ elim (Option-cases (first_pair num den live)) [
      | inr (ab, found) ↦ ground arith
      | inl no_pair ↦
          cc (first_pair-none num den live a b no_pair i, (matches-Agree num den a b).1 m)
    ]
  ]

  -- A fare is CONFIRMED exactly when a live offer of an airline itself, or a pair of live offers
  -- that agree, is among the evidence.
  pub confirmed_iff :
      ((verify_multi_provider parse evidence now num den).state ≡ confirmed) ↔ Supported
  confirmed_iff = (to_supported, from_supported)

  -- Cached fares, social posts, promotions and seller readbacks never confirm: without a live offer
  -- the outcome is PROBABLE with no supporting evidence.
  no_live_offer :
      any (λ e. is_live parse now e) evidence ≡ false
      → verify_multi_provider parse evidence now num den
        ≡ record { state = probable; reason = no_live_confirmation; supporting_evidence_ids = [] }
  unfolding verify_multi_provider first_pair
  no_live_offer h = ground (arith, filter-none (is_live parse now) evidence h)

-- The evidence that an outcome names as its support.
ids_of-In :
    (es : List VerificationEvidence) (id : String)
    → mem id (ids_of es) ≡ true
    → (e : VerificationEvidence) × In e es × (e.evidence_id ≡ some id)
ids_of-In [] id h = cc
ids_of-In (e ∷ es) id h = elim (Option-cases e.evidence_id) [
  | inl absent ↦ let (x, i, q) = ids_of-In es id (ground (arith, h, absent)) in (x, inr i, q)
  | inr (own, there) ↦ elim (Bool-cases (str_eq id own)) [
    | inl same ↦ (e, inl refl, ground (arith, there, eq_iff id own))
    | inr other ↦ let (x, i, q) = ids_of-In es id (ground (arith, h, there, other)) in (x, inr i, q)
  ]
]

Before-In :
    (a b : VerificationEvidence) (xs : List VerificationEvidence)
    → Before a b xs
    → In a xs × In b xs
Before-In a b [] h = elim h [ ]
Before-In a b (x ∷ xs) (inl (e, i)) = (inl e, inr i)
Before-In a b (x ∷ xs) (inr h) = let (i, j) = Before-In a b xs h in (inr i, inr j)

-- Every id that an outcome names as its support is that of a live offer among the evidence.
pub supporting_live :
    (parse : String → Option ℕ) (evidence : List VerificationEvidence) (now num den : ℕ)
    (id : String)
    → mem id (verify_multi_provider parse evidence now num den).supporting_evidence_ids ≡ true
    → (e : VerificationEvidence) × In e evidence
      × (is_live parse now e ≡ true)
      × (e.evidence_id ≡ some id)
unfolding verify_multi_provider
supporting_live parse evidence now num den id h =
    let live : List VerificationEvidence = filter (is_live parse now) evidence in
    elim (Option-cases (find is_direct live)) [
      | inr (d, found) ↦
          let (e, i, q) = ids_of-In (d ∷ []) id (ground (arith, h, found)) in
          let (at, there) = find-some is_direct live d found in
          let (k, l) = In-filter (is_live parse now) e evidence (only e d live i at) in (e, k, l, q)
      | inl none_direct ↦ elim (Option-cases (first_pair num den live)) [
        | inr (ab, found) ↦
            let (e, i, q) =
              ids_of-In (ab.0 ∷ ab.1 ∷ []) id (ground (arith, h, none_direct, found)) in
            let (j, k) =
              Before-In ab.0 ab.1 live (first_pair-some num den live ab.0 ab.1 found).0 in
            let (m, l) = In-filter (is_live parse now) e evidence (either e ab.0 ab.1 live i j k) in
            (e, m, l, q)
        | inl no_pair ↦ absurd (ground (arith, h, none_direct, no_pair))
      ]
    ]
  where
    only :
        (e d : VerificationEvidence) (xs : List VerificationEvidence)
        → In e (d ∷ [])
        → In d xs
        → In e xs
    only e d xs (inl q) i = subst (λ x. In x xs) (sym q) i
    only e d xs (inr n) i = elim n [ ]

    either :
        (e a b : VerificationEvidence) (xs : List VerificationEvidence)
        → In e (a ∷ b ∷ [])
        → In a xs
        → In b xs
        → In e xs
    either e a b xs (inl q) i j = subst (λ x. In x xs) (sym q) i
    either e a b xs (inr q) i j = only e b xs q j

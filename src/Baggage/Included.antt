-- ===== src/Baggage/Included.antt =====
-- When evaluateBaggageEvidence of src/baggage.ts says PASS.
use fareradar.Prelude.{
  ℕ, zero, suc, ◌+◌, ◌≤◌, ◌<◌, String, Option, none, some, List, [], ◌∷◌, ◌≡◌, refl, subst, inl,
  inr, ◌↔◌, arith, filter, length, get_or, All, All-In, In, Option-cases, Bool-cases, ltb,
}
use fareradar.Baggage.{
  Passenger, Segment, Slice, OfferStructure, BaggageQuery, pass, checked_bags, total_quantity,
  heavy_enough, get_elem?, slice_at, slice_segments, passenger_fault, segment_fault, slice_fault,
  evaluate_slices, evaluate_requirement, evaluate_baggage_evidence, first_fault, first_fault_of,
  needed_slices, required_bags,
}

-- The checked bags of a passenger are at least `n`, and at least `n` of them weigh `kg` if a weight
-- is asked for.
abbrev pub HasBags : ℕ → ℕ → Passenger → Type 0
HasBags kg n p =
    (n ≤ total_quantity (checked_bags p))
    × (0 < kg → n ≤ total_quantity (filter (heavy_enough kg) (checked_bags p)))

abbrev pub SegmentIncludes : ℕ → ℕ → Segment → Type 0
SegmentIncludes kg n g =
    (0 < length (get_or g.passengers [])) × All (HasBags kg n) (get_or g.passengers [])

abbrev pub SliceIncludes : ℕ → ℕ → Option Slice → Type 0
SliceIncludes kg n s =
    (0 < length (slice_segments s)) × All (SegmentIncludes kg n) (slice_segments s)

-- The offer describes its slices, and slice `i` includes `n` bags.
abbrev pub Described : Option OfferStructure → ℕ → ℕ → ℕ → Type 0
Described structure kg n i =
    (s : OfferStructure) × (slices : List (Option Slice)) × (structure ≡ some s)
    × (s.slices ≡ some slices)
    × SliceIncludes kg n (slice_at slices i)

-- Each slice that needs a bag includes what it needs.
abbrev pub OfferIncludes : Option OfferStructure → BaggageQuery → List (Option ℕ) → Type 0
OfferIncludes structure q bags =
    (i n : ℕ)
    → get_elem? (required_bags bags) i ≡ some n
    → 0 < n
    → Described structure (get_or q.checked_bag_kg 0) n i

module _ {A : Type 0} (f : A → Option String) (P : A → Type 0) where
  module _ (e : (a : A) → (f a ≡ none) ↔ P a) where
    first_fault-All : (xs : List A) → (first_fault f xs ≡ none) ↔ All P xs
    first_fault-All [] = (λ _. tt, λ _. refl)
    first_fault-All (x ∷ xs) =
        let rest = first_fault-All xs in
        elim (Option-cases (f x)) [
          | inl h ↦ (λ k. ((e x).0 h, rest.0 (rw h at k)), λ (p, ps). rw h (rest.1 ps))
          | inr (m, h) ↦ (λ k. ground (arith, h, k), λ (p, ps). ground (arith, (e x).1 p, h))
        ]

    first_fault_of-All :
        (m : String) (xs : List A) → (first_fault_of m f xs ≡ none) ↔ ((0 < length xs) × All P xs)
    first_fault_of-All m [] = (λ h. cc, λ (h, k). absurd (omega (arith, h)))
    first_fault_of-All m (x ∷ xs) =
        let all = first_fault-All (x ∷ xs) in (λ h. (omega arith, all.0 h), λ (h, k). all.1 k)

passenger_fault-HasBags :
    (s : OfferStructure) (kg n : ℕ) (p : Passenger)
    → (passenger_fault s kg n p ≡ none) ↔ HasBags kg n p
unfolding passenger_fault
passenger_fault-HasBags s kg n p = (λ h. (ground arith, λ k. ground arith), λ (a, b). ground arith)

segment_fault-Includes :
    (s : OfferStructure) (kg n : ℕ) (g : Segment)
    → (segment_fault s kg n g ≡ none) ↔ SegmentIncludes kg n g
unfolding segment_fault
segment_fault-Includes s kg n g =
    first_fault_of-All (passenger_fault s kg n) (HasBags kg n) (passenger_fault-HasBags s kg n)
      "INCLUDED_BAGGAGE_UNKNOWN" (get_or g.passengers [])

slice_fault-Includes :
    (s : OfferStructure) (slices : List (Option Slice)) (kg : ℕ) (required : List ℕ) (i : ℕ)
    → (slice_fault s slices kg required i ≡ none)
      ↔ SliceIncludes kg (get_or (get_elem? required i) 0) (slice_at slices i)
unfolding slice_fault
slice_fault-Includes s slices kg required i =
    let n = get_or (get_elem? required i) 0 in
    first_fault_of-All (segment_fault s kg n) (SegmentIncludes kg n) (segment_fault-Includes s kg n)
      "OFFER_BAGGAGE_EVIDENCE_MISSING" (slice_segments (slice_at slices i))

-- A slice that needs `n` bags is among the needed ones.
needed-In :
    (i k n : ℕ) (ns : List ℕ) → get_elem? ns k ≡ some n → 0 < n → In (i + k) (needed_slices i ns)
needed-In i k n [] h l = cc
needed-In i zero n (m ∷ ns) h l = ground arith
needed-In i (suc k) n (m ∷ ns) h l = ground (arith, needed-In (suc i) k n ns h l)

In-needed :
    (i j : ℕ) (ns : List ℕ)
    → In j (needed_slices i ns)
    → (k n : ℕ) × (j ≡ i + k) × (get_elem? ns k ≡ some n) × (0 < n)
In-needed i j [] h = elim h [ ]
In-needed i j (m ∷ ns) h = elim (Bool-cases (ltb 0 m)) [
  | inl e ↦ elim (rw e at h) [
    | inl q ↦ (0, m, omega (arith, q), refl, ground arith)
    | inr r ↦ let (k, n, a, b, c) = In-needed (suc i) j ns r in (suc k, n, omega (arith, a), b, c)
  ]
  | inr e ↦
      let (k, n, a, b, c) = In-needed (suc i) j ns (rw e at h) in (suc k, n, omega (arith, a), b, c)
]

In-All : {A : Type 0} (P : A → Type 0) (xs : List A) → ((a : A) → In a xs → P a) → All P xs
In-All P [] h = tt
In-All P (x ∷ xs) h = (h x (inl refl), In-All P xs (λ a i. h a (inr i)))

Described-Includes :
    (s : OfferStructure) (slices : List (Option Slice)) (kg n i : ℕ)
    → s.slices ≡ some slices
    → Described (some s) kg n i
    → SliceIncludes kg n (slice_at slices i)
Described-Includes s slices kg n i e (t, found, q, r, k) =
    let same : found ≡ slices = cc in subst (λ x. SliceIncludes kg n (slice_at x i)) same k

evaluate_slices-Described :
    (structure : Option OfferStructure) (kg : ℕ) (required is : List ℕ)
    → ((evaluate_slices structure kg required is).status ≡ pass)
      ↔ ((i : ℕ) → In i is → Described structure kg (get_or (get_elem? required i) 0) i)
unfolding evaluate_slices
evaluate_slices-Described structure kg required [] = (λ h i k. elim k [ ], λ h. refl)
evaluate_slices-Described none kg required (i ∷ is) =
    (λ h. cc, λ h. let (s, slices, e, r, k) = h i (inl refl) in cc)
evaluate_slices-Described (some s) kg required (i ∷ is) = elim (Option-cases s.slices) [
  | inl e ↦ (λ h. ground (arith, e, h), λ h. let (t, slices, q, r, k) = h i (inl refl) in cc)
  | inr (slices, e) ↦
      let P : ℕ → Type 0 =
        λ j. SliceIncludes kg (get_or (get_elem? required j) 0) (slice_at slices j) in
      let faults =
        first_fault-All (slice_fault s slices kg required) P
          (slice_fault-Includes s slices kg required) (i ∷ is) in
      (
        λ h j k. (s, slices, refl, e, All-In P (i ∷ is) j (faults.0 (ground (arith, e, h))) k),
        λ h.
            let none_found =
              faults.1 (In-All P (i ∷ is) (λ j k. Described-Includes s slices kg _ j e (h j k))) in
            ground (arith, e, none_found),
      )
]

module _ (structure : Option OfferStructure) (kg : ℕ) (required : List ℕ) where
  needed-Described :
      (i n : ℕ)
      → get_elem? required i ≡ some n
      → 0 < n
      → ((j : ℕ)
          → In j (needed_slices 0 required)
          → Described structure kg (get_or (get_elem? required j) 0) j)
      → Described structure kg n i
  needed-Described i n g l h =
      let counted : 0 + i ≡ i = omega arith in
      let needed : In i (needed_slices 0 required) =
        subst (λ j. In j (needed_slices 0 required)) counted (needed-In 0 i n required g l) in
      subst (λ o. Described structure kg (get_or o 0) i) g (h i needed)

  Described-needed :
      ((i n : ℕ) → get_elem? required i ≡ some n → 0 < n → Described structure kg n i)
      → (j : ℕ) → In j (needed_slices 0 required)
      → Described structure kg (get_or (get_elem? required j) 0) j
  Described-needed h j k =
      let (i, n, e, g, l) = In-needed 0 j required k in
      let same : j ≡ i = omega (arith, e) in rw (same, g) (h i n g l)

-- evaluateBaggageEvidence answers PASS exactly when the profile names the checked bags of each slice and
-- the offer describes, for each slice `i` that needs a number `n` of bags above 0, at least one segment,
-- on each segment at least one passenger, and for each of these at least `n` checked bags, and where a
-- weight is asked for at least `n` checked bags whose known weight is not below it.
pub baggage_pass_iff :
    (structure : Option OfferStructure) (query : Option BaggageQuery)
    → ((evaluate_baggage_evidence structure query).status ≡ pass) ↔ (
        (q : BaggageQuery) × (bags : List (Option ℕ)) × (query ≡ some q)
        × (q.checked_bags_by_slice ≡ some bags)
        × OfferIncludes structure q bags)
unfolding evaluate_baggage_evidence evaluate_requirement
baggage_pass_iff structure none = (λ h. cc, λ (q, bags, e, r, d). cc)
baggage_pass_iff structure (some q) = elim (Option-cases q.checked_bags_by_slice) [
  | inl e ↦ (λ h. ground (arith, e, h), λ (p, bags, r, k, d). cc)
  | inr (bags, e) ↦
      let kg = get_or q.checked_bag_kg 0 in
      let required = required_bags bags in
      let slices = evaluate_slices-Described structure kg required (needed_slices 0 required) in
      (
        λ h. (
          q,
          bags,
          refl,
          e,
          λ i n g l. needed-Described structure kg required i n g l (slices.0 (rw e at h)),
        ),
        λ (p, found, r, k, d).
            let same : p ≡ q = cc in
            let same_bags : found ≡ bags = cc in
            let included : OfferIncludes structure q bags =
              subst (λ x. OfferIncludes structure x bags) same
                (subst (λ b. OfferIncludes structure p b) same_bags d) in
            rw e (slices.1 (Described-needed structure kg required included)),
      )
]

-- ===== src/Offers/Best.antt =====
-- The best offer of recomputeCandidateVerification of src/provider_results.ts.
use fareradar.Prelude.{
  first-In, ◌≤◌, true, false, Option, some, List, [], ◌∷◌, ◌≡◌, ◌⊎◌, inl, inr, ◌&&◌, In, In-filter,
  filter-In, filter, map, arith, any, Bool-cases,
}
use fareradar.Sql.{mem}
use fareradar.Sql.Laws.{first-order_by-le}
use fareradar.Sql.Claims.{In-order_by}
use fareradar.Runtime.{Runtime, Moment}
use fareradar.Verification.{probable, verify_multi_provider, Outcome}
use fareradar.Offers.{OfferSnapshot, Constraint}
use fareradar.Offers.Recompute.{
  evidence_of, passes, cheaper, decide, fresh_offer, best_pool, verdict_of, eligible_offers,
  verdict_eligible, verdict, is_confirmed,
}
use fareradar.Offers.Supports.{Counts}

module _ (R : Runtime) (now : Moment) where
  cheaper-le : (a b : OfferSnapshot) → cheaper R a b ≡ true → a.offer_total ≤ b.offer_total
  cheaper-le a b h = ground (arith, h)

  dearer-le : (a b : OfferSnapshot) → cheaper R a b ≡ false → b.offer_total ≤ a.offer_total
  dearer-le a b h = ground (arith, h)

  pool-In :
      (v : Outcome) (fresh : List OfferSnapshot) (o : OfferSnapshot)
      → In o (best_pool R v fresh)
      → In o fresh
  unfolding best_pool
  pool-In v fresh o i =
      elim (Bool-cases (is_confirmed v.state && any (λ id. true) v.supporting_evidence_ids)) [
        | inl y ↦
            (In-filter (λ x. mem x.provider_offer_id v.supporting_evidence_ids) o fresh
              (rw y at i)).0
        | inr n ↦ rw n at i
      ]

  In-pool :
      (v : Outcome) (fresh : List OfferSnapshot) (o : OfferSnapshot)
      → In o fresh
      → (v.state ≡ probable) ⊎ (mem o.provider_offer_id v.supporting_evidence_ids ≡ true)
      → In o (best_pool R v fresh)
  unfolding best_pool
  In-pool v fresh o i k =
      elim (Bool-cases (is_confirmed v.state && any (λ id. true) v.supporting_evidence_ids)) [
        | inl y ↦ rw y (
            filter-In (λ x. mem x.provider_offer_id v.supporting_evidence_ids) o fresh i
              (ground (arith, y, k)))
        | inr n ↦ rw n i
      ]

  verdict_of-best :
      (os : List OfferSnapshot) (b : OfferSnapshot)
      → (verdict_of R os now).best ≡ some b
      → (In b os × (fresh_offer R now b ≡ true))
        × ((o : OfferSnapshot)
            → In o os
            → fresh_offer R now o ≡ true
            → ((verdict_of R os now).verification_state ≡ probable)
              ⊎ (mem o.provider_offer_id (verdict_of R os now).supporting_offer_ids ≡ true)
            → b.offer_total ≤ o.offer_total)
  unfolding verdict_of
  verdict_of-best os b h =
      let v : Outcome = verify_multi_provider R.parse (map evidence_of os) now.ms 3 100 in
      let fresh : List OfferSnapshot = filter (fresh_offer R now) os in
      (
        In-filter (fresh_offer R now) b os
            (pool-In v fresh b (In-order_by (cheaper R) b (best_pool R v fresh) (first-In b _ h))),
        λ o i f k.
            first-order_by-le (cheaper R) (λ x. x.offer_total) cheaper-le dearer-le
              (best_pool R v fresh) b o h
              (In-pool v fresh o (filter-In (fresh_offer R now) o os i f) (ground (arith, k))),
      )

  module _ (c : Option Constraint) where
    -- The conclusion, of a verdict over the eligible offers `es` among `offers`.
    verdict_eligible-best :
        (offers es : List OfferSnapshot) (b : OfferSnapshot)
        → ((o : OfferSnapshot) → In o es → In o offers × (passes (decide R c o) ≡ true))
        → ((o : OfferSnapshot) → In o offers → passes (decide R c o) ≡ true → In o es)
        → (verdict_eligible R c offers es now).best ≡ some b
        → Counts R c offers now b
          × ((o : OfferSnapshot)
              → Counts R c offers now o
              → ((verdict_eligible R c offers es now).verification_state ≡ probable)
                ⊎ (mem o.provider_offer_id (verdict_eligible R c offers es now).supporting_offer_ids
                    ≡ true)
              → b.offer_total ≤ o.offer_total)
    verdict_eligible-best offers [] b sub sup h = absurd (ground (arith, h))
    verdict_eligible-best offers (x ∷ xs) b sub sup h =
        let ((i, f), least) = verdict_of-best (x ∷ xs) b h in
        let (j, p) = sub b i in
        (
          record { among = j; passed = p; unexpired = f },
          λ o k s. least o (sup o k.among k.passed) k.unexpired s,
        )

    -- The best offer of a recomputation is one that may count, and it is the cheapest: no other offer
    -- that may count costs less, if the fare is only PROBABLE, and none of those that support it
    -- does, if it is CONFIRMED.
    pub best_cheapest :
        (offers : List OfferSnapshot) (b : OfferSnapshot)
        → (verdict R c offers now).best ≡ some b
        → Counts R c offers now b
          × ((o : OfferSnapshot)
              → Counts R c offers now o
              → ((verdict R c offers now).verification_state ≡ probable)
                ⊎ (mem o.provider_offer_id (verdict R c offers now).supporting_offer_ids ≡ true)
              → b.offer_total ≤ o.offer_total)
    unfolding verdict
    best_cheapest [] b h = absurd (ground (arith, h))
    best_cheapest (x ∷ xs) b h =
        verdict_eligible-best (x ∷ xs) (eligible_offers R c (x ∷ xs)) b
          (λ o i. In-filter (λ y. passes (decide R c y)) o (x ∷ xs) i)
          (λ o i p. filter-In (λ y. passes (decide R c y)) o (x ∷ xs) i p) h

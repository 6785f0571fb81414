-- ===== src/Offers/Supports.antt =====
-- What recomputeCandidateVerification of src/provider_results.ts confirms by, and what it stores.
use fareradar.Prelude.{
  false, In-append, ℕ, String, true, Option, some, List, [], ◌∷◌, ◌≡◌, refl, subst, ap, inl, inr,
  ◌∙◌, not, str_eq, eq_iff, In, In-filter, filter, map, arith, Bool-cases, Result, ok, err,
}
use fareradar.Sql.{mem}
use fareradar.Runtime.{Runtime, Moment}
use fareradar.Verification.{
  VerificationEvidence, State, confirmed, probable, is_live, verify_multi_provider,
}
use fareradar.Verification.Confirmation.{supporting_live}
use fareradar.Offers.{OfferSnapshot, VerificationResult, Support, Constraint}
use fareradar.Offers.Promotion.{promotion_constraint_for_queue}
use fareradar.Offers.Recompute.{
  evidence_of, passes, Verdict, decide, fresh_offer, verdict_of, eligible_offers, verdict_eligible,
  verdict, write_verification_supports, distinct, support_of, is_confirmed, linked, best_id,
  result_id_of, Projection, upsert_result, result_row,
}
use fareradar.Offers.Projecting.{
  Projected, Tables, project_verdict, store_verdict, project_stored, write_verdict, verdict_for,
  recompute_candidate_verification,
}

-- An offer that may count: linked to the query and live, past what a promotion asks, and not expired.
pub record Counts (R : Runtime) (c : Option Constraint) (offers : List OfferSnapshot) (now : Moment)
    (o : OfferSnapshot) : Type 0 where
  pub among : In o offers
  pub passed : passes (decide R c o) ≡ true
  pub unexpired : fresh_offer R now o ≡ true

module _ (R : Runtime) (now : Moment) where
  live_fresh :
      (o : OfferSnapshot)
      → is_live R.parse now.ms (evidence_of o) ≡ true
      → fresh_offer R now o ≡ true
  unfolding is_live
  live_fresh o h = ground (arith, h)

  evidence-In :
      (xs : List OfferSnapshot) (e : VerificationEvidence) (id : String)
      → In e (map evidence_of xs)
      → is_live R.parse now.ms e ≡ true
      → e.evidence_id ≡ some id
      → (o : OfferSnapshot) × In o xs × (fresh_offer R now o ≡ true) × (o.provider_offer_id ≡ id)
  evidence-In [] e id i l q = elim i [ ]
  evidence-In (x ∷ xs) e id (inl s) l q =
      let live : is_live R.parse now.ms (evidence_of x) ≡ true =
        subst (λ y. is_live R.parse now.ms y ≡ true) s l in
      (x, inl refl, live_fresh x live, cc (ap (λ y. y.evidence_id) s))
  evidence-In (x ∷ xs) e id (inr i) l q =
      let (o, j, f, k) = evidence-In xs e id i l q in (o, inr j, f, k)

  -- What a verdict over eligible offers names as its support.
  verdict_of-supported :
      (os : List OfferSnapshot) (id : String)
      → mem id (verdict_of R os now).supporting_offer_ids ≡ true
      → ((verdict_of R os now).verification_state ≡ confirmed)
        × ((o : OfferSnapshot) × In o os
            × (fresh_offer R now o ≡ true)
            × (o.provider_offer_id ≡ id))
  unfolding verdict_of
  verdict_of-supported os id h =
      let state : State = (verify_multi_provider R.parse (map evidence_of os) now.ms 3 100).state in
      elim (Bool-cases (is_confirmed state)) [
        | inl y ↦
            let (e, i, l, q) =
              supporting_live R.parse (map evidence_of os) now.ms 3 100 id (ground (arith, h, y)) in
            (confirmed_state state y, evidence-In os e id i l q)
        | inr n ↦ absurd (ground (arith, h, n))
      ]
    where
      confirmed_state : (s : State) → is_confirmed s ≡ true → s ≡ confirmed
      confirmed_state confirmed h = refl
      confirmed_state probable h = cc

  module _ (c : Option Constraint) where
    verdict_eligible-supported :
        (offers es : List OfferSnapshot) (id : String)
        → ((o : OfferSnapshot) → In o es → In o offers × (passes (decide R c o) ≡ true))
        → mem id (verdict_eligible R c offers es now).supporting_offer_ids ≡ true
        → ((verdict_eligible R c offers es now).verification_state ≡ confirmed)
          × ((o : OfferSnapshot) × Counts R c offers now o × (o.provider_offer_id ≡ id))
    verdict_eligible-supported offers [] id sub h = absurd (ground (arith, h))
    verdict_eligible-supported offers (x ∷ xs) id sub h =
        let (s, (o, i, f, q)) = verdict_of-supported (x ∷ xs) id h in
        let (j, p) = sub o i in (s, (o, record { among = j; passed = p; unexpired = f }, q))

    verdict-supported :
        (offers : List OfferSnapshot) (id : String)
        → mem id (verdict R c offers now).supporting_offer_ids ≡ true
        → ((verdict R c offers now).verification_state ≡ confirmed)
          × ((o : OfferSnapshot) × Counts R c offers now o × (o.provider_offer_id ≡ id))
    unfolding verdict
    verdict-supported [] id h = absurd (ground (arith, h))
    verdict-supported (x ∷ xs) id h =
        verdict_eligible-supported (x ∷ xs) (eligible_offers R c (x ∷ xs)) id
          (λ o i. In-filter (λ y. passes (decide R c y)) o (x ∷ xs) i) h

mem-distinct : (k : String) (xs : List String) → In k (distinct xs) → mem k xs ≡ true
unfolding distinct
mem-distinct k [] i = elim i [ ]
mem-distinct k (x ∷ xs) i = ground (arith, mem-distinct k xs, eq_iff k x, i)

In-support_of :
    (result : String) (best : Option String) (now : ℕ) (ids : List String) (s : Support)
    → In s (map (support_of result best now) ids)
    → In s.provider_offer_id ids
In-support_of result best now [] s i = elim i [ ]
In-support_of result best now (x ∷ xs) s (inl e) = inl (ap (λ y. y.provider_offer_id) e)
In-support_of result best now (x ∷ xs) s (inr i) = inr (In-support_of result best now xs s i)

-- The rows of a result after they are written.
written :
    (result : String) (ids : List String) (best : Option String) (now : ℕ) (t : List Support)
    (s : Support)
    → In s (write_verification_supports result ids best now t)
    → s.result_id ≡ result
    → mem s.provider_offer_id ids ≡ true
unfolding write_verification_supports
written result ids best now t s i e =
    elim (In-append s (filter (λ x. not (str_eq x.result_id result)) t) _ i) [
      | inl j ↦
          let (k, kept) = In-filter (λ x. not (str_eq x.result_id result)) s t j in
          absurd (ground (arith, kept, eq_iff s.result_id result, e))
      | inr j ↦
          mem-distinct s.provider_offer_id ids (In-support_of result best now (distinct ids) s j)
    ]

module _ (R : Runtime) (project : Tables → Projection → Moment → Result Projected) where
  -- A recomputation that returns has stored the supports of its verdict.
  pub recomputed :
      (t t' : Tables) (queue fingerprint : String) (now : Moment) (v : Verdict)
      → recompute_candidate_verification R project t queue fingerprint now ≡ (t', ok v)
      → (v ≡ verdict_for R project t queue fingerprint now)
        × (t'.offers.candidate_verification_supports
            ≡ write_verification_supports
                (result_id_of R queue fingerprint)
                v.supporting_offer_ids
                (best_id v)
                now.ms
                t.offers.candidate_verification_supports)
        × (is_confirmed v.verification_state ≡ false → t'.db ≡ t.db)
  unfolding recompute_candidate_verification
  recomputed t t' queue fingerprint now v h =
      after (verdict_for R project t queue fingerprint now)
        (upsert_result
          (result_row R queue fingerprint now.ms (verdict_for R project t queue fingerprint now))
          t.offers.candidate_verification_results)
        h
    where
      projected :
          (u : Tables) (w : Verdict) (c : Result Projected)
          → project_stored R project u w c ≡ (t', ok v)
          → (v ≡ w)
            × (t'.offers.candidate_verification_supports ≡ u.offers.candidate_verification_supports)
            × (is_confirmed v.verification_state ≡ false → t'.db ≡ u.db)
      projected u w (err e) k = absurd (ground (arith, k))
      projected u w (ok c) k =
          (ground (arith, k), ground (arith, k), λ lost. ground (arith, k, lost))

      after :
          (w : Verdict) (r : Result (List VerificationResult))
          → write_verdict R project t queue fingerprint w now r ≡ (t', ok v)
          → (v ≡ w)
            × (t'.offers.candidate_verification_supports
                ≡ write_verification_supports
                    (result_id_of R queue fingerprint)
                    v.supporting_offer_ids
                    (best_id v)
                    now.ms
                    t.offers.candidate_verification_supports)
            × (is_confirmed v.verification_state ≡ false → t'.db ≡ t.db)
      after w (err e) k = absurd (ground (arith, k))
      after w (ok rs) k =
          let stored = record t {
            offers = store_verdict R project t.offers queue fingerprint w now.ms rs;
          } in
          let (e, s, d) =
            projected stored w (project_verdict R project stored queue fingerprint w now) k in
          (e, rw e s, d)

  -- Every support that a recomputation leaves under its result is that of an offer which may count for
  -- it: live, linked to the query, past what the promotion asks, and not expired. If any is left, the
  -- answer is CONFIRMED.
  pub supports_backed :
      (t t' : Tables) (queue fingerprint : String) (now : Moment) (v : Verdict) (s : Support)
      → recompute_candidate_verification R project t queue fingerprint now ≡ (t', ok v)
      → In s t'.offers.candidate_verification_supports
      → s.result_id ≡ result_id_of R queue fingerprint
      → (v.verification_state ≡ confirmed)
        × ((o : OfferSnapshot) × Counts R
              (promotion_constraint_for_queue t.db.candidate_priority_queue
                t.offers.promotion_events queue)
              (linked t.offers queue fingerprint)
              now
              o
            × (o.provider_offer_id ≡ s.provider_offer_id))
  supports_backed t t' queue fingerprint now v s h i e =
      let (same, stored, _) = recomputed t t' queue fingerprint now v h in
      let m : mem s.provider_offer_id v.supporting_offer_ids ≡ true =
        written (result_id_of R queue fingerprint) v.supporting_offer_ids (best_id v) now.ms
          t.offers.candidate_verification_supports s (subst (In s) stored i) e in
      let (state, offer) =
        verdict-supported R now
          (promotion_constraint_for_queue t.db.candidate_priority_queue t.offers.promotion_events
            queue)
          (linked t.offers queue fingerprint) s.provider_offer_id
          (subst (λ w. mem s.provider_offer_id w.supporting_offer_ids ≡ true) same m) in
      (ap (λ w. w.verification_state) same ∙ state, offer)

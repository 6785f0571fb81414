-- ===== src/Lifecycle/Unseen.antt =====
-- What expireLiveProviderOffers of src/offer_lifecycle.ts does not see: a fare that a recomputation of
-- src/provider_results.ts has downgraded before it.
use fareradar.Prelude.{
  In-append, first-In, String, some, List, [], ◌∷◌, ◌≡◌, ◌≢◌, refl, sym, subst, ap, ◌⊎◌, inl, inr,
  str_eq, eq_iff, In, In-filter, arith, Bool-cases, Option-cases, Result, ok, ◌∙◌,
}
use fareradar.Sql.{find_row}
use fareradar.Sql.Claims.{In-order_by}
use fareradar.Runtime.{Runtime, Moment}
use fareradar.Verification.{probable}
use fareradar.Offers.{OfferSnapshot, Support, VerificationResult, Offers}
use fareradar.Offers.Recompute.{Projection, Verdict, result_id_of}
use fareradar.Offers.Projecting.{Projected, Tables, recompute_candidate_verification}
use fareradar.Offers.Supports.{recomputed, supports_backed}
use fareradar.Lifecycle.{Life}
use fareradar.Lifecycle.Expiry.{Due, support_rows, due_of, joined, next_due}

-- A row of the join stands on a support of its result.
due-support :
    (offers : List OfferSnapshot) (v : VerificationResult) (t : List Support) (d : Due)
    → In d (due_of v (support_rows offers v.result_id t))
    → (x : Support) × In x t × (x.result_id ≡ d.result.result_id)
unfolding support_rows
due-support offers v [] d i = elim i [ ]
due-support offers v (s ∷ ss) d i = elim (Bool-cases (str_eq s.result_id v.result_id)) [
  | inr other ↦
      let (x, j, e) = due-support offers v ss d (ground (arith, i, other)) in (x, inr j, e)
  | inl own ↦ elim (Option-cases (find_row (λ o. o.provider_offer_id) s.provider_offer_id offers)) [
    | inl lost ↦
        let (x, j, e) = due-support offers v ss d (ground (arith, i, own, lost)) in (x, inr j, e)
    | inr (o, found) ↦ elim (split o (ground (arith, i, own, found))) [
      | inl here ↦ (
        s,
        inl refl,
        (eq_iff s.result_id v.result_id).0 own ∙ sym (ap (λ q. q.result.result_id) here),
      )
      | inr later ↦ let (x, j, e) = due-support offers v ss d later in (x, inr j, e)
    ]
  ]
]
  where
    split :
        (o : OfferSnapshot)
        → In d (record { result = v; offer = o } ∷ due_of v (support_rows offers v.result_id ss))
        → (d ≡ record { result = v; offer = o })
          ⊎ In d (due_of v (support_rows offers v.result_id ss))
    split o i = i

joined-support :
    (t : Offers) (vs : List VerificationResult) (d : Due)
    → In d (joined t vs)
    → (x : Support) × In x t.candidate_verification_supports × (x.result_id ≡ d.result.result_id)
unfolding joined
joined-support t [] d i = elim i [ ]
joined-support t (v ∷ vs) d i = elim (In-append d _ (joined t vs) i) [
  | inl j ↦ due-support t.offer_snapshots v t.candidate_verification_supports d j
  | inr j ↦ joined-support t vs d j
]

next_due-support :
    (R : Runtime) (s : Life) (now : Moment) (d : Due)
    → next_due R s now ≡ some d
    → (x : Support) × In x s.tables.offers.candidate_verification_supports
      × (x.result_id ≡ d.result.result_id)
unfolding next_due
next_due-support R s now d h =
    joined-support s.tables.offers s.tables.offers.candidate_verification_results d
      (In-filter _ d _ (In-order_by _ d _ (first-In d _ h))).0

-- A fare that a recomputation itself takes down to PROBABLE is lost to the expiry: over the tables as
-- it left them no turn, at any time, finds anything due for the fare's result, and the recomputation
-- has not touched the notifications, the alert intents, or any other queue.
pub lost_fare_unseen :
    (R : Runtime) (project : Tables → Projection → Moment → Result Projected) (t t' : Tables)
    (queue fingerprint : String) (now later : Moment) (v : Verdict) (s : Life)
    → recompute_candidate_verification R project t queue fingerprint now ≡ (t', ok v)
    → v.verification_state ≡ probable
    → s.tables ≡ t'
    → ((d : Due)
        → next_due R s later ≡ some d
        → d.result.result_id ≢ result_id_of R queue fingerprint)
      × (t'.db ≡ t.db)
lost_fare_unseen R project t t' queue fingerprint now later v s h lost same = (
  λ d due is_result.
      let (x, i, e) = next_due-support R s later d due in
      let (kept, _) =
        supports_backed R project t t' queue fingerprint now v x h
          (subst (λ u. In x u.offers.candidate_verification_supports) same i) (e ∙ is_result) in
      cc (kept, lost),
  (recomputed R project t t' queue fingerprint now v h).2 (ground (arith, lost)),
)

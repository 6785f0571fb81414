-- ===== src/ShadowAcceptance/Reviews.antt =====
-- The table of reviews that src/shadow_acceptance.ts writes.
use fareradar.Prelude.{
  ℕ, String, Bool, true, some, List, [], ◌∷◌, ◌++◌, ◌≡◌, arith, any, str_eq, str_eq_refl, Result,
  ok, err, ◌>>=◌, assert, Bool-cases, Option-cases, inl, inr, subst,
}
use fareradar.Sql.{find_row}
use fareradar.Sql.Laws.{find_row-append}
use fareradar.ShadowAcceptance.{
  ShadowReviewInput, Evidence, Normalized, Sample, sample_key, same_unit, store_review,
  write_shadow_review, canonical_subject, validate_flags, normalize,
}

-- Two computations that go on from one result.
>>=-again :
    {A C D : Type 0} (m : Result C) (f : C → Result A) (g : C → Result D) {a : A} {d : D}
    → ((c : C) → f c ≡ ok a → g c ≡ ok d)
    → (m >>= f) ≡ ok a
    → (m >>= g) ≡ ok d
>>=-again (ok c) f g k h = k c h
>>=-again (err e) f g k h = cc

module _ (digest : Normalized → String) (db : Evidence) where
  -- A review that was stored is found by its id afterwards.
  store_again :
      (t u : List Sample) (n : Normalized) (first : Bool) (now later : ℕ)
      → store_review digest db t n now ≡ ok (u, first)
      → store_review digest db u n later ≡ ok (u, true)
  unfolding store_review
  store_again t u n first now later h =
      elim (Option-cases (find_row sample_key n.review.sample_id t)) [
        | inr (prior, found) ↦ elim (Bool-cases (str_eq prior.review_payload_sha256 (digest n))) [
          | inr other ↦ absurd (ground (arith, h, found, other))
          | inl same ↦
              let kept : t ≡ u = ground (arith, h, found, same) in
              let here : find_row sample_key n.review.sample_id u ≡ some prior =
                subst (λ v. (find_row sample_key n.review.sample_id v ≡ some prior)) kept found in
              ground (arith, here, same)
        ]
        | inl free ↦ elim (Bool-cases (any (same_unit n.review) t)) [
          | inl taken ↦ absurd (ground (arith, h, free, taken))
          | inr open_unit ↦
              let row : Sample = record {
                normalized = n;
                review_payload_sha256 = digest n;
                created_at = now;
              } in
              let stored : (t ++ row ∷ []) ≡ u = ground (arith, h, free, open_unit) in
              let here : find_row sample_key n.review.sample_id u ≡ some row =
                subst (λ v. (find_row sample_key n.review.sample_id v ≡ some row)) stored
                  (ground (
                    arith,
                    find_row-append sample_key n.review.sample_id t (row ∷ []),
                    free,
                    str_eq_refl n.review.sample_id,
                  )) in
              ground (arith, here, str_eq_refl (digest n))
        ]
      ]

  -- Writing a review twice is writing it once: the second time leaves the table as it is, and says so.
  pub review_idempotent :
      (t u : List Sample) (r : ShadowReviewInput) (reviewer commit : String) (first : Bool)
      (now later : ℕ)
      → write_shadow_review digest db t r reviewer commit now ≡ ok (u, first)
      → write_shadow_review digest db u r reviewer commit later ≡ ok (u, true)
  unfolding write_shadow_review
  review_idempotent t u r reviewer commit first now later h =
      >>=-again (canonical_subject db r) _ _
        (λ canonical. >>=-again (validate_flags r canonical.strategy_type) _ _ (λ v.
          >>=-again
            (assert (str_eq r.observed_at canonical.observed_at) "SHADOW_OBSERVED_AT_MISMATCH") _ _
            (λ w.
              store_again t u (normalize digest db r canonical reviewer commit) first now later)))
        h

-- ===== src/ShadowAcceptance/Acceptance.antt =====
-- What a passing readback of src/shadow_acceptance.ts means.
use fareradar.Prelude.{
  ◌≤◌, String, Bool, true, false, List, [], ◌∷◌, ◌≡◌, refl, arith, not, any, filter, length, str_eq,
  In, In-filter, any-In, filter-In, filter-empty, truthy_opt,
}
use fareradar.ShadowAcceptance.{
  RuntimeDay, Sample, Readback, shadow_acceptance_readback, complex_strategies, is_complex,
  has_strategy, no_strings,
}

no_strings-length : (xs : List String) → no_strings xs ≡ true → length xs ≡ 0
no_strings-length [] h = refl
no_strings-length (x ∷ xs) h = cc

module _ (days : List RuntimeDay) (samples : List Sample) (commit : String) (shadow : Bool) where
  abbrev readback : Readback
  readback = shadow_acceptance_readback days samples commit shadow

  -- Where the readback of a commit passes, the service runs in shadow acceptance, and the commit has at
  -- least 14 days; each complex strategy has a complex itinerary among the commit's reviews; none of
  -- these is marked falsely actionable; and none of the commit's reviews has a safety error.
  pub acceptance_sound :
      readback.pass ≡ true
      → (shadow ≡ true)
        × (14 ≤ length (filter (λ d. str_eq d.commit_sha commit) days))
        × ((x : String)
            → In x complex_strategies
            → (s : Sample) × In s samples
              × (str_eq s.normalized.commit_sha commit ≡ true)
              × (is_complex s ≡ true)
              × (has_strategy x s ≡ true))
        × ((s : Sample)
            → In s samples
            → str_eq s.normalized.commit_sha commit ≡ true
            → is_complex s ≡ true
            → s.normalized.review.false_actionable ≡ false)
        × ((s : Sample)
            → In s samples
            → str_eq s.normalized.commit_sha commit ≡ true
            → truthy_opt s.normalized.review.safety_error_code ≡ false)
  unfolding shadow_acceptance_readback
  acceptance_sound h =
      let rows : List Sample = filter (λ s. str_eq s.normalized.commit_sha commit) samples in
      let complex_rows : List Sample = filter is_complex rows in
      let missing : List String =
        filter (λ x. not (any (has_strategy x) complex_rows)) complex_strategies in
      let all_seen : no_strings missing ≡ true = ground (arith, h) in
      (
        ground (arith, h),
        ground (arith, h),
        λ x i.
            let seen =
              filter-empty (λ y. not (any (has_strategy y) complex_rows)) complex_strategies x
                (no_strings-length missing all_seen) i in
            let (s, j, same) = any-In (has_strategy x) complex_rows (ground (arith, seen)) in
            let (in_rows, complex) = In-filter is_complex s rows j in
            let (there, own) =
              In-filter (λ q. str_eq q.normalized.commit_sha commit) s samples in_rows in
            (s, there, own, complex, same),
        λ s i own complex.
            filter-empty (λ q. q.normalized.review.false_actionable) complex_rows s
              (ground (arith, h))
              (filter-In is_complex s rows
                (filter-In (λ q. str_eq q.normalized.commit_sha commit) s samples i own) complex),
        λ s i own.
            filter-empty (λ q. truthy_opt q.normalized.review.safety_error_code) rows s
              (ground (arith, h))
              (filter-In (λ q. str_eq q.normalized.commit_sha commit) s samples i own),
      )

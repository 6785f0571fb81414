-- ===== src/Tests/Shadow.antt =====
-- The theorems of the shadow acceptance at concrete reviews.
use fareradar.Prelude.{
  ℕ, zero, suc, String, Bool, true, false, none, some, List, [], ◌∷◌, ◌≡◌, refl, ok, length, ◌≤◌,
}
use fareradar.ShadowAcceptance.{
  ShadowReviewInput, Evidence, Sample, RuntimeDay, write_shadow_review, shadow_acceptance_readback,
}
use fareradar.ShadowAcceptance.Reviews.{review_idempotent}
use fareradar.ShadowAcceptance.Acceptance.{acceptance_sound}

abbrev review : ShadowReviewInput
review = record {
  sample_id = "sample";
  subject_id = "it1";
  subject_type = "ITINERARY";
  observed_at = "then";
  label = "TRUE_DEAL";
  complex = true;
  source_discovery = false;
  agency_clearance = false;
  false_actionable = false;
  safety_error_code = none;
  evidence_id = "intake";
  flags_are_boolean = true;
  observed_at_valid = true;
  safety_error_blank = false;
}

abbrev evidence : Evidence
evidence = record {
  itinerary = λ e s. some (record { observed_at = "then"; strategy_type = some "S09" });
  promotion = λ s e. none;
  agency_offer = λ s e. none;
  source_event = λ s. none;
  email = λ s. none;
  route = λ s. none;
}

abbrev row : String → Sample
row strategy = record {
  normalized = record {
    review = review;
    strategy_type = some strategy;
    reviewer_key_id = "k1";
    commit_sha = "c";
  };
  review_payload_sha256 = "digest";
  created_at = 5;
}

review_idempotent_example :
    write_shadow_review (λ n. "digest") evidence (row "S09" ∷ []) review "k1" "c" 9
    ≡ ok (row "S09" ∷ [], true)
unfolding write_shadow_review
review_idempotent_example =
    review_idempotent (λ n. "digest") evidence [] (row "S09" ∷ []) review "k1" "c" false 5 9 refl

abbrev other : Bool → Bool → Sample
other discovery agency = record (row "S01") {
  normalized = record (row "S01").normalized {
    review = record review {
      complex = false;
      source_discovery = discovery;
      agency_clearance = agency;
    };
  };
}

abbrev times : {A : Type 0} → ℕ → A → List A → List A
times zero a rest = rest
times (suc n) a rest = a ∷ times n a rest

abbrev days : List RuntimeDay
days = times 14 (record { commit_sha = "c"; runtime_date = "2026-01-01" }) []

-- 150 itineraries: 30 complex ones of the five strategies, and the others.
abbrev samples : List Sample
samples = times 6 (row "S09") (
    times 6 (row "S11") (
      times 6 (row "S12") (
        times 6 (row "S14")
          (times 6 (row "S15") (times 30 (other true false) (times 90 (other false true) []))))))

acceptance_sound_example : 14 ≤ length days
unfolding shadow_acceptance_readback
acceptance_sound_example = (acceptance_sound days samples "c" true refl).1

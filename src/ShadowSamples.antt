-- ===== src/ShadowSamples.antt =====
-- src/shadow.ts: the first evaluation of shadow samples, by counts, and the review of complex ones.
use fareradar.Prelude.{
  ℕ, ◌+◌, ◌≤◌, String, Bool, true, false, Option, none, some, List, [], ◌∷◌, ◌≡◌, refl, ◌&&◌, not,
  leb, ◌==◌, any, all, filter, length, arith, str_eq, if◌then◌else◌,
}

pub record ShadowSample : Type 0 where
  pub day : String
  pub complex : Bool
  pub source_discovery : Bool
  pub agency_clearance : Bool
  pub safety_errors : ℕ
  pub reviewed : Option Bool
  pub false_actionable : Option Bool

pub record ShadowEvaluation : Type 0 where
  pub pass : Bool
  pub days : ℕ
  pub labeled : ℕ
  pub complex : ℕ
  pub source_discovery : ℕ
  pub agency_clearance : ℕ
  pub safety_errors : ℕ

-- new Set(samples.map(x => x.day)).size.
unfoldable pub distinct_days : List ShadowSample → ℕ
distinct_days [] = 0
distinct_days (s ∷ rest) =
    let later = distinct_days rest in
    if any (λ x. str_eq s.day x.day) rest then later else later + 1

unfoldable pub total_errors : List ShadowSample → ℕ
total_errors [] = 0
total_errors (s ∷ rest) = s.safety_errors + total_errors rest

-- evaluateShadow.
unfoldable pub evaluate_shadow : List ShadowSample → ShadowEvaluation
unfolding distinct_days total_errors
evaluate_shadow samples =
    let days = distinct_days samples in
    let complex = length (filter (λ x. x.complex) samples) in
    let discovery = length (filter (λ x. x.source_discovery) samples) in
    let agency = length (filter (λ x. x.agency_clearance) samples) in
    let errors = total_errors samples in
    record {
      pass =
          leb 14 days
          && leb 150 (length samples)
          && leb 30 complex
          && leb 30 discovery
          && leb 10 agency
          && (errors == 0);
      days = days;
      labeled = length samples;
      complex = complex;
      source_discovery = discovery;
      agency_clearance = agency;
      safety_errors = errors;
    }

-- `x === true` and `x === false` of an optional flag; a filter by it keeps `true` only.
abbrev is_true : Option Bool → Bool
is_true none = false
is_true (some b) = b

abbrev is_false : Option Bool → Bool
is_false none = false
is_false (some b) = not b

pub record ComplexReview : Type 0 where
  pub pass : Bool
  pub complex_reviewed : ℕ
  pub false_actionable : ℕ

-- evaluateComplexReview.
unfoldable pub evaluate_complex_review : List ShadowSample → ComplexReview
evaluate_complex_review samples =
    let complex = filter (λ x. x.complex) samples in
    record {
      pass =
          leb 30 (length complex)
          && all (λ x. is_true x.reviewed && is_false x.false_actionable) complex;
      complex_reviewed = length (filter (λ x. is_true x.reviewed) complex);
      false_actionable = length (filter (λ x. is_true x.false_actionable) complex);
    }

all_reviewed :
    (xs : List ShadowSample)
    → all (λ x. is_true x.reviewed && is_false x.false_actionable) xs ≡ true
    → (length (filter (λ x. is_true x.reviewed) xs) ≡ length xs)
      × (length (filter (λ x. is_true x.false_actionable) xs) ≡ 0)
all_reviewed [] h = (refl, refl)
all_reviewed (x ∷ xs) h = ground (arith, all_reviewed xs, h)

-- A passing review of the complex samples has at least thirty of them, counts each as reviewed, and
-- none as falsely actionable.
complex_review_counts :
    (samples : List ShadowSample)
    → (evaluate_complex_review samples).pass ≡ true
    → (30 ≤ (evaluate_complex_review samples).complex_reviewed)
      × ((evaluate_complex_review samples).false_actionable ≡ 0)
unfolding evaluate_complex_review
complex_review_counts samples h =
    let complex : List ShadowSample = filter (λ x. x.complex) samples in
    let every : all (λ x. is_true x.reviewed && is_false x.false_actionable) complex ≡ true =
      ground (arith, h) in
    let (reviewed, clean) = all_reviewed complex every in (ground (arith, h, reviewed), clean)

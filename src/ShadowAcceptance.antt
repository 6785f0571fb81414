-- ===== src/ShadowAcceptance.antt =====
-- src/shadow_acceptance.ts: the reviews of the shadow run and the readback that accepts a commit. The
-- other tables that a review is checked against are the record `Evidence` of their SELECTs' answers.
-- `digest` is the SHA-256 of JSON.stringify of the normalized review. The types of the JSON values
-- (`bool`, `validIso`) are `flags_are_boolean` and `observed_at_valid`.
pub mod Reviews
pub mod Acceptance
use fareradar.Prelude.{
  ℕ, String, Bool, true, false, Option, none, some, List, [], ◌∷◌, ◌++◌, ◌&&◌, ◌||◌, not, leb, ◌==◌,
  str_eq, truthy, truthy_opt, is_some, get_or, any, all, filter, find, length, if◌then◌else◌,
  Result, ok, err, ◌>>=◌, ◌>>◌, assert, or_throw,
}
use fareradar.Sql.{mem, find_row}

abbrev pub subject_types : List String
subject_types = "ITINERARY" ∷ "PROMOTION" ∷ "AGENCY_OFFER" ∷ "SOURCE_EVENT" ∷ "EMAIL" ∷ "ROUTE" ∷ []

abbrev pub complex_strategies : List String
complex_strategies = "S09" ∷ "S11" ∷ "S12" ∷ "S14" ∷ "S15" ∷ []

abbrev pub labels : List String
labels =
    "TRUE_DEAL" ∷ "NORMAL" ∷ "GHOST" ∷ "EXPIRED" ∷ "BAG_ERASED_SAVINGS" ∷ "GROUND_ERASED_SAVINGS"
    ∷ "SELF_TRANSFER_NOT_WORTH_IT" ∷ "DOCUMENT_BLOCKED" ∷ "FOUR_LEG_WORTH_IT"
    ∷ "FOUR_LEG_POSITIONING_ERASED_SAVINGS" ∷ "AMADEUS_LCC_MISS" ∷ "BEAT_WINDOW_MISS"
    ∷ "TAX_EXEMPT_MISS" ∷ "COST_DEDUP_MISS" ∷ "POLICY_STALE_MISS" ∷ "PROTECTION_CLASS_MISS"
    ∷ "PROMO_NOT_BOOKABLE" ∷ "AGENCY_CLEARANCE_TRUE" ∷ "AGENCY_CLEARANCE_GHOST"
    ∷ "AGENCY_SELLER_UNVERIFIED" ∷ "EMAIL_AUTH_FAIL" ∷ "EMAIL_LINK_RISK" ∷ "SOURCE_DUPLICATE_HEAVY"
    ∷ "SOURCE_FIRST_WIN" ∷ "SOURCE_LATE_REPOST" ∷ "SOURCE_ACCESS_STALE" ∷ "SOURCE_DELETION_OBSERVED"
    ∷ "CACHED_FARE_REPRICE_MISS" ∷ "ROUTE_UNIVERSE_NEW_SIGNAL" ∷ []

pub record ShadowReviewInput : Type 0 where
  pub sample_id : String
  pub subject_id : String
  pub subject_type : String
  pub observed_at : String
  pub label : String
  pub complex : Bool
  pub source_discovery : Bool
  pub agency_clearance : Bool
  pub false_actionable : Bool
  pub safety_error_code : Option String
  pub evidence_id : String
  pub flags_are_boolean : Bool
  pub observed_at_valid : Bool
  pub safety_error_blank : Bool

pub record CanonicalSubject : Type 0 where
  pub observed_at : String
  pub strategy_type : Option String

-- The first row of each SELECT of canonicalSubject, by the values bound in it. An e-mail's and a
-- route's row has the id of its evidence too.
pub record Evidence : Type 0 where
  pub itinerary : String → String → Option CanonicalSubject
  pub promotion : String → String → Option String
  pub agency_offer : String → String → Option String
  pub source_event : String → Option String
  pub email : String → Option (String × String)
  pub route : String → Option (String × String)

abbrev no_strategy : String → CanonicalSubject
no_strategy observed = record { observed_at = observed; strategy_type = none }

abbrev mismatch : String
mismatch = "SHADOW_CANONICAL_EVIDENCE_MISMATCH"

-- A row of which the evidence id is compared after the SELECT.
abbrev with_evidence : Option (String × String) → String → Result CanonicalSubject
with_evidence none evidence = err mismatch
with_evidence (some (observed, id)) evidence =
    if str_eq id evidence then ok (no_strategy observed) else err mismatch

abbrev simple_subject : Option String → Result CanonicalSubject
simple_subject none = err mismatch
simple_subject (some observed) = ok (no_strategy observed)

unfoldable pub canonical_subject : Evidence → ShadowReviewInput → Result CanonicalSubject
canonical_subject db r =
    if str_eq r.subject_type "ITINERARY"
    then or_throw (db.itinerary r.evidence_id r.subject_id) mismatch
    else if str_eq r.subject_type "PROMOTION"
    then simple_subject (db.promotion r.subject_id r.evidence_id)
    else if str_eq r.subject_type "AGENCY_OFFER"
    then simple_subject (db.agency_offer r.subject_id r.evidence_id)
    else if str_eq r.subject_type "SOURCE_EVENT"
    then (if str_eq r.evidence_id r.subject_id
        then simple_subject (db.source_event r.subject_id)
        else err mismatch)
    else if str_eq r.subject_type "EMAIL"
    then with_evidence (db.email r.subject_id) r.evidence_id
    else if str_eq r.subject_type "ROUTE"
    then with_evidence (db.route r.subject_id) r.evidence_id
    else err "SHADOW_REVIEW_SUBJECT_TYPE_INVALID"

abbrev well_formed : ShadowReviewInput → Bool
well_formed r =
    mem r.subject_type subject_types
    && mem r.label labels
    && r.flags_are_boolean
    && r.observed_at_valid
    && truthy r.sample_id
    && truthy r.subject_id
    && truthy r.evidence_id

-- `strategy && COMPLEX_STRATEGIES.has(strategy)` of an itinerary.
abbrev pub derived_complex : ShadowReviewInput → Option String → Bool
derived_complex r strategy =
    str_eq r.subject_type "ITINERARY"
    && truthy_opt strategy
    && mem (get_or strategy "") complex_strategies

abbrev same_bool : Bool → Bool → Bool
same_bool true b = b
same_bool false b = not b

unfoldable pub validate_flags : ShadowReviewInput → Option String → Result (Unit {0})
validate_flags r strategy = do
  assert (well_formed r) "SHADOW_REVIEW_INVALID"
  assert (not (is_some r.safety_error_code && r.safety_error_blank)) "SHADOW_REVIEW_INVALID"
  assert (same_bool r.complex (derived_complex r strategy)) "SHADOW_COMPLEX_FLAG_MISMATCH"
  assert
      (not (
        r.source_discovery
        && not (str_eq r.subject_type "SOURCE_EVENT")
        && not (str_eq r.subject_type "ROUTE")))
      "SHADOW_SOURCE_DISCOVERY_FLAG_MISMATCH"
  assert (not (r.agency_clearance && not (str_eq r.subject_type "AGENCY_OFFER")))
      "SHADOW_AGENCY_CLEARANCE_FLAG_MISMATCH"

-- A row of shadow_review_samples, less created_at and the digest: also what the digest is of.
pub record Normalized : Type 0 where
  pub review : ShadowReviewInput
  pub strategy_type : Option String
  pub reviewer_key_id : String
  pub commit_sha : String

pub record Sample : Type 0 where
  pub normalized : Normalized
  pub review_payload_sha256 : String
  pub created_at : ℕ

abbrev pub sample_key : Sample → String
sample_key s = s.normalized.review.sample_id

abbrev pub same_unit : ShadowReviewInput → Sample → Bool
same_unit r s =
    str_eq s.normalized.review.subject_type r.subject_type
    && str_eq s.normalized.review.subject_id r.subject_id
    && str_eq s.normalized.review.evidence_id r.evidence_id

module _ (digest : Normalized → String) (db : Evidence) where
  -- writeShadowReview, once the review is normalized: the table, and whether it was there already.
  unfoldable pub store_review : List Sample → Normalized → ℕ → Result (List Sample × Bool)
  store_review t n now = elim (find_row sample_key n.review.sample_id t) [
    | some prior ↦
        if str_eq prior.review_payload_sha256 (digest n)
        then ok (t, true)
        else err "SHADOW_REVIEW_IDEMPOTENCY_CONFLICT"
    | none ↦
        if any (same_unit n.review) t
        then err "SHADOW_REVIEW_UNIT_CONFLICT"
        else ok (
          t ++ record { normalized = n; review_payload_sha256 = digest n; created_at = now } ∷ [],
          false,
        )
  ]

  abbrev pub normalize : ShadowReviewInput → CanonicalSubject → String → String → Normalized
  normalize r canonical reviewer commit = record {
    review = r;
    strategy_type = canonical.strategy_type;
    reviewer_key_id = reviewer;
    commit_sha = commit;
  }

  -- writeShadowReview.
  unfoldable pub write_shadow_review :
      List Sample → ShadowReviewInput → String → String → ℕ → Result (List Sample × Bool)
  unfolding store_review canonical_subject validate_flags
  write_shadow_review t r reviewer commit now = do
    canonical ← canonical_subject db r
    validate_flags r canonical.strategy_type
    assert (str_eq r.observed_at canonical.observed_at) "SHADOW_OBSERVED_AT_MISMATCH"
    store_review t (normalize r canonical reviewer commit) now

pub record RuntimeDay : Type 0 where
  pub commit_sha : String
  pub runtime_date : String

-- recordShadowRuntimeDay, for a valid commit and time whose date is `day`: INSERT OR IGNORE on the
-- commit and the date.
unfoldable pub record_shadow_runtime_day :
    List RuntimeDay → Bool → String → String → List RuntimeDay
record_shadow_runtime_day t shadow commit day =
    if not shadow
    then t
    else if any (λ d. str_eq d.commit_sha commit && str_eq d.runtime_date day) t
    then t
    else t ++ record { commit_sha = commit; runtime_date = day } ∷ []

pub record Readback : Type 0 where
  pub pass : Bool
  pub shadow_days : ℕ
  pub labeled_candidates : ℕ
  pub labeled_complex_candidates : ℕ
  pub labeled_source_discovery_events : ℕ
  pub labeled_agency_clearance_events : ℕ
  pub complex_strategy_missing : List String
  pub false_actionable_complex : ℕ
  pub safety_critical_errors : ℕ

abbrev pub is_itinerary : Sample → Bool
is_itinerary s = str_eq s.normalized.review.subject_type "ITINERARY"

abbrev pub is_complex : Sample → Bool
is_complex s = is_itinerary s && s.normalized.review.complex

abbrev pub has_strategy : String → Sample → Bool
has_strategy x s = str_eq (get_or s.normalized.strategy_type "") x

abbrev pub no_strings : List String → Bool
no_strings [] = true
no_strings (x ∷ xs) = false

-- shadowAcceptanceReadback, over the rows and the days of all commits.
unfoldable pub shadow_acceptance_readback : List RuntimeDay → List Sample → String → Bool → Readback
shadow_acceptance_readback days samples commit shadow =
    let rows = filter (λ s. str_eq s.normalized.commit_sha commit) samples in
    let complex_rows = filter is_complex rows in
    let missing = filter (λ x. not (any (has_strategy x) complex_rows)) complex_strategies in
    let candidates = length (filter is_itinerary rows) in
    let discovery = length (filter (λ s. s.normalized.review.source_discovery) rows) in
    let agency = length (filter (λ s. s.normalized.review.agency_clearance) rows) in
    let false_complex = length (filter (λ s. s.normalized.review.false_actionable) complex_rows) in
    let safety = length (filter (λ s. truthy_opt s.normalized.review.safety_error_code) rows) in
    let shadow_days = length (filter (λ d. str_eq d.commit_sha commit) days) in
    record {
      pass =
          shadow
          && leb 14 shadow_days
          && leb 150 candidates
          && leb 30 (length complex_rows)
          && leb 30 discovery
          && leb 10 agency
          && no_strings missing
          && (false_complex == 0)
          && (safety == 0);
      shadow_days = shadow_days;
      labeled_candidates = candidates;
      labeled_complex_candidates = length complex_rows;
      labeled_source_discovery_events = discovery;
      labeled_agency_clearance_events = agency;
      complex_strategy_missing = missing;
      false_actionable_complex = false_complex;
      safety_critical_errors = safety;
    }

-- ===== src/Jobs/Search.antt =====
-- src/provider_jobs.ts, validateExactFlightQuery and enqueueProviderSearch. `fingerprint` is sha256Hex
-- of the query's canonical JSON and `digest` the first 24 digits of sha256Hex of a refresh key.
use Prim.Native.Char.{code}
use fareradar.Prelude.{
  ℕ, String, Bool, true, false, Option, none, some, List, [], ◌∷◌, ◌≡◌, refl, inl, inr, ◌&&◌, not,
  leb, ◌==◌, str_eq, truthy, truthy_opt, is_some, all, length, arith, if◌then◌else◌, Result, ok,
  err, ◌>>◌, assert, Bool-cases,
}
use Prim.Native.String.{◌++◌ as str_append}
use fareradar.Sql.{find_row, mem, insert_or_ignore}
use fareradar.Sql.Laws.{insert_or_ignore-found}
use fareradar.Core.{Number, finite}
use fareradar.Prelude.Int.{pos}
use fareradar.Db.{JobState, provider_api, VerificationJob}
use fareradar.Runtime.{Runtime, Moment}
use fareradar.Providers.{ProviderAccess, current_terms}
use fareradar.Jobs.{job_key}
use fareradar.Jobs.Budget.{PricingSnapshot, UsageWindow, reserve_provider_search_budget}

pub record Slice : Type 0 where
  pub origin : String
  pub destination : String
  pub departure_date : String

pub record Passenger : Type 0 where
  pub type : Option String
  pub age : Option Number

pub record ExactFlightQuery : Type 0 where
  pub slices : List Slice
  pub passengers : List Passenger
  pub max_connections : Option Number

abbrev pub codes : String → List ℕ
codes String.[] = []
codes (String.◌∷◌ c s) = code c ∷ codes s

abbrev is_upper : ℕ → Bool
is_upper c = leb b'A' c && leb c b'Z'

abbrev is_digit : ℕ → Bool
is_digit c = leb b'0' c && leb c b'9'

abbrev is_dash : ℕ → Bool
is_dash c = c == b'-'

-- A pattern of one class for each character, anchored at both ends.
matches_each : List (ℕ → Bool) → List ℕ → Bool
matches_each [] [] = true
matches_each (p ∷ ps) (c ∷ cs) = p c && matches_each ps cs
matches_each _ _ = false

-- /^[A-Z]{3}$/.
unfoldable pub is_iata : String → Bool
unfolding matches_each
is_iata s = matches_each (is_upper ∷ is_upper ∷ is_upper ∷ []) (codes s)

-- /^[0-9]{4}-[0-9]{2}-[0-9]{2}$/.
is_date : String → Bool
unfolding matches_each
is_date s =
    matches_each
      (is_digit ∷ is_digit ∷ is_digit ∷ is_digit ∷ is_dash ∷ is_digit ∷ is_digit ∷ is_dash
        ∷ is_digit ∷ is_digit ∷ [])
      (codes s)

abbrev valid_slice : Runtime → Slice → Bool
valid_slice R s =
    is_iata s.origin
    && is_iata s.destination
    && is_date s.departure_date
    && is_some (R.parse (str_append s.departure_date "T00:00:00Z"))

abbrev is_finite : Option Number → Bool
is_finite (some (finite x)) = true
is_finite _ = false

-- Exactly one of a type and an age.
abbrev identified : Passenger → Bool
identified p = if truthy_opt p.type then not (is_finite p.age) else is_finite p.age

-- An integer from 0 to 3, or not given. A number of the model that is finite is whole.
abbrev valid_connections : Option Number → Bool
valid_connections none = true
valid_connections (some (finite (pos n))) = leb n 3
valid_connections (some _) = false

abbrev between : ℕ → ℕ → ℕ → Bool
between lo hi n = leb lo n && leb n hi

unfoldable pub validate_exact_flight_query : Runtime → ExactFlightQuery → Result (Unit {0})
unfolding is_iata is_date
validate_exact_flight_query R q = do
  assert (between 1 4 (length q.slices)) "QUERY_SLICES_INVALID"
  assert (all (valid_slice R) q.slices) "QUERY_SLICE_INVALID"
  assert (between 1 9 (length q.passengers)) "QUERY_PASSENGERS_INVALID"
  assert (all identified q.passengers) "QUERY_PASSENGER_IDENTITY_INVALID"
  assert (valid_connections q.max_connections) "QUERY_CONNECTIONS_INVALID"

pub data Mode : Type 0 where
  background user_request : Mode

pub record SearchInput : Type 0 where
  pub provider_id : String
  pub mode : Mode
  pub query : ExactFlightQuery
  pub refresh_key : Option String

-- The tables that an enqueue writes.
pub record SearchTables : Type 0 where
  pub verification_jobs : List VerificationJob
  pub provider_usage_windows : List UsageWindow

pub record Enqueued : Type 0 where
  pub job_id : String
  pub query_fingerprint : String
  pub idempotent : Bool

-- The platform's hashes, and the texts of the JSON that is stored.
pub record Hashes : Type 0 where
  pub fingerprint : ExactFlightQuery → String
  pub digest : String → String
  pub payload : SearchInput → String → String

abbrev is_background : Mode → Bool
is_background background = true
is_background user_request = false

-- provider_access_registry: the guards before the job's id is made.
abbrev admitted_provider : Runtime → Option ProviderAccess → Mode → Result (Unit {0})
admitted_provider R none mode = err "PROVIDER_ACCESS_NOT_READY"
admitted_provider R (some p) mode = do
  assert
      (str_eq p.kill_switch_state "CLEAR"
        && str_eq p.connector_state "IMPLEMENTED"
        && current_terms R.parse p.terms_snapshot_at)
      "PROVIDER_ACCESS_NOT_READY"
  assert (mem "LIVE_REPRICE" p.supported_verification) "PROVIDER_CAPABILITY_NOT_ALLOWED"
  assert (not (is_background mode && not p.background_allowed)) "PROVIDER_BACKGROUND_NOT_ALLOWED"

abbrev valid_refresh_key : Runtime → Option String → Bool
valid_refresh_key R none = true
valid_refresh_key R (some k) = truthy (R.trim k) && leb (length (codes k)) 512

abbrev refresh_suffix : Hashes → Option String → String
refresh_suffix H none = ""
refresh_suffix H (some k) = if truthy k then str_append ":refresh:" (H.digest k) else ""

unfoldable pub search_job_id : Hashes → SearchInput → String
search_job_id H i = str_append "provider:" (
    str_append i.provider_id
      (str_append ":" (str_append (H.fingerprint i.query) (refresh_suffix H i.refresh_key))))

unfoldable pub search_job : Hashes → SearchInput → Moment → VerificationJob
unfolding search_job_id
search_job H i now = record {
  job_id = search_job_id H i;
  job_type = "LIVE_REPRICE";
  target_class = provider_api;
  source_id = none;
  payload_json = H.payload i (H.fingerprint i.query);
  state = JobState.pending;
  attempts = 0;
  available_at = now.ms;
  lease_until = none;
  claimed_by = none;
  last_error = none;
  created_at = now.ms;
  provider_id = some i.provider_id;
  query_fingerprint = some (H.fingerprint i.query);
  user_request = not (is_background i.mode);
}

module _ (R : Runtime) (H : Hashes) (access : List ProviderAccess)
    (pricing : List PricingSnapshot) where
  abbrev pub accepted : SearchInput → Result (Unit {0})
  accepted i = do
    validate_exact_flight_query R i.query
    admitted_provider R (find_row (λ p. p.provider_id) i.provider_id access) i.mode
    assert (valid_refresh_key R i.refresh_key) "PROVIDER_REFRESH_KEY_INVALID"

  abbrev pub answer_of : SearchInput → Bool → Enqueued
  answer_of i again = record {
    job_id = search_job_id H i;
    query_fingerprint = H.fingerprint i.query;
    idempotent = again;
  }

  -- After the budget is reserved: INSERT OR IGNORE.
  abbrev pub insert_search :
      SearchTables
      → SearchInput
      → Moment
      → List UsageWindow × Result (Unit {0})
      → SearchTables × Result Enqueued
  insert_search t i now (windows, err e) = (record t { provider_usage_windows = windows }, err e)
  insert_search t i now (windows, ok done) = (
    record {
      verification_jobs = insert_or_ignore job_key (search_job H i now) t.verification_jobs;
      provider_usage_windows = windows;
    },
    ok (answer_of i false),
  )

  abbrev pub enqueue_accepted :
      SearchTables → SearchInput → Moment → Result (Unit {0}) → SearchTables × Result Enqueued
  enqueue_accepted t i now (err e) = (t, err e)
  enqueue_accepted t i now (ok done) =
      if is_some (find_row job_key (search_job_id H i) t.verification_jobs)
      then (t, ok (answer_of i true))
      else insert_search t i now (
          reserve_provider_search_budget R access pricing t.provider_usage_windows i.provider_id
            now)

  -- enqueueProviderSearch. What was written before a throw stays.
  unfoldable pub enqueue_provider_search :
      SearchTables → SearchInput → Moment → SearchTables × Result Enqueued
  unfolding search_job
  enqueue_provider_search t i now = enqueue_accepted t i now (accepted i)

  inserted :
      (t t' : SearchTables) (i : SearchInput) (now : Moment) (a : Enqueued)
      (budget : List UsageWindow × Result (Unit {0}))
      → insert_search t i now budget ≡ (t', ok a)
      → (is_some (find_row job_key (search_job_id H i) t'.verification_jobs) ≡ true)
        × (record a { idempotent = true } ≡ answer_of i true)
  unfolding search_job
  inserted t t' i now a (windows, err e) h = absurd (ground arith)
  inserted t t' i now a (windows, ok done) h =
      ground (arith, insert_or_ignore-found job_key (search_job H i now) t.verification_jobs)

  made :
      (t t' : SearchTables) (i : SearchInput) (now : Moment) (a : Enqueued) (r : Result (Unit {0}))
      → enqueue_accepted t i now r ≡ (t', ok a)
      → (r ≡ ok tt)
        × (is_some (find_row job_key (search_job_id H i) t'.verification_jobs) ≡ true)
        × (record a { idempotent = true } ≡ answer_of i true)
  made t t' i now a (err e) h = absurd (ground arith)
  made t t' i now a (ok done) h =
      elim (Bool-cases (is_some (find_row job_key (search_job_id H i) t.verification_jobs))) [
        | inl found ↦ ground arith
        | inr free ↦
            let (there, same) = inserted t t' i now a _ (rw free at h) in (refl, there, same)
      ]

  -- A search that is enqueued again, for the same provider, mode, query and refresh key, is answered
  -- from the job that the first call made: it makes no second job, and takes nothing from the
  -- provider's budget, whatever the time.
  pub enqueue_search_once :
      (t t' : SearchTables) (i : SearchInput) (now later : Moment) (a : Enqueued)
      → enqueue_provider_search t i now ≡ (t', ok a)
      → enqueue_provider_search t' i later ≡ (t', ok (record a { idempotent = true }))
  unfolding enqueue_provider_search
  enqueue_search_once t t' i now later a h =
      let (passed, found, same) = made t t' i now a (accepted i) h in rw (passed, found, same) refl

-- ===== src/Jobs.antt =====
-- The verification jobs: leaseVerificationJobs and completeVerificationJob of src/scheduler.ts,
-- leaseProviderJobs and completeProviderJob of src/provider_jobs.ts, and the lease checks
-- workerLeaseAllowsSource and providerLeaseAllowsJob of src/auth.ts.
pub mod Leases
pub mod Completing
pub mod Budget
pub mod Search
use fareradar.Prelude.Int.{ℤ, pos, negsuc}
use fareradar.Prelude.{
  ℕ, suc, ◌+◌, min, String, Bool, true, false, Option, none, some, List, [], ◌∷◌, ◌++◌, ◌&&◌, ◌||◌,
  not, leb, ltb, ◌==◌, str_eq, opt_str_eq, truthy, is_some, get_or, filter, if◌then◌else◌, Result,
  ok, err, ◌>>=◌, ◌>>◌, assert, or_throw,
}
use Prim.Native.String.{◌++◌ as str_append}
use fareradar.Sql.{update_where, find_row, sql_limit, claim, mem}
use fareradar.Db.{
  Db, admin, Payload, JobState, TargetClass, external_heavy, provider_api, VerificationJob,
  iso_after, retry_delay,
}
use fareradar.Outbox.{IntentInput, enqueue_alert_intent}
use fareradar.Outbox.Notifications.{lapsed, lease_runs}
use fareradar.Priority.{is_pending, is_leased}

abbrev pub same_target : TargetClass → TargetClass → Bool
same_target external_heavy external_heavy = true
same_target provider_api provider_api = true
same_target _ _ = false

abbrev pub job_key : VerificationJob → String
job_key r = r.job_id

unfoldable pub reclaim_job : VerificationJob → VerificationJob
reclaim_job r = record r { state = JobState.pending; claimed_by = none; lease_until = none }

-- UPDATE … WHERE target_class = ? AND state = 'LEASED' AND lease_until <= ?.
unfoldable pub reclaim : TargetClass → ℕ → List VerificationJob → List VerificationJob
unfolding reclaim_job
reclaim target now =
    update_where
      (λ r. same_target r.target_class target && is_leased r.state && lapsed r.lease_until now)
      reclaim_job

unfoldable pub lease_job : String → ℕ → VerificationJob → VerificationJob
lease_job worker until r = record r {
  state = JobState.leased;
  claimed_by = some worker;
  lease_until = some until;
  attempts = suc r.attempts;
}

abbrev pub heavy_due : ℕ → VerificationJob → Bool
heavy_due now r =
    same_target r.target_class external_heavy && is_pending r.state && leb r.available_at now

-- leaseVerificationJobs.
unfoldable pub lease_verification_jobs : Db → ℕ → String → ℕ → ℕ → Db × List VerificationJob
unfolding reclaim lease_job
lease_verification_jobs db now worker limit seconds =
    let (t, rows) =
      claim job_key (heavy_due now) (λ a b. leb a.created_at b.created_at) limit
        (λ r. is_pending r.state) (lease_job worker (iso_after now seconds))
        (reclaim external_heavy now db.verification_jobs) in
    (record db { verification_jobs = t }, rows)

pub record Completion : Type 0 where
  pub job_id : String
  pub source_id : String
  pub success : Bool
  pub error : Option String

pub data CompletionState : Type 0 where
  done retry dead : CompletionState

unfoldable pub done_job : VerificationJob → VerificationJob
done_job r = record r {
  state = JobState.done;
  claimed_by = none;
  lease_until = none;
  last_error = none;
}

unfoldable pub retry_job : ℕ → Completion → VerificationJob → VerificationJob
retry_job next i r = record r {
  state = JobState.pending;
  claimed_by = none;
  lease_until = none;
  available_at = next;
  last_error = some (get_or i.error "FETCH_FAILED");
}

unfoldable pub dead_job : Completion → VerificationJob → VerificationJob
dead_job i r = record r {
  state = JobState.dead;
  claimed_by = none;
  lease_until = none;
  last_error = some (get_or i.error "FETCH_FAILED");
}

-- UPDATE verification_jobs SET … WHERE job_id = ?.
abbrev pub write_job : String → (VerificationJob → VerificationJob) → Db → Db
write_job id f db = record db {
  verification_jobs = update_where (λ r. str_eq r.job_id id) f db.verification_jobs;
}

abbrev pub job_intent : Completion → IntentInput
job_intent i = record {
  intent_id = str_append "admin-verification-" i.job_id;
  itinerary_id = i.source_id;
  alert_class = admin;
  payload = Payload.verification_job_dead i.job_id i.source_id (get_or i.error "FETCH_FAILED");
}

-- completeVerificationJob, after the row is read.
unfoldable pub complete_row : Db → VerificationJob → Completion → ℕ → Db × CompletionState
unfolding done_job retry_job dead_job
complete_row db r i now =
    if i.success
    then (write_job i.job_id done_job db, done)
    else if ltb r.attempts 5
    then (write_job i.job_id (retry_job (iso_after now (retry_delay r.attempts)) i) db, retry)
    else (enqueue_alert_intent (write_job i.job_id (dead_job i) db) (job_intent i) now, dead)

unfoldable pub complete_verification_job : Db → Completion → ℕ → Result (Db × CompletionState)
unfolding complete_row
complete_verification_job db i now = do
  r ← or_throw (find_row job_key i.job_id db.verification_jobs) "VERIFICATION_JOB_NOT_FOUND"
  ok (complete_row db r i now)

-- The row's lease: target class, state, owner and time.
abbrev pub holds_job : TargetClass → VerificationJob → String → ℕ → Bool
holds_job target r worker now =
    same_target r.target_class target
    && is_leased r.state
    && opt_str_eq r.claimed_by worker
    && lease_runs r.lease_until now

-- workerLeaseAllowsSource.
unfoldable pub worker_lease_allows_source : Db → String → String → String → ℕ → Bool
worker_lease_allows_source db job worker source now =
    elim (find_row job_key job db.verification_jobs) [
      | none ↦ false
      | some r ↦ holds_job external_heavy r worker now && opt_str_eq r.source_id source
    ]

-- providerLeaseAllowsJob: with no job type, or an empty one, every type is allowed.
unfoldable pub provider_lease_allows_job : Db → String → String → String → Option String → ℕ → Bool
provider_lease_allows_job db job worker provider type now =
    elim (find_row job_key job db.verification_jobs) [
      | none ↦ false
      | some r ↦
          holds_job provider_api r worker now
          && opt_str_eq r.provider_id provider
          && elim type [ none ↦ true | some t ↦ not (truthy t) || str_eq r.job_type t ]
    ]

-- The types that a lease may ask for: no list, or an empty one, means LIVE_REPRICE. A repeated type
-- changes nothing here, since the list is only searched.
unfoldable pub requested_types : List String → List String
requested_types [] = "LIVE_REPRICE" ∷ []
requested_types (t ∷ ts) =
    filter (λ x. str_eq x "LIVE_REPRICE" || str_eq x "CHECKOUT_REPRICE") (t ∷ ts)

abbrev pub is_empty : List String → Bool
is_empty [] = true
is_empty (x ∷ xs) = false

pub record ProviderLease : Type 0 where
  pub provider_id : String
  pub worker_id : String
  pub limit : Option ℤ
  pub verification_types : List String

-- Math.min(limit ?? 5, 5): a negative limit goes through.
abbrev pub provider_limit : Option ℤ → ℤ
provider_limit none = pos 5
provider_limit (some (pos n)) = pos (min n 5)
provider_limit (some (negsuc n)) = negsuc n

abbrev pub provider_due : ProviderLease → List String → Bool → ℕ → VerificationJob → Bool
provider_due i allowed background now r =
    same_target r.target_class provider_api
    && opt_str_eq r.provider_id i.provider_id
    && mem r.job_type allowed
    && is_pending r.state
    && leb r.available_at now
    && (r.user_request || background)

-- leaseProviderJobs. `ready` is providerReady of src/provider_runtime.ts for a type, and
-- `background` the provider's background_allowed.
unfoldable pub lease_provider_jobs :
    (String → Bool) → Bool → Db → ProviderLease → ℕ → Result (Db × List VerificationJob)
unfolding requested_types reclaim lease_job
lease_provider_jobs ready background db i now = do
  let requested = requested_types i.verification_types
  assert (not (is_empty requested)) "PROVIDER_CAPABILITY_REQUEST_INVALID"
  let allowed = filter ready requested
  assert (not (is_empty allowed)) "PROVIDER_RUNTIME_NOT_READY"
  ok (
      let jobs = reclaim provider_api now db.verification_jobs in
      let (t, rows) =
        claim job_key (provider_due i allowed background now) (λ a b. leb a.created_at b.created_at)
          (sql_limit (provider_limit i.limit) jobs) (λ r. is_pending r.state)
          (lease_job i.worker_id (iso_after now 90)) jobs in
      (record db { verification_jobs = t }, rows))

pub record ProviderCompletion : Type 0 where
  pub job_id : String
  pub provider_id : String
  pub worker_id : String
  pub success : Bool
  pub error : Option String

abbrev pub is_done : JobState → Bool
is_done JobState.done = true
is_done _ = false

abbrev completion_of : ProviderCompletion → Completion
completion_of i = record {
  job_id = i.job_id;
  source_id = i.provider_id;
  success = i.success;
  error = i.error;
}

abbrev is_done_state : CompletionState → Bool
is_done_state done = true
is_done_state _ = false

-- completeProviderJob, once the job is known to be the provider's.
unfoldable pub finish_provider_job :
    (Db → String → ℕ → Db)
    → Db
    → ProviderCompletion
    → ℕ
    → VerificationJob
    → Result (Db × CompletionState)
finish_provider_job project db i now r =
    if is_done r.state
    then ok (if i.success then project db i.job_id now else db, done)
    else if not (holds_job provider_api r i.worker_id now)
    then err "PROVIDER_JOB_LEASE_REQUIRED"
    else (complete_verification_job db (completion_of i) now >>= λ out.
        ok (if i.success && is_done_state out.1 then project out.0 i.job_id now else out.0, out.1))

-- completeProviderJob. `project` is projectProviderJobResults of src/provider_results.ts: what it
-- makes of the tables for a job.
unfoldable pub complete_provider_job :
    (Db → String → ℕ → Db) → Db → ProviderCompletion → ℕ → Result (Db × CompletionState)
unfolding finish_provider_job
complete_provider_job project db i now = do
  r ← or_throw (find_row job_key i.job_id db.verification_jobs) "VERIFICATION_JOB_NOT_FOUND"
  assert (same_target r.target_class provider_api && opt_str_eq r.provider_id i.provider_id)
      "PROVIDER_JOB_LEASE_REQUIRED"
  finish_provider_job project db i now r

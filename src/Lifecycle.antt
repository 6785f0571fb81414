-- ===== src/Lifecycle.antt =====
-- src/offer_lifecycle.ts: the events that the expiry of a live offer leaves behind, and
-- finishLifecycleEvent, which reprices and corrects for one of them. `last_error` is kept as the list
-- of errors that the code joins by "|".
pub mod Expiry
pub mod Tick
pub mod Progress
pub mod Withdrawn
pub mod Unseen
pub mod Repricing
use fareradar.Prelude.{
  ℕ, zero, suc, String, Bool, true, false, Option, none, some, List, [], ◌∷◌, ◌++◌, ◌&&◌, ◌||◌, not,
  ltb, ◌==◌, str_eq, get_or, filter, find, if◌then◌else◌, Result, ok, err,
}
use Prim.Native.String.{◌++◌ as str_append}
use fareradar.Sql.{update_where, order_by, mem}
use fareradar.Db.{Db, deal, admin, Payload}
use fareradar.Runtime.{Runtime, Moment}
use fareradar.Outbox.{IntentInput, enqueue_alert_intent}
use fareradar.Verification.{State}
use fareradar.Providers.{ProviderAccess}
use fareradar.Jobs.Budget.{PricingSnapshot, UsageWindow}
use fareradar.Jobs.Search.{
  ExactFlightQuery, background, SearchInput, SearchTables, Enqueued, Hashes,
  enqueue_provider_search,
}
use fareradar.Offers.{SearchPlan, JobConsumer, Offers}
use fareradar.Offers.Projecting.{Tables}

pub data CorrectionState : Type 0 where
  pending not_required enqueued : CorrectionState

pub data RepriceState : Type 0 where
  pending not_required enqueued partial failed : RepriceState

pub record LifecycleEvent : Type 0 where
  pub event_id : String
  pub result_id : String
  pub queue_id : String
  pub query_fingerprint : String
  pub itinerary_id : Option String
  pub provider_offer_id : String
  pub previous_verification_state : State
  pub new_verification_state : State
  pub effective_at : Option String
  pub support_provider_ids : List String
  pub had_visible_notification : Bool
  pub correction_state : CorrectionState
  pub reprice_state : RepriceState
  pub last_error : List String
  pub created_at : ℕ
  pub updated_at : ℕ

-- The tables of the service that the lifecycle reads and writes.
pub record Life : Type 0 where
  pub tables : Tables
  pub events : List LifecycleEvent
  pub provider_usage_windows : List UsageWindow

abbrev pub reprice_pending : RepriceState → Bool
reprice_pending RepriceState.pending = true
reprice_pending _ = false

abbrev pub correction_pending : CorrectionState → Bool
correction_pending CorrectionState.pending = true
correction_pending _ = false

abbrev pub reprice_text : RepriceState → String
reprice_text RepriceState.pending = "PENDING"
reprice_text RepriceState.not_required = "NOT_REQUIRED"
reprice_text RepriceState.enqueued = "ENQUEUED"
reprice_text partial = "PARTIAL"
reprice_text failed = "FAILED"

abbrev pub is_event : String → LifecycleEvent → Bool
is_event id x = str_eq x.event_id id

abbrev pub set_reprice : RepriceState → List String → ℕ → LifecycleEvent → LifecycleEvent
set_reprice state errors now x = record x {
  reprice_state = state;
  last_error = errors;
  updated_at = now;
}

abbrev pub set_correction : CorrectionState → ℕ → LifecycleEvent → LifecycleEvent
set_correction state now x = record x { correction_state = state; updated_at = now }

-- `supportProviders.has(p) ? 0 : 1`.
abbrev rank : List String → SearchPlan → ℕ
rank providers p = if mem p.provider_id providers then 0 else 1

-- The first `n` plans of providers that are not in `seen`, one for each provider.
unfoldable pub choose : ℕ → List String → List SearchPlan → List SearchPlan
choose zero seen ps = []
choose (suc n) seen [] = []
choose (suc n) seen (p ∷ ps) =
    let others = choose (suc n) seen ps in
    let chosen = p ∷ choose n (p.provider_id ∷ seen) ps in
    if mem p.provider_id seen then others else chosen

abbrev is_nil : List String → Bool
is_nil [] = true
is_nil (x ∷ xs) = false

-- What is left of the chosen plans: PARTIAL, ENQUEUED or FAILED.
unfoldable pub reprice_outcome : List String → List String → RepriceState
reprice_outcome jobs errors =
    if is_nil jobs then failed else if is_nil errors then RepriceState.enqueued else partial

-- The variables of the loop over the chosen plans.
pub record Attempts : Type 0 where
  pub search : SearchTables
  pub consumers : List JobConsumer
  pub jobs : List String
  pub errors : List String

-- INSERT OR IGNORE INTO provider_job_consumers, whose key is (job_id, plan_id).
abbrev pub insert_consumer : JobConsumer → List JobConsumer → List JobConsumer
insert_consumer c t = elim (find (λ x. str_eq x.job_id c.job_id && str_eq x.plan_id c.plan_id) t) [
  | none ↦ t ++ c ∷ []
  | some x ↦ t
]

module _ (R : Runtime) where
  -- The order of Array.sort: support providers first, then by created_at, then by plan_id.
  unfoldable pub plan_le : List String → SearchPlan → SearchPlan → Bool
  plan_le providers a b =
      if ltb (rank providers a) (rank providers b)
      then true
      else if ltb (rank providers b) (rank providers a)
      then false
      else if not (R.locale_le b.created_at a.created_at)
      then true
      else if not (R.locale_le a.created_at b.created_at)
      then false
      else R.locale_le a.plan_id b.plan_id

  -- ORDER BY created_at,plan_id.
  abbrev row_le : SearchPlan → SearchPlan → Bool
  row_le a b =
      not (R.text_le b.created_at a.created_at)
      || (R.text_le a.created_at b.created_at && R.text_le a.plan_id b.plan_id)

  unfoldable pub ranked_plans : LifecycleEvent → List SearchPlan → List SearchPlan
  unfolding plan_le
  ranked_plans e plans = order_by (plan_le e.support_provider_ids) (
      order_by row_le (
        filter (λ p. str_eq p.queue_id e.queue_id && str_eq p.query_fingerprint e.query_fingerprint)
          plans))

  unfoldable pub chosen_plans : LifecycleEvent → List SearchPlan → List SearchPlan
  unfolding ranked_plans choose
  chosen_plans e plans = choose 2 [] (ranked_plans e plans)

-- What finishLifecycleEvent answers.
pub record Finished : Type 0 where
  pub event_id : String
  pub reprice_state : RepriceState
  pub correction_state : CorrectionState
  pub reprice_jobs : List String
  pub errors : List String

abbrev refresh : LifecycleEvent → SearchPlan → ExactFlightQuery → SearchInput
refresh e p q = record {
  provider_id = p.provider_id;
  mode = background;
  query = q;
  refresh_key = some e.event_id;
}

abbrev failed_attempt : SearchPlan → String → Attempts → Attempts
failed_attempt p message a = record a {
  errors = a.errors ++ str_append p.provider_id (str_append ":" message) ∷ [];
}

-- The rest of the `try` after enqueueProviderSearch, and the `catch`.
abbrev record_attempt :
    LifecycleEvent → ℕ → SearchPlan → Attempts → SearchTables × Result Enqueued → Attempts
record_attempt e now p a (t, err message) = failed_attempt p message (record a { search = t })
record_attempt e now p a (t, ok out) = record a {
  search = t;
  consumers =
      insert_consumer
        (record {
          job_id = out.job_id;
          plan_id = p.plan_id;
          queue_id = e.queue_id;
          created_at = now;
        })
        a.consumers;
  jobs = a.jobs ++ out.job_id ∷ [];
}

abbrev missing_plan : List SearchPlan → List String
missing_plan [] = "REPRICE_PLAN_MISSING" ∷ []
missing_plan (p ∷ ps) = []

abbrev subject_of : LifecycleEvent → String
subject_of e = get_or e.itinerary_id e.queue_id

abbrev pub refresh_failed : LifecycleEvent → List String → IntentInput
refresh_failed e errors = record {
  intent_id = str_append "admin-live-offer-refresh:" e.event_id;
  itinerary_id = subject_of e;
  alert_class = admin;
  payload =
      Payload.live_offer_refresh_enqueue_failed e.event_id e.queue_id e.query_fingerprint errors;
}

abbrev pub warned : Db → LifecycleEvent → List String → ℕ → Db
warned db e errors now =
    if is_nil errors then db else enqueue_alert_intent db (refresh_failed e errors) now

-- What the first block writes: jobs, consumers, the event's row and, with errors, an alarm.
unfoldable pub write_reprice : Life → LifecycleEvent → Moment → Attempts → Life
unfolding reprice_outcome
write_reprice s e now a = record {
  tables = record {
    db =
        warned (record s.tables.db { verification_jobs = a.search.verification_jobs }) e a.errors
          now.ms;
    offers = record s.tables.offers { provider_job_consumers = a.consumers };
  };
  events =
      update_where (is_event e.event_id)
        (set_reprice (reprice_outcome a.jobs a.errors) a.errors now.ms) s.events;
  provider_usage_windows = a.search.provider_usage_windows;
}

abbrev pub expiry_intent : LifecycleEvent → RepriceState → List String → IntentInput
expiry_intent e state jobs = record {
  intent_id = str_append "live-offer-expiry:" e.event_id;
  itinerary_id = subject_of e;
  alert_class = deal;
  payload =
      Payload.live_offer_expired e.itinerary_id e.queue_id e.query_fingerprint e.provider_offer_id
        e.effective_at (reprice_text state) jobs;
}

abbrev corrected : Db → LifecycleEvent → RepriceState → List String → ℕ → Db
corrected db e state jobs now =
    if e.had_visible_notification
    then enqueue_alert_intent db (expiry_intent e state jobs) now
    else db

abbrev pub correction_of : LifecycleEvent → CorrectionState
correction_of e =
    if e.had_visible_notification then CorrectionState.enqueued else CorrectionState.not_required

-- What the second block writes, given the reprice state and the jobs of the first.
unfoldable pub write_correction : Life → LifecycleEvent → RepriceState → List String → ℕ → Life
write_correction s e state jobs now = record s {
  tables = record s.tables { db = corrected s.tables.db e state jobs now };
  events = update_where (is_event e.event_id) (set_correction (correction_of e) now) s.events;
}

unfoldable pub finish_correction :
    Life → LifecycleEvent → RepriceState → List String → List String → ℕ → Life × Finished
unfolding write_correction
finish_correction s e state jobs errors now =
    if correction_pending e.correction_state
    then (
      write_correction s e state jobs now,
      record {
        event_id = e.event_id;
        reprice_state = state;
        correction_state = correction_of e;
        reprice_jobs = jobs;
        errors = errors;
      },
    )
    else (
      s,
      record {
        event_id = e.event_id;
        reprice_state = state;
        correction_state = e.correction_state;
        reprice_jobs = jobs;
        errors = errors;
      },
    )

module _ (R : Runtime) (H : Hashes) (access : List ProviderAccess)
    (pricing : List PricingSnapshot) where
  unfoldable pub attempt_plan : LifecycleEvent → Moment → SearchPlan → Attempts → Attempts
  attempt_plan e now p a = elim p.query [
    | err message ↦ failed_attempt p message a
    | ok q ↦
        record_attempt e now.ms p a
          (enqueue_provider_search R H access pricing a.search (refresh e p q) now)
  ]

  unfoldable pub attempt_plans : LifecycleEvent → Moment → List SearchPlan → Attempts → Attempts
  unfolding attempt_plan
  attempt_plans e now [] a = a
  attempt_plans e now (p ∷ ps) a = attempt_plans e now ps (attempt_plan e now p a)

  unfoldable pub attempts_for : Life → LifecycleEvent → Moment → Attempts
  unfolding chosen_plans attempt_plans
  attempts_for s e now =
      let plans = chosen_plans R e s.tables.offers.provider_search_plans in
      attempt_plans e now plans (record {
        search = record {
          verification_jobs = s.tables.db.verification_jobs;
          provider_usage_windows = s.provider_usage_windows;
        };
        consumers = s.tables.offers.provider_job_consumers;
        jobs = [];
        errors = missing_plan plans;
      })

  -- finishLifecycleEvent.
  unfoldable pub finish_lifecycle_event : Life → LifecycleEvent → Moment → Life × Finished
  unfolding finish_correction write_reprice attempts_for
  finish_lifecycle_event s e now =
      if reprice_pending e.reprice_state
      then (let a = attempts_for s e now in
          finish_correction (write_reprice s e now a) e (reprice_outcome a.jobs a.errors) a.jobs
            a.errors now.ms)
      else finish_correction s e e.reprice_state [] [] now.ms

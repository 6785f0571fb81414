-- ===== src/Tests.antt =====
-- Concrete tables, requests and runs, for the tests of the children.
pub mod Outbox
pub mod Queues
pub mod Decisions
pub mod Access
pub mod Shadow
pub mod Offers
pub mod Agencies
pub mod Rechecks
use fareradar.Prelude.{
  ℕ, String, Bool, true, false, Option, none, some, List, [], ◌∷◌, str_eq, if◌then◌else◌,
}
use fareradar.Db.{
  Db, AlertClass, deal, admin, Payload, AlertIntent, Notification, NotificationState, DomainEvent,
  DomainState, CandidateSignal, JobState, promotion, live_reprice, VerificationJob, TargetClass,
  external_heavy, provider_api,
}

abbrev pub notification :
    AlertClass → NotificationState → ℕ → Option String → Option ℕ → Notification
notification class state attempts worker until = record {
  notification_id = "n1";
  channel_class = class;
  payload_json = Payload.stored "{}";
  state = state;
  attempts = attempts;
  next_attempt_at = none;
  lease_until = until;
  claimed_by = worker;
  last_error = none;
  created_at = 0;
}

abbrev pub empty_db : Db
empty_db = record {
  candidate_alert_intents = [];
  notification_outbox = [];
  domain_outbox = [];
  candidate_priority_queue = [];
  verification_jobs = [];
}

abbrev pub with_notification : Notification → Db
with_notification r = record empty_db { notification_outbox = r ∷ [] }

-- A deal that worker w1 sends until time 9000, with two attempts, and five.
abbrev pub sending : ℕ → Notification
sending attempts = notification deal NotificationState.sending attempts (some "w1") (some 9000)

abbrev pub event : ℕ → DomainEvent
event attempts = record {
  id = "1";
  seq = 1;
  event_type = "ITINERARY_CONFIRMED";
  entity_id = "it1";
  payload_json = Payload.stored "{}";
  state = DomainState.claimed;
  attempts = attempts;
  lease_until = some 9000;
  claimed_by = some "w1";
  last_error = none;
}

abbrev pub with_event : DomainEvent → Db
with_event r = record empty_db { domain_outbox = r ∷ [] }

abbrev pub signal : CandidateSignal
signal = record {
  queue_id = "promotion:p1";
  signal_type = promotion;
  signal_id = "p1";
  required_verification = live_reprice;
  priority_score = 40;
  route_scope_json = "[]";
  price_claim_json = none;
  source_evidence_id = "e1";
  state = JobState.leased;
  attempts = 1;
  available_at = 0;
  lease_until = some 9000;
  claimed_by = some "w1";
  last_error = none;
  first_observed_at = 5;
  last_observed_at = 5;
  created_at = 5;
  updated_at = 5;
}

abbrev pub with_signal : CandidateSignal → Db
with_signal r = record empty_db { candidate_priority_queue = r ∷ [] }

abbrev pub job : TargetClass → JobState → ℕ → VerificationJob
job target state attempts = record {
  job_id = "j1";
  job_type = "LIVE_REPRICE";
  target_class = target;
  source_id = some "s1";
  payload_json = "{}";
  state = state;
  attempts = attempts;
  available_at = 0;
  lease_until = some 9000;
  claimed_by = some "w1";
  last_error = none;
  created_at = 0;
  provider_id = some "duffel";
  query_fingerprint = none;
  user_request = true;
}

abbrev pub with_job : VerificationJob → Db
with_job r = record empty_db { verification_jobs = r ∷ [] }

-- A Date.parse that knows two texts.
abbrev pub parse : String → Option ℕ
parse s = if str_eq s "soon" then some 50 else if str_eq s "later" then some 100 else none

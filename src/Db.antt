-- ===== src/Db.antt =====
-- The tables that the queues of src/outbox.ts, src/priority.ts, src/scheduler.ts and
-- src/provider_jobs.ts keep in D1 (columns from migrations/). A time is the number of milliseconds
-- of its ISO text: every time in these tables is written by `toISOString`, whose texts have one
-- width and sort as the times do. A nullable column is an `Option`.
use fareradar.Prelude.{ℕ, String, Option, List, Bool, ◌+◌, ◌*◌, ◌^◌, ◌-◌, min}

pub data AlertClass : Type 0 where
  deal admin : AlertClass

-- The JSON texts that the code stores: one constructor for each object that it builds, and
-- `stored` for a text handed in by a caller.
pub data Payload : Type 0 where
  stored : String → Payload
  notification_delivery_failed : String → String → Payload
  domain_event_dead : String → String → Payload
  candidate_priority_dead : String → String → String → Payload
  verification_job_dead : String → String → String → Payload
  agency_update : String → String → String → String → Payload
  agency_checkout_dead : String → String → String → Payload
  agency_checkout_reproduced : String → String → ℕ → String → String → Payload
  agency_provisional :
      String
      → String
      → String
      → ℕ
      → String
      → String
      → Option String
      → Option ℕ
      → Option String
      → String
      → String
      → String
      → Payload
  live_offer_refresh_enqueue_failed : String → String → String → List String → Payload
  live_offer_expired :
      Option String → String → String → String → Option String → String → List String → Payload

pub record AlertIntent : Type 0 where
  pub intent_id : String
  pub itinerary_id : String
  pub alert_class : AlertClass
  pub payload_json : Payload
  pub projected_at : Option ℕ
  pub created_at : ℕ

pub data NotificationState : Type 0 where
  pending sending delivered dead shadow_held cancelled : NotificationState

pub record Notification : Type 0 where
  pub notification_id : String
  pub channel_class : AlertClass
  pub payload_json : Payload
  pub state : NotificationState
  pub attempts : ℕ
  pub next_attempt_at : Option ℕ
  pub lease_until : Option ℕ
  pub claimed_by : Option String
  pub last_error : Option String
  pub created_at : ℕ

pub data DomainState : Type 0 where
  pending claimed done dead : DomainState

-- `id` is the decimal text of the INTEGER key, `seq` the number, by which ORDER BY id sorts.
pub record DomainEvent : Type 0 where
  pub id : String
  pub seq : ℕ
  pub event_type : String
  pub entity_id : String
  pub payload_json : Payload
  pub state : DomainState
  pub attempts : ℕ
  pub lease_until : Option ℕ
  pub claimed_by : Option String
  pub last_error : Option String

pub data JobState : Type 0 where
  pending leased done dead : JobState

pub data SignalType : Type 0 where
  promotion agency_clearance : SignalType

pub data RequiredVerification : Type 0 where
  live_reprice seller_recheck : RequiredVerification

pub record CandidateSignal : Type 0 where
  pub queue_id : String
  pub signal_type : SignalType
  pub signal_id : String
  pub required_verification : RequiredVerification
  pub priority_score : ℕ
  pub route_scope_json : String
  pub price_claim_json : Option String
  pub source_evidence_id : String
  pub state : JobState
  pub attempts : ℕ
  pub available_at : ℕ
  pub lease_until : Option ℕ
  pub claimed_by : Option String
  pub last_error : Option String
  pub first_observed_at : ℕ
  pub last_observed_at : ℕ
  pub created_at : ℕ
  pub updated_at : ℕ

pub data TargetClass : Type 0 where
  external_heavy provider_api : TargetClass

pub record VerificationJob : Type 0 where
  pub job_id : String
  pub job_type : String
  pub target_class : TargetClass
  pub source_id : Option String
  pub payload_json : String
  pub state : JobState
  pub attempts : ℕ
  pub available_at : ℕ
  pub lease_until : Option ℕ
  pub claimed_by : Option String
  pub last_error : Option String
  pub created_at : ℕ
  pub provider_id : Option String
  pub query_fingerprint : Option String
  pub user_request : Bool

pub record Db : Type 0 where
  pub candidate_alert_intents : List AlertIntent
  pub notification_outbox : List Notification
  pub domain_outbox : List DomainEvent
  pub candidate_priority_queue : List CandidateSignal
  pub verification_jobs : List VerificationJob

-- isoAfter and after: the ISO text `seconds` after `now`.
abbrev pub iso_after : ℕ → ℕ → ℕ
iso_after now seconds = now + seconds * 1000

-- Math.min(3600, 30 * Math.pow(2, Math.max(0, attempts - 1))): `-` on ℕ stops at 0.
unfoldable pub retry_delay : ℕ → ℕ
retry_delay attempts = min 3600 (30 * 2 ^ (attempts - 1))

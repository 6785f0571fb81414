-- ===== src/Priority.antt =====
-- src/priority.ts: the queue of candidate signals. A score is a whole number; `finite` says of an
-- input that it is a finite number.
pub mod Leases
pub mod Scores
use fareradar.Prelude.{
  ℕ, suc, ◌+◌, String, Bool, true, false, Option, none, some, List, [], ◌∷◌, ◌++◌, ◌&&◌, ◌||◌, not,
  leb, ltb, ◌==◌, str_eq, opt_str_eq, truthy, truthy_opt, is_some, get_or, find, if◌then◌else◌,
  Result, ok, err, ◌>>=◌, ◌>>◌, assert, or_throw,
}
use Prim.Native.String.{◌++◌ as str_append}
use fareradar.Sql.{update_where, find_row, claim}
use fareradar.Db.{
  Db, admin, Payload, JobState, SignalType, promotion, agency_clearance, RequiredVerification,
  live_reprice, seller_recheck, CandidateSignal, iso_after, retry_delay,
}
use fareradar.Outbox.{IntentInput, enqueue_alert_intent}
use fareradar.Outbox.Notifications.{lapsed, lease_runs}

pub record SignalInput : Type 0 where
  pub signal_type : SignalType
  pub signal_id : String
  pub required_verification : RequiredVerification
  pub score_finite : Bool
  pub priority_score : ℕ
  pub route_scope_json : String
  pub price_claim_json : Option String
  pub source_evidence_id : String
  pub observed_at : ℕ

abbrev same_type : SignalType → SignalType → Bool
same_type promotion promotion = true
same_type agency_clearance agency_clearance = true
same_type _ _ = false

-- qid: the lower-case type, a colon, the id.
unfoldable pub qid : SignalType → String → String
qid promotion id = str_append "promotion:" id
qid agency_clearance id = str_append "agency_clearance:" id

abbrev max_score : ℕ → ℕ → ℕ
max_score a b = if ltb a b then b else a

-- ON CONFLICT(signal_type, signal_id) DO UPDATE SET …: the state is kept on every branch.
unfoldable pub refresh_signal : SignalInput → ℕ → CandidateSignal → CandidateSignal
refresh_signal i now r = record r {
  priority_score = max_score r.priority_score i.priority_score;
  route_scope_json = i.route_scope_json;
  price_claim_json = if is_some i.price_claim_json then i.price_claim_json else r.price_claim_json;
  source_evidence_id = i.source_evidence_id;
  last_observed_at = i.observed_at;
  updated_at = now;
}

unfoldable pub new_signal : SignalInput → ℕ → CandidateSignal
new_signal i now = record {
  queue_id = qid i.signal_type i.signal_id;
  signal_type = i.signal_type;
  signal_id = i.signal_id;
  required_verification = i.required_verification;
  priority_score = i.priority_score;
  route_scope_json = i.route_scope_json;
  price_claim_json = i.price_claim_json;
  source_evidence_id = i.source_evidence_id;
  state = JobState.pending;
  attempts = 0;
  available_at = now;
  lease_until = none;
  claimed_by = none;
  last_error = none;
  first_observed_at = i.observed_at;
  last_observed_at = i.observed_at;
  created_at = now;
  updated_at = now;
}

abbrev pub same_signal : SignalInput → CandidateSignal → Bool
same_signal i r = same_type r.signal_type i.signal_type && str_eq r.signal_id i.signal_id

unfoldable pub upsert_signal : SignalInput → ℕ → List CandidateSignal → List CandidateSignal
unfolding refresh_signal new_signal
upsert_signal i now t =
    if is_some (find (same_signal i) t)
    then update_where (same_signal i) (refresh_signal i now) t
    else t ++ new_signal i now ∷ []

-- enqueueCandidateSignal.
unfoldable pub enqueue_candidate_signal : Db → SignalInput → ℕ → Result (Db × String)
unfolding upsert_signal
enqueue_candidate_signal db i now = do
  assert (truthy i.signal_id && truthy i.source_evidence_id) "CANDIDATE_SIGNAL_INVALID"
  assert (i.score_finite && leb i.priority_score 100) "PRIORITY_SCORE_INVALID"
  ok (
    record db { candidate_priority_queue = upsert_signal i now db.candidate_priority_queue },
    qid i.signal_type i.signal_id,
  )

abbrev pub is_pending : JobState → Bool
is_pending JobState.pending = true
is_pending _ = false

abbrev pub is_leased : JobState → Bool
is_leased JobState.leased = true
is_leased _ = false

abbrev same_verification : RequiredVerification → RequiredVerification → Bool
same_verification live_reprice live_reprice = true
same_verification seller_recheck seller_recheck = true
same_verification _ _ = false

-- `? IS NULL OR required_verification = ?`.
abbrev asked_for : Option RequiredVerification → RequiredVerification → Bool
asked_for none v = true
asked_for (some w) v = same_verification v w

unfoldable pub reclaim_signal : CandidateSignal → CandidateSignal
reclaim_signal r = record r { state = JobState.pending; claimed_by = none; lease_until = none }

unfoldable pub reclaim : ℕ → List CandidateSignal → List CandidateSignal
unfolding reclaim_signal
reclaim now = update_where (λ r. is_leased r.state && lapsed r.lease_until now) reclaim_signal

unfoldable pub lease_signal : String → ℕ → CandidateSignal → CandidateSignal
lease_signal worker until r = record r {
  state = JobState.leased;
  claimed_by = some worker;
  lease_until = some until;
  attempts = suc r.attempts;
}

abbrev pub eligible : ℕ → Option RequiredVerification → CandidateSignal → Bool
eligible now type r =
    is_pending r.state && leb r.available_at now && asked_for type r.required_verification

-- ORDER BY priority_score DESC, first_observed_at ASC.
unfoldable pub before : CandidateSignal → CandidateSignal → Bool
before a b =
    ltb b.priority_score a.priority_score
    || ((a.priority_score == b.priority_score) && leb a.first_observed_at b.first_observed_at)

abbrev pub queue_key : CandidateSignal → String
queue_key r = r.queue_id

-- leaseCandidateSignals.
unfoldable pub lease_candidate_signals :
    Db → ℕ → String → ℕ → ℕ → Option RequiredVerification → Db × List CandidateSignal
unfolding reclaim lease_signal
lease_candidate_signals db now worker limit seconds type =
    let (t, rows) =
      claim queue_key (eligible now type) before limit (λ r. is_pending r.state)
        (lease_signal worker (iso_after now seconds)) (reclaim now db.candidate_priority_queue) in
    (record db { candidate_priority_queue = t }, rows)

pub record SignalAck : Type 0 where
  pub queue_id : String
  pub worker_id : Option String
  pub succeeded : Bool
  pub retryable : Option Bool
  pub error : Option String

pub data SignalAnswer : Type 0 where
  done dead retry : SignalAnswer

pub data SignalDecision : Type 0 where
  repeat : SignalAnswer → SignalDecision
  finish bury : SignalDecision
  retry_at : ℕ → SignalDecision

abbrev pub closed : JobState → Option SignalAnswer
closed JobState.done = some done
closed JobState.dead = some dead
closed _ = none

abbrev pub holds_lease : CandidateSignal → Option String → ℕ → Bool
holds_lease r worker now =
    is_leased r.state && opt_str_eq r.claimed_by (get_or worker "") && lease_runs r.lease_until now

-- `input.retryable !== false`.
abbrev may_retry : Option Bool → Bool
may_retry none = true
may_retry (some b) = b

unfoldable pub decide_write : CandidateSignal → SignalAck → ℕ → SignalDecision
decide_write r i now =
    if i.succeeded
    then finish
    else if may_retry i.retryable && ltb r.attempts 5
    then retry_at (iso_after now (retry_delay r.attempts))
    else bury

-- A call with a worker id comes from outside and needs the lease; one without is internal.
unfoldable pub decide_ack : CandidateSignal → SignalAck → ℕ → Result SignalDecision
unfolding decide_write
decide_ack r i now =
    if not (truthy_opt i.worker_id) then ok (decide_write r i now) else elim (closed r.state) [
      | some s ↦
          if opt_str_eq r.claimed_by (get_or i.worker_id "")
          then ok (repeat s)
          else err "CANDIDATE_SIGNAL_LEASE_REQUIRED"
      | none ↦
          if holds_lease r i.worker_id now
          then ok (decide_write r i now)
          else err "CANDIDATE_SIGNAL_LEASE_REQUIRED"
    ]

unfoldable pub signal_set : SignalDecision → SignalAck → ℕ → CandidateSignal → CandidateSignal
signal_set (repeat s) i now r = r
signal_set finish i now r = record r {
  state = JobState.done;
  lease_until = none;
  last_error = none;
  updated_at = now;
}
signal_set (retry_at next) i now r = record r {
  state = JobState.pending;
  claimed_by = none;
  lease_until = none;
  available_at = next;
  last_error = some (get_or i.error "RETRYABLE");
  updated_at = now;
}
signal_set bury i now r = record r {
  state = JobState.dead;
  lease_until = none;
  last_error = some (get_or i.error "TERMINAL");
  updated_at = now;
}

abbrev pub dead_intent : SignalAck → String → IntentInput
dead_intent i signal_id = record {
  intent_id = str_append "admin-candidate-" i.queue_id;
  itinerary_id = signal_id;
  alert_class = admin;
  payload = Payload.candidate_priority_dead i.queue_id signal_id (get_or i.error "TERMINAL");
}

-- UPDATE … WHERE queue_id = ?: no guard on the state or the owner.
abbrev pub write_signal : SignalDecision → SignalAck → ℕ → Db → Db
write_signal d i now db = record db {
  candidate_priority_queue =
      update_where (λ r. str_eq r.queue_id i.queue_id) (signal_set d i now)
        db.candidate_priority_queue;
}

unfoldable pub apply_ack : SignalDecision → String → SignalAck → ℕ → Db → Db
unfolding signal_set
apply_ack (repeat s) signal_id i now db = db
apply_ack finish signal_id i now db = write_signal finish i now db
apply_ack (retry_at next) signal_id i now db = write_signal (retry_at next) i now db
apply_ack bury signal_id i now db =
    enqueue_alert_intent (write_signal bury i now db) (dead_intent i signal_id) now

abbrev pub signal_answer : SignalDecision → SignalAnswer
signal_answer (repeat s) = s
signal_answer finish = done
signal_answer (retry_at next) = retry
signal_answer bury = dead

-- ackCandidateSignal.
unfoldable pub ack_candidate_signal : Db → SignalAck → ℕ → Result (Db × SignalAnswer)
unfolding decide_ack apply_ack
ack_candidate_signal db i now = do
  r ←
      or_throw (find_row queue_key i.queue_id db.candidate_priority_queue)
        "CANDIDATE_SIGNAL_NOT_FOUND"
  d ← decide_ack r i now
  ok (apply_ack d r.signal_id i now db, signal_answer d)

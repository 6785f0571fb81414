-- ===== src/Outbox/Notifications.antt =====
-- src/outbox.ts, leaseNotifications and ackNotification.
pub mod Leases
pub mod Acks
use fareradar.Prelude.{
  ℕ, suc, String, Bool, true, false, Option, none, some, List, [], ◌∷◌, ◌&&◌, ◌||◌, not, leb, ltb,
  str_eq, opt_str_eq, get_or, if◌then◌else◌, Result, ok, err, ◌>>=◌, or_throw,
}
use fareradar.Outbox.{IntentInput, enqueue_alert_intent}
use Prim.Native.String.{◌++◌ as str_append}
use fareradar.Sql.{update_where, find_row, claim}
use fareradar.Db.{
  Db, AlertClass, deal, admin, Payload, Notification, NotificationState, iso_after, retry_delay,
}

abbrev pub is_pending : NotificationState → Bool
is_pending NotificationState.pending = true
is_pending _ = false

abbrev pub is_sending : NotificationState → Bool
is_sending NotificationState.sending = true
is_sending _ = false

-- `lease_until IS NOT NULL AND lease_until <= now`.
abbrev pub lapsed : Option ℕ → ℕ → Bool
lapsed none now = false
lapsed (some t) now = leb t now

-- `next_attempt_at IS NULL OR next_attempt_at <= now`.
abbrev pub due : Option ℕ → ℕ → Bool
due none now = true
due (some t) now = leb t now

-- The first statement of leaseNotifications: leases that have run out are given back.
unfoldable pub reclaim_row : Notification → Notification
reclaim_row r = record r {
  state = NotificationState.pending;
  claimed_by = none;
  lease_until = none;
}

unfoldable pub reclaim : ℕ → List Notification → List Notification
unfolding reclaim_row
reclaim now = update_where (λ r. is_sending r.state && lapsed r.lease_until now) reclaim_row

-- The SET list of the second statement.
unfoldable pub lease_row : String → ℕ → Notification → Notification
lease_row worker until r = record r {
  state = NotificationState.sending;
  claimed_by = some worker;
  lease_until = some until;
  attempts = suc r.attempts;
}

abbrev pub leasable : ℕ → Notification → Bool
leasable now r = is_pending r.state && due r.next_attempt_at now

unfoldable pub lease_statement :
    ℕ → String → ℕ → ℕ → List Notification → List Notification × List Notification
unfolding lease_row
lease_statement now worker limit seconds =
    claim (λ r. r.notification_id) (leasable now) (λ a b. leb a.created_at b.created_at) limit
      (λ r. is_pending r.state) (lease_row worker (iso_after now seconds))

-- leaseNotifications: the new tables, and the rows returned to the worker.
unfoldable pub lease_notifications : Db → ℕ → String → ℕ → ℕ → Db × List Notification
unfolding reclaim lease_statement
lease_notifications db now worker limit seconds =
    let (t, rows) = lease_statement now worker limit seconds (reclaim now db.notification_outbox) in
    (record db { notification_outbox = t }, rows)

pub record AckInput : Type 0 where
  pub notification_id : String
  pub worker_id : String
  pub succeeded : Bool
  pub retryable : Bool
  pub error : Option String

-- What ackNotification answers.
pub data AckState : Type 0 where
  delivered retry dead : AckState

-- The branch that it takes on the row it has read: an answer with nothing written, or a write.
pub data AckDecision : Type 0 where
  repeat : AckState → AckDecision
  deliver : AckDecision
  retry_at : ℕ → AckDecision
  bury : AckDecision

-- A row that holds a lease which runs: `row.lease_until` set, and later than now.
abbrev pub lease_runs : Option ℕ → ℕ → Bool
lease_runs none now = false
lease_runs (some t) now = ltb now t

abbrev pub holds_lease : Notification → String → ℕ → Bool
holds_lease r worker now =
    is_sending r.state && opt_str_eq r.claimed_by worker && lease_runs r.lease_until now

-- `row.state` is DELIVERED or DEAD.
abbrev pub finished : NotificationState → Option AckState
finished NotificationState.delivered = some delivered
finished NotificationState.dead = some dead
finished _ = none

unfoldable pub ack_write : Notification → AckInput → ℕ → AckDecision
ack_write r i now =
    if i.succeeded
    then deliver
    else if i.retryable && ltb r.attempts 5
    then retry_at (iso_after now (retry_delay r.attempts))
    else bury

unfoldable pub ack_leased : Notification → AckInput → ℕ → Result AckDecision
unfolding ack_write
ack_leased r i now =
    if holds_lease r i.worker_id now
    then ok (ack_write r i now)
    else err "NOTIFICATION_LEASE_REQUIRED"

unfoldable pub decide_ack : Notification → AckInput → ℕ → Result AckDecision
unfolding ack_leased
decide_ack r i now = elim (finished r.state) [
  | none ↦ ack_leased r i now
  | some s ↦ if opt_str_eq r.claimed_by i.worker_id then ok (repeat s) else ack_leased r i now
]

-- WHERE notification_id = ? AND state = 'SENDING' AND claimed_by = ?.
abbrev pub ack_guard : AckInput → Notification → Bool
ack_guard i r =
    str_eq r.notification_id i.notification_id
    && is_sending r.state
    && opt_str_eq r.claimed_by i.worker_id

-- The SET list of each write.
unfoldable pub ack_set : AckDecision → AckInput → Notification → Notification
ack_set (repeat s) i r = r
ack_set deliver i r = record r {
  state = NotificationState.delivered;
  lease_until = none;
  last_error = none;
}
ack_set (retry_at next) i r = record r {
  state = NotificationState.pending;
  claimed_by = none;
  lease_until = none;
  next_attempt_at = some next;
  last_error = some (get_or i.error "RETRYABLE");
}
ack_set bury i r = record r {
  state = NotificationState.dead;
  lease_until = none;
  last_error = some (get_or i.error "TERMINAL");
}

abbrev pub failure_intent : AckInput → IntentInput
failure_intent i = record {
  intent_id = str_append "admin-delivery-" i.notification_id;
  itinerary_id = i.notification_id;
  alert_class = admin;
  payload = Payload.notification_delivery_failed i.notification_id (get_or i.error "TERMINAL");
}

abbrev pub is_deal : AlertClass → Bool
is_deal deal = true
is_deal admin = false

-- The statements sent once the branch is taken: the guarded UPDATE, and for a dead DEAL
-- notification the ADMIN intent.
unfoldable pub apply_ack : AckDecision → AlertClass → AckInput → ℕ → Db → Db
unfolding ack_set
apply_ack (repeat s) channel i now db = db
apply_ack deliver channel i now db = record db {
  notification_outbox = update_where (ack_guard i) (ack_set deliver i) db.notification_outbox;
}
apply_ack (retry_at next) channel i now db = record db {
  notification_outbox =
      update_where (ack_guard i) (ack_set (retry_at next) i) db.notification_outbox;
}
apply_ack bury channel i now db =
    let db' : Db = record db {
      notification_outbox = update_where (ack_guard i) (ack_set bury i) db.notification_outbox;
    } in
    if is_deal channel then enqueue_alert_intent db' (failure_intent i) now else db'

abbrev pub ack_answer : AckDecision → AckState
ack_answer (repeat s) = s
ack_answer deliver = delivered
ack_answer (retry_at next) = retry
ack_answer bury = dead

-- ackNotification.
unfoldable pub ack_notification : Db → AckInput → ℕ → Result (Db × AckState)
unfolding decide_ack apply_ack
ack_notification db i now = do
  row ←
      or_throw (find_row (λ r. r.notification_id) i.notification_id db.notification_outbox)
        "NOTIFICATION_NOT_FOUND"
  d ← decide_ack row i now
  ok (apply_ack d row.channel_class i now db, ack_answer d)

-- ===== src/Outbox/Notifications/Acks.antt =====
-- What ackNotification of src/outbox.ts answers and writes.
use fareradar.Prelude.{
  ◌+◌, get_or, opt_str_eq-eq, ℕ, zero, suc, ◌*◌, ◌≤◌, ◌<◌, ◌^◌, String, true, false, Option, none,
  some, ◌≡◌, refl, ◌≢◌, ◌⊎◌, inl, inr, arith, eq_iff, if◌then◌else◌, opt_str_eq, Option-cases,
  Bool-cases, ok, >>=-eq-ok, or_throw, or_throw-eq-ok, ap, ◌∙◌,
}
use mathlib.Core.Option
use Prim.Native.String.{◌++◌ as str_append}
use fareradar.Sql.{find_row}
use fareradar.Sql.Laws.{insert_or_ignore-new, find_row-update_where, find_row-key}
use fareradar.Sql.Claims.{Distinct, Distinct-update_where}
use fareradar.Db.{
  Db, AlertClass, deal, admin, Payload, AlertIntent, Notification, NotificationState, iso_after,
  retry_delay,
}
use fareradar.Outbox.{enqueue_alert_intent}
use fareradar.Outbox.Notifications.{
  AckInput, AckState, retry, dead, AckDecision, repeat, deliver, retry_at, bury, holds_lease,
  finished, is_sending, ack_write, decide_ack, ack_guard, ack_set, failure_intent, apply_ack,
  ack_answer, ack_notification, lease_notifications,
}
use fareradar.Outbox.Notifications.Leases.{id_of, lease_row_cases}

-- Of the retries that the code schedules (fewer than five attempts) the delay is 30 seconds, doubled
-- by each attempt after the first; the cap of an hour is never reached.
retry_delay_exact :
    (attempts : ℕ)
    → attempts < 5
    → (retry_delay attempts ≤ 240) × (0 < attempts → retry_delay attempts * 2 ≡ 30 * 2 ^ attempts)
unfolding retry_delay
retry_delay_exact zero h = omega arith
retry_delay_exact (suc zero) h = omega arith
retry_delay_exact (suc (suc zero)) h = omega arith
retry_delay_exact (suc (suc (suc zero))) h = omega arith
retry_delay_exact (suc (suc (suc (suc zero)))) h = omega arith
retry_delay_exact (suc (suc (suc (suc (suc a))))) h = absurd (omega arith)

-- The row that an acknowledgement reads, and the branch it takes.
pub ack_inversion :
    (db : Db) (i : AckInput) (now : ℕ) (db' : Db) (s : AckState)
    → ack_notification db i now ≡ ok (db', s)
    → (r : Notification) × (d : AckDecision) × (find_row id_of i.notification_id
          db.notification_outbox
        ≡ some r)
      × (decide_ack r i now ≡ ok d)
      × (db' ≡ apply_ack d r.channel_class i now db)
      × (s ≡ ack_answer d)
unfolding ack_notification
ack_inversion db i now db' s h =
    let (r, read, rest) =
      >>=-eq-ok (or_throw (find_row id_of i.notification_id db.notification_outbox) _) _ h in
    let (d, decided, last) = >>=-eq-ok (decide_ack r i now) _ rest in
    (r, d, or_throw-eq-ok _ _ read, decided, cc, cc)

-- The write of an acknowledgement, on the table of notifications.
pub table-apply_ack :
    (d : AckDecision) (c : AlertClass) (i : AckInput) (now : ℕ) (db : Db) (k : String)
    → find_row id_of k (apply_ack d c i now db).notification_outbox
      ≡ Option.map
          (λ r. if ack_guard i r then ack_set d i r else r)
          (find_row id_of k db.notification_outbox)
unfolding apply_ack enqueue_alert_intent
table-apply_ack (repeat s) c i now db k = unwritten (find_row id_of k db.notification_outbox)
  where
    unwritten : (o : Option Notification) → o ≡ Option.map (λ r. if ack_guard i r then r else r) o
    unwritten none = refl
    unwritten (some r) = ground arith
table-apply_ack deliver c i now db k =
    find_row-update_where id_of (ack_guard i) (ack_set deliver i) (λ r. refl) k _
table-apply_ack (retry_at next) c i now db k =
    find_row-update_where id_of (ack_guard i) (ack_set (retry_at next) i) (λ r. refl) k _
table-apply_ack bury admin i now db k =
    find_row-update_where id_of (ack_guard i) (ack_set bury i) (λ r. refl) k _
table-apply_ack bury deal i now db k =
    find_row-update_where id_of (ack_guard i) (ack_set bury i) (λ r. refl) k _

-- A branch that writes was taken on a row that the worker holds.
decide_ack_facts :
    (r : Notification) (i : AckInput) (now : ℕ) (d : AckDecision)
    → decide_ack r i now ≡ ok d
    → ((s : AckState) × (d ≡ repeat s)
        × (finished r.state ≡ some s)
        × (opt_str_eq r.claimed_by i.worker_id ≡ true))
      ⊎ ((holds_lease r i.worker_id now ≡ true) × (d ≡ ack_write r i now))
unfolding decide_ack
decide_ack_facts r i now d h = elim (Option-cases (finished r.state)) [
  | inl open_row ↦ inr (ground arith)
  | inr (s, done) ↦ elim (Bool-cases (opt_str_eq r.claimed_by i.worker_id)) [
    | inl own ↦ inl (s, ground arith, done, own)
    | inr other ↦ inr (ground arith)
  ]
]

leased_fields :
    (r : Notification) (worker : String) (now : ℕ)
    → holds_lease r worker now ≡ true
    → (r.state ≡ NotificationState.sending)
      × (r.claimed_by ≡ some worker)
      × ((until : ℕ) × (r.lease_until ≡ some until) × (now < until))
leased_fields r worker now h = elim (Option-cases r.lease_until) [
  | inl never ↦ absurd (ground (arith, h, never))
  | inr (until, e) ↦ (
    ground (arith, h),
    opt_str_eq-eq r.claimed_by worker (ground (arith, h)),
    (until, e, ground (arith, h, e)),
  )
]

-- An acknowledgement that is not refused came from the row's own worker. Either it repeats the end of a
-- notification which that worker had finished, and the tables stay as they are; or the notification
-- is SENDING, claimed by that worker, under a lease that ends later than now.
pub ack_lease_required :
    (db : Db) (i : AckInput) (now : ℕ) (db' : Db) (s : AckState)
    → ack_notification db i now ≡ ok (db', s)
    → (r : Notification) × (find_row id_of i.notification_id db.notification_outbox ≡ some r)
      × (r.claimed_by ≡ some i.worker_id)
      × (((finished r.state ≡ some s) × (db' ≡ db))
          ⊎ ((r.state ≡ NotificationState.sending)
              × ((until : ℕ) × (r.lease_until ≡ some until) × (now < until))))
unfolding apply_ack
ack_lease_required db i now db' s h =
    let (r, d, found, decided, written, answered) = ack_inversion db i now db' s h in
    elim (decide_ack_facts r i now d decided) [
      | inl (t, again, done, own) ↦ (
        r,
        found,
        opt_str_eq-eq r.claimed_by i.worker_id own,
        inl (ground (arith, answered, again, done), ground (arith, written, again)),
      )
      | inr (leased, _) ↦
          let (sending, own, runs) = leased_fields r i.worker_id now leased in
          (r, found, own, inr (sending, runs))
    ]

row_repeats :
    (r : Notification) (i j : AckInput) (now later : ℕ) (d : AckDecision)
    → r.notification_id ≡ i.notification_id
    → decide_ack r i now ≡ ok d
    → ack_answer d ≢ retry
    → j.worker_id ≡ i.worker_id
    → decide_ack (if ack_guard i r then ack_set d i r else r) j later ≡ ok (repeat (ack_answer d))
unfolding decide_ack ack_set
row_repeats r i j now later d same decided n w =
    ground
      (arith, eq_iff r.notification_id i.notification_id, ap (λ k. opt_str_eq r.claimed_by k) w)

-- An acknowledgement is safe to send again: once it has answered DELIVERED or DEAD, the same worker
-- gets the same answer for the same notification at any later time and with any outcome, and
-- nothing more is written.
pub ack_repeats :
    (db : Db) (i j : AckInput) (now later : ℕ) (db' : Db) (s : AckState)
    → ack_notification db i now ≡ ok (db', s)
    → s ≢ retry
    → j.notification_id ≡ i.notification_id
    → j.worker_id ≡ i.worker_id
    → ack_notification db' j later ≡ ok (db', s)
unfolding ack_notification apply_ack
ack_repeats db i j now later db' s h n same_id same_worker =
    let (r, d, found, decided, written, answered) = ack_inversion db i now db' s h in
    let same = find_row-key id_of i.notification_id db.notification_outbox r found in
    let after : find_row id_of j.notification_id db'.notification_outbox
        ≡ some (if ack_guard i r then ack_set d i r else r) =
      rw (same_id, written)
        (table-apply_ack d r.channel_class i now db i.notification_id ∙ ap (Option.map _) found) in
    rw (after, row_repeats r i j now later d same decided (λ e. n (answered ∙ e)) same_worker) (cc)

-- Between the SELECT and the UPDATE of an acknowledgement other requests may run. Whatever the
-- tables are by then, the write changes no row but the worker's own, still SENDING.
pub ack_write_guarded :
    (d : AckDecision) (c : AlertClass) (i : AckInput) (now : ℕ) (db : Db) (k : String)
    (r : Notification)
    → find_row id_of k db.notification_outbox ≡ some r
    → (k ≢ i.notification_id)
      ⊎ (is_sending r.state ≡ false)
      ⊎ (opt_str_eq r.claimed_by i.worker_id ≡ false)
    → find_row id_of k (apply_ack d c i now db).notification_outbox ≡ some r
ack_write_guarded d c i now db k r e h = ground (
  arith,
  table-apply_ack d c i now db k,
  find_row-key id_of k db.notification_outbox r e,
  eq_iff r.notification_id i.notification_id,
)

pub ack_found :
    (db : Db) (i : AckInput) (now : ℕ) (db' : Db) (s : AckState) (r : Notification)
    → ack_notification db i now ≡ ok (db', s)
    → find_row id_of i.notification_id db.notification_outbox ≡ some r
    → (d : AckDecision) × (decide_ack r i now ≡ ok d)
      × (db' ≡ apply_ack d r.channel_class i now db)
      × (s ≡ ack_answer d)
unfolding ack_notification
ack_found db i now db' s r h found =
    let (d, decided, last) = >>=-eq-ok (decide_ack r i now) _ (rw found at h) in
    (d, decided, cc, cc)

dead_row :
    (r : Notification) (i : AckInput) (now : ℕ) (d : AckDecision)
    → decide_ack r i now ≡ ok d
    → dead ≡ ack_answer d
    → r.state ≡ NotificationState.sending
    → d ≡ bury
unfolding decide_ack
dead_row r i now d decided answered sending = ground arith

waiting_row :
    (db : Db) (k : String) (i : AckInput) (next : ℕ) (r : Notification)
    → Distinct id_of db.notification_outbox
    → find_row id_of k db.notification_outbox ≡ some (ack_set (retry_at next) i r)
    → (t : ℕ) (worker : String) (limit seconds : ℕ) → t < next
    → find_row id_of k (lease_notifications db t worker limit seconds).0.notification_outbox
      ≡ find_row id_of k db.notification_outbox
unfolding ack_set
waiting_row db k i next r distinct found t worker limit seconds h = ground (
  arith,
  lease_row_cases db t worker limit seconds distinct k (ack_set (retry_at next) i r) found,
)

retry_decided :
    (r : Notification) (i : AckInput) (now : ℕ)
    → holds_lease r i.worker_id now ≡ true
    → i.succeeded ≡ false
    → i.retryable ≡ true
    → r.attempts < 5
    → decide_ack r i now ≡ ok (retry_at (iso_after now (retry_delay r.attempts)))
unfolding decide_ack
retry_decided r i now leased failed again few = ground (arith, leased, failed, again)

-- A retryable failure, reported by the worker whose lease runs, of a notification with fewer than five
-- attempts is answered with retry: the notification is PENDING again, claimed by nobody, and no lease
-- takes it before its delay has passed: 30 seconds, doubled for each attempt after the first.
pub retry_waits :
    (db : Db) (i : AckInput) (now : ℕ) (r : Notification)
    → Distinct id_of db.notification_outbox
    → find_row id_of i.notification_id db.notification_outbox ≡ some r
    → holds_lease r i.worker_id now ≡ true
    → i.succeeded ≡ false
    → i.retryable ≡ true
    → r.attempts < 5
    → (db' : Db) × (n : Notification) × (delay : ℕ) × (ack_notification db i now ≡ ok (db', retry))
      × (find_row id_of i.notification_id db'.notification_outbox ≡ some n)
      × (n.state ≡ NotificationState.pending)
      × (n.claimed_by ≡ none)
      × (0 < r.attempts → delay * 2 ≡ 30 * 2 ^ r.attempts)
      × ((t : ℕ) (worker : String) (limit seconds : ℕ)
          → t < now + delay * 1000
          → find_row id_of i.notification_id
              (lease_notifications db' t worker limit seconds).0.notification_outbox
            ≡ some n)
unfolding ack_notification ack_set
retry_waits db i now r distinct found leased failed again few =
    let next = iso_after now (retry_delay r.attempts) in
    let d : AckDecision = retry_at next in
    let db' : Db = apply_ack d r.channel_class i now db in
    let decided = retry_decided r i now leased failed again few in
    let same = find_row-key id_of i.notification_id db.notification_outbox r found in
    let after : find_row id_of i.notification_id db'.notification_outbox ≡ some (ack_set d i r) =
      ground (
        arith,
        table-apply_ack d r.channel_class i now db i.notification_id,
        leased,
        same,
        found,
        eq_iff r.notification_id i.notification_id,
      ) in
    let distinct' : Distinct id_of db'.notification_outbox =
      Distinct-update_where id_of (ack_guard i) (ack_set d i) (λ x. refl) db.notification_outbox
        distinct in
    (
      db',
      ack_set d i r,
      retry_delay r.attempts,
      rw (found, decided) refl,
      after,
      refl,
      refl,
      (retry_delay_exact r.attempts few).1,
      λ t worker limit seconds h.
          waiting_row db' i.notification_id i next r distinct' after t worker limit seconds h
          ∙ after,
    )

abbrev failure_row : AckInput → ℕ → AlertIntent
failure_row i now = record {
  intent_id = (failure_intent i).intent_id;
  itinerary_id = i.notification_id;
  alert_class = admin;
  payload_json = (failure_intent i).payload;
  projected_at = none;
  created_at = now;
}

-- A notification that dies while it is sent. A DEAL leaves a new ADMIN intent for the operator, not yet
-- projected, of the failed notification and its error, unless an intent of that id is stored already;
-- an ADMIN notification leaves the intents alone, so that a failing alarm raises no further alarm.
pub dead_raises_alarm :
    (db : Db) (i : AckInput) (now : ℕ) (db' : Db) (r : Notification)
    → ack_notification db i now ≡ ok (db', dead)
    → find_row id_of i.notification_id db.notification_outbox ≡ some r
    → r.state ≡ NotificationState.sending
    → (r.channel_class ≡ deal
        → find_row
            (λ a. a.intent_id)
            (str_append "admin-delivery-" i.notification_id)
            db.candidate_alert_intents
          ≡ none
        → (x : AlertIntent) × (find_row
              (λ a. a.intent_id)
              (str_append "admin-delivery-" i.notification_id)
              db'.candidate_alert_intents
            ≡ some x)
          × (x.alert_class ≡ admin)
          × (x.projected_at ≡ none)
          × (x.payload_json
              ≡ Payload.notification_delivery_failed i.notification_id (get_or i.error "TERMINAL")))
      × (r.channel_class ≡ admin → db'.candidate_alert_intents ≡ db.candidate_alert_intents)
unfolding decide_ack apply_ack enqueue_alert_intent
dead_raises_alarm db i now db' r h found sending =
    let (d, decided, written, answered) = ack_found db i now db' dead r h found in
    let fatal = dead_row r i now d decided answered sending in
    (
      λ class_is fresh. (
        failure_row i now,
        ground (
          arith,
          written,
          fatal,
          class_is,
          insert_or_ignore-new (λ a. a.intent_id) (failure_row i now) db.candidate_alert_intents
              fresh,
        ),
        refl,
        refl,
        refl,
      ),
      λ class_is. ground (arith, written, fatal, class_is),
    )

-- ===== src/Outbox/Traces.antt =====
-- Runs of src/outbox.ts: any sequence of projections, leases and acknowledgements, by any workers,
-- at any times.
use fareradar.Prelude.{
  ℕ, String, true, some, List, [], ◌∷◌, ◌≡◌, refl, arith, ok, All, All-In, ◌⊎◌, map, sym, inl, inr,
  if◌then◌else◌, In, subst,
}
use fareradar.Sql.{update_where, find_row}
use fareradar.Sql.Laws.{All-update_where, All-insert_or_ignore, find_row-kept}
use fareradar.Sql.Claims.{
  Distinct, Distinct-claim, All-claim, Distinct-insert_or_ignore, Distinct-update_where,
}
use fareradar.Db.{
  Db, AlertClass, deal, admin, AlertIntent, Notification, NotificationState, iso_after,
}
use fareradar.Outbox.{
  IntentInput, enqueue_alert_intent, DeploymentMode, shadow_acceptance, projected_row, insert_all,
  project_rows, project_alert_intents, unprojected,
}
use fareradar.Outbox.Notifications.{
  AckInput, AckState, AckDecision, repeat, deliver, retry_at, bury, finished, is_pending, lapsed,
  leasable, lease_row, reclaim_row, reclaim, lease_statement, lease_notifications, ack_guard,
  ack_set, apply_ack, ack_notification,
}
use fareradar.Outbox.Notifications.Leases.{
  id_of, reclaimed, leased_rows, Distinct-reclaim, lease_row_cases,
}
use fareradar.Outbox.Notifications.Acks.{ack_inversion, ack_write_guarded}

-- One request of the worker, under the deployment mode it runs in.
pub data Step (mode : DeploymentMode) (db : Db) : Db → Type 0 where
  enqueues : (i : IntentInput) (now : ℕ) → Step mode db (enqueue_alert_intent db i now)
  projects : (now limit : ℕ) → Step mode db (project_alert_intents db now limit mode).0
  leases :
      (now : ℕ) (worker : String) (limit seconds : ℕ)
      → Step mode db (lease_notifications db now worker limit seconds).0
  acks :
      (i : AckInput) (now : ℕ) (s : AckState) {db' : Db}
      → ack_notification db i now ≡ ok (db', s)
      → Step mode db db'

pub data Reach (mode : DeploymentMode) (db : Db) : Db → Type 0 where
  here : Reach mode db db
  next : {db' db'' : Db} → Reach mode db db' → Step mode db' db'' → Reach mode db db''

-- A DEAL notification that is held back.
abbrev pub IsHeld : Notification → Type 0
IsHeld r = r.channel_class ≡ deal → r.state ≡ NotificationState.shadow_held

abbrev pub HoldsDeals : Db → Type 0
HoldsDeals db = All IsHeld db.notification_outbox

same_id : (a : AckDecision) (i : AckInput) (r : Notification) → id_of (ack_set a i r) ≡ id_of r
unfolding ack_set
same_id (repeat s) i r = refl
same_id _ i r = refl

projected_row-IsHeld : (now : ℕ) (i : AlertIntent) → IsHeld (projected_row shadow_acceptance now i)
unfolding projected_row
projected_row-IsHeld now i = ground arith

ack_set-IsHeld :
    (a : AckDecision) (i : AckInput) (r : Notification)
    → IsHeld r
    → IsHeld (if ack_guard i r then ack_set a i r else r)
unfolding ack_set
ack_set-IsHeld a i r h = ground arith

reclaim_row-IsHeld : (now : ℕ) (r : Notification) → IsHeld r → IsHeld (reclaimed now r)
unfolding reclaim_row
reclaim_row-IsHeld now r h = ground arith

lease_row-IsHeld :
    (worker : String) (until : ℕ) (r : Notification)
    → IsHeld r
    → is_pending r.state ≡ true
    → IsHeld (lease_row worker until r)
unfolding lease_row
lease_row-IsHeld worker until r h p = ground arith

-- The invariants of one table through the projection's INSERT.
insert_all-All :
    (P : Notification → Type 0) (mode : DeploymentMode) (now : ℕ) (is : List AlertIntent)
    (t : List Notification)
    → ((i : AlertIntent) → P (projected_row mode now i))
    → All P t
    → All P (insert_all (map (projected_row mode now) is) t)
unfolding insert_all
insert_all-All P mode now [] t h a = a
insert_all-All P mode now (i ∷ is) t h a =
    insert_all-All P mode now is _ h
      (All-insert_or_ignore id_of P (projected_row mode now i) t (h i) a)

insert_all-Distinct :
    (rs t : List Notification) → Distinct id_of t → Distinct id_of (insert_all rs t)
unfolding insert_all
insert_all-Distinct [] t d = d
insert_all-Distinct (r ∷ rs) t d = insert_all-Distinct rs _ (Distinct-insert_or_ignore id_of r t d)

insert_all-kept :
    (k : String) (s : Notification) (rs t : List Notification)
    → find_row id_of k t ≡ some s
    → find_row id_of k (insert_all rs t) ≡ some s
unfolding insert_all
insert_all-kept k s [] t e = e
insert_all-kept k s (r ∷ rs) t e = insert_all-kept k s rs _ (find_row-kept id_of k r s t e)

project_rows_cases :
    (P : List Notification → Type 0) (db : Db) (now : ℕ) (mode : DeploymentMode)
    (is : List AlertIntent)
    → P db.notification_outbox
    → P (insert_all (map (projected_row mode now) is) db.notification_outbox)
    → P (project_rows db now mode is).0.notification_outbox
unfolding project_rows
project_rows_cases P db now mode [] h k = h
project_rows_cases P db now mode (i ∷ is) h k = k

-- A property of the table that the projection's INSERT keeps holds after a projection.
project_cases :
    (P : List Notification → Type 0) (db : Db) (now limit : ℕ) (mode : DeploymentMode)
    → P db.notification_outbox
    → ((is : List AlertIntent)
        → P (insert_all (map (projected_row mode now) is) db.notification_outbox))
    → P (project_alert_intents db now limit mode).0.notification_outbox
unfolding project_alert_intents
project_cases P db now limit mode h k =
    let is = unprojected limit db.candidate_alert_intents in
    project_rows_cases P db now mode is h (k is)

-- A property of the table that each guarded UPDATE keeps holds after an acknowledgement.
ack_cases :
    (P : List Notification → Type 0) (db : Db) (i : AckInput) (now : ℕ) (db' : Db) (s : AckState)
    → ack_notification db i now ≡ ok (db', s)
    → P db.notification_outbox
    → ((d : AckDecision) → P (update_where (ack_guard i) (ack_set d i) db.notification_outbox))
    → P db'.notification_outbox
unfolding apply_ack enqueue_alert_intent
ack_cases P db i now db' s h kept written =
    let (r, d, found, decided, e, answered) = ack_inversion db i now db' s h in
    subst (λ x. P x.notification_outbox) (sym e) (apply_cases d r.channel_class)
  where
    apply_cases :
        (d : AckDecision) (c : AlertClass) → P (apply_ack d c i now db).notification_outbox
    apply_cases (repeat a) c = kept
    apply_cases deliver c = written deliver
    apply_cases (retry_at t) c = written (retry_at t)
    apply_cases bury admin = written bury
    apply_cases bury deal = written bury

Step-Distinct :
    {mode : DeploymentMode} {db db' : Db}
    → Step mode db db'
    → Distinct id_of db.notification_outbox
    → Distinct id_of db'.notification_outbox
unfolding enqueue_alert_intent lease_notifications lease_statement ack_set
Step-Distinct (enqueues i now) d = d
Step-Distinct {mode} {db} (projects now limit) d =
    project_cases (Distinct id_of) db now limit mode d (λ is. insert_all-Distinct _ _ d)
Step-Distinct {mode} {db} (leases now worker limit seconds) d =
    Distinct-claim id_of (leasable now) _ limit _ (lease_row worker (iso_after now seconds))
      (λ r. refl) _ (Distinct-reclaim now db.notification_outbox d)
Step-Distinct {mode} {db} (acks i now s {db'} e) d =
    ack_cases (Distinct id_of) db i now db' s e d λ a.
      Distinct-update_where id_of (ack_guard i) (ack_set a i) (same_id a i) db.notification_outbox d

Step-HoldsDeals : {db db' : Db} → Step shadow_acceptance db db' → HoldsDeals db → HoldsDeals db'
unfolding enqueue_alert_intent lease_notifications lease_statement reclaim
Step-HoldsDeals (enqueues i now) h = h
Step-HoldsDeals {db} (projects now limit) h =
    project_cases (All IsHeld) db now limit shadow_acceptance h
      λ is. insert_all-All IsHeld shadow_acceptance now is _ (projected_row-IsHeld now) h
Step-HoldsDeals {db} (leases now worker limit seconds) h =
    All-claim id_of (leasable now) _ limit _ (lease_row worker (iso_after now seconds)) IsHeld _
      (lease_row-IsHeld worker (iso_after now seconds))
      (All-update_where IsHeld IsHeld _ reclaim_row db.notification_outbox (reclaim_row-IsHeld now)
        h)
Step-HoldsDeals {db} (acks i now s {db'} e) h = ack_cases (All IsHeld) db i now db' s e h λ a.
    All-update_where IsHeld IsHeld (ack_guard i) (ack_set a i) db.notification_outbox
      (ack_set-IsHeld a i) h

-- A step keeps the row of a notification that is delivered or dead.
Step-finished :
    {mode : DeploymentMode} {db db' : Db} (k : String) (r : Notification) (s : AckState)
    → Step mode db db'
    → Distinct id_of db.notification_outbox
    → find_row id_of k db.notification_outbox ≡ some r
    → finished r.state ≡ some s
    → find_row id_of k db'.notification_outbox ≡ some r
unfolding enqueue_alert_intent
Step-finished k r s (enqueues i now) d e f = e
Step-finished {mode} {db} k r s (projects now limit) d e f =
    project_cases (λ t. find_row id_of k t ≡ some r) db now limit mode e
      (λ is. insert_all-kept k r _ _ e)
Step-finished {mode} {db} k r s (leases now worker limit seconds) d e f =
    ground (arith, lease_row_cases db now worker limit seconds d k r e)
Step-finished {mode} {db} k r s (acks i now a {db'} h) d e f =
    let (q, b, found, decided, written, answered) = ack_inversion db i now db' a h in
    rw written (ack_write_guarded b q.channel_class i now db k r e (inr (inl (ground arith))))

Reach-Distinct :
    {mode : DeploymentMode} {db db' : Db}
    → Reach mode db db'
    → Distinct id_of db.notification_outbox
    → Distinct id_of db'.notification_outbox
Reach-Distinct here d = d
Reach-Distinct (next r st) d = Step-Distinct st (Reach-Distinct r d)

Reach-HoldsDeals : {db db' : Db} → Reach shadow_acceptance db db' → HoldsDeals db → HoldsDeals db'
Reach-HoldsDeals here h = h
Reach-HoldsDeals (next r st) h = Step-HoldsDeals st (Reach-HoldsDeals r h)

-- Once a notification is DELIVERED or DEAD, no sequence of enqueues, projections, leases and
-- acknowledgements, by any workers and at any times, changes its row again: it is never sent twice.
pub finished_final :
    {mode : DeploymentMode} {db db' : Db} (k : String) (r : Notification) (s : AckState)
    → Reach mode db db'
    → Distinct id_of db.notification_outbox
    → find_row id_of k db.notification_outbox ≡ some r
    → finished r.state ≡ some s
    → find_row id_of k db'.notification_outbox ≡ some r
finished_final k r s here d e f = e
finished_final k r s (next h st) d e f =
    Step-finished k r s st (Reach-Distinct h d) (finished_final k r s h d e f) f

held_returned :
    (r s : Notification) (worker : String) (until now : ℕ)
    → IsHeld r
    → s ≡ lease_row worker until (reclaimed now r)
    → (r.state ≡ NotificationState.pending)
      ⊎ ((r.state ≡ NotificationState.sending) × (lapsed r.lease_until now ≡ true))
    → s.channel_class ≡ admin
unfolding lease_row reclaim_row
held_returned r s worker until now h e p = ground arith

-- In shadow acceptance no DEAL notification is handed to a worker: from tables that hold their DEAL
-- notifications back (the empty outbox does), whatever requests have run, every row that a lease
-- returns is an ADMIN notification.
pub shadow_leases_admin :
    {db db' : Db} (now : ℕ) (worker : String) (limit seconds : ℕ) (s : Notification)
    → Reach shadow_acceptance db db'
    → HoldsDeals db
    → Distinct id_of db.notification_outbox
    → In s (lease_notifications db' now worker limit seconds).1
    → s.channel_class ≡ admin
shadow_leases_admin {db} {db'} now worker limit seconds s r h d i =
    let (q, j, same, e, due_q, state_q) =
      leased_rows db' now worker limit seconds (Reach-Distinct r d) s i in
    held_returned q s worker (iso_after now seconds) now
      (All-In IsHeld _ q (Reach-HoldsDeals r h) j) e state_q

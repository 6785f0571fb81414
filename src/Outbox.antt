-- ===== src/Outbox.antt =====
-- src/outbox.ts: alert intents, their projection into the notification outbox, and the lease and
-- acknowledgement protocol of notifications and domain events. A function that runs statements
-- takes the tables and returns the new ones; a throw is `err`, and leaves the tables as they were.
pub mod Silenced
pub mod Notifications
pub mod Traces
pub mod Domain
use fareradar.Prelude.{
  ℕ, String, Bool, true, false, Option, none, some, List, [], ◌∷◌, ◌++◌, map, ◌&&◌, ◌||◌, not, leb,
  ltb, ◌+◌, str_eq, opt_str_eq, is_some, get_or, if◌then◌else◌, filter, take, length, Result, ok,
  err,
}
use Prim.Native.String.{◌++◌ as str_append}
use fareradar.Sql.{update_where, order_by, find_row, insert_or_ignore, mem, claim}
use fareradar.Db.{
  Db, AlertClass, deal, admin, Payload, AlertIntent, Notification, NotificationState, DomainEvent,
  DomainState, iso_after, retry_delay,
}

-- enqueueAlertIntent: INSERT … ON CONFLICT(intent_id) DO NOTHING.
pub record IntentInput : Type 0 where
  pub intent_id : String
  pub itinerary_id : String
  pub alert_class : AlertClass
  pub payload : Payload

unfoldable pub enqueue_alert_intent : Db → IntentInput → ℕ → Db
enqueue_alert_intent db i now = record db {
  candidate_alert_intents =
      insert_or_ignore (λ r. r.intent_id)
        (record {
          intent_id = i.intent_id;
          itinerary_id = i.itinerary_id;
          alert_class = i.alert_class;
          payload_json = i.payload;
          projected_at = none;
          created_at = now;
        })
        db.candidate_alert_intents;
}

pub data DeploymentMode : Type 0 where
  shadow_acceptance production : DeploymentMode

unfoldable pub normalize_deployment_mode : Option String → DeploymentMode
normalize_deployment_mode raw =
    if opt_str_eq raw "PRODUCTION" then production else shadow_acceptance

abbrev pub is_admin : AlertClass → Bool
is_admin admin = true
is_admin deal = false

abbrev pub is_production : DeploymentMode → Bool
is_production production = true
is_production shadow_acceptance = false

abbrev pub is_null : Option ℕ → Bool
is_null none = true
is_null (some t) = false

-- The row that the projection inserts for an intent.
unfoldable pub projected_row : DeploymentMode → ℕ → AlertIntent → Notification
projected_row mode now i = record {
  notification_id = i.intent_id;
  channel_class = i.alert_class;
  payload_json = i.payload_json;
  state =
      if is_admin i.alert_class || is_production mode
      then NotificationState.pending
      else NotificationState.shadow_held;
  attempts = 0;
  next_attempt_at = none;
  lease_until = none;
  claimed_by = none;
  last_error = none;
  created_at = now;
}

-- INSERT … VALUES (…),(…) ON CONFLICT(notification_id) DO NOTHING, row by row.
unfoldable pub insert_all : List Notification → List Notification → List Notification
insert_all [] t = t
insert_all (r ∷ rs) t = insert_all rs (insert_or_ignore (λ n. n.notification_id) r t)

-- projectAlertIntents. With no intent to project the statements that follow are not sent.
abbrev pub unprojected : ℕ → List AlertIntent → List AlertIntent
unprojected limit t =
    take limit
      (order_by (λ a b. leb a.created_at b.created_at) (filter (λ r. is_null r.projected_at) t))

-- What is sent for the selected rows.
unfoldable pub project_rows : Db → ℕ → DeploymentMode → List AlertIntent → Db × ℕ
unfolding projected_row insert_all
project_rows db now mode [] = (db, 0)
project_rows db now mode (r ∷ rs) =
    let ids = map (λ i. i.intent_id) (r ∷ rs) in
    (
      record db {
        notification_outbox =
            insert_all (map (projected_row mode now) (r ∷ rs)) db.notification_outbox;
        candidate_alert_intents =
            update_where (λ i. is_null i.projected_at && mem i.intent_id ids)
              (λ i. record i { projected_at = some now }) db.candidate_alert_intents;
      },
      length (r ∷ rs),
    )

unfoldable pub project_alert_intents : Db → ℕ → ℕ → DeploymentMode → Db × ℕ
unfolding project_rows
project_alert_intents db now limit mode =
    project_rows db now mode (unprojected limit db.candidate_alert_intents)

-- ===== src/Tests/Outbox.antt =====
-- The theorems of the outbox at concrete tables.
use fareradar.Prelude.{
  ℕ, String, ◌+◌, ◌*◌, ◌^◌, ◌<◌, ◌⊎◌, true, false, none, some, ◌≡◌, refl, inl, arith, ok,
}
use fareradar.Sql.{find_row}
use fareradar.Db.{
  AlertIntent, Payload, Db, deal, admin, Notification, NotificationState, DomainEvent, DomainState,
}
use fareradar.Outbox.{
  shadow_acceptance, production, IntentInput, enqueue_alert_intent, project_alert_intents,
}
use fareradar.Outbox.Notifications.{
  finished, retry, AckInput, delivered, lease_notifications, ack_notification, failure_intent,
}
use fareradar.Outbox.Notifications.Leases.{id_of, lease_exclusive}
use fareradar.Outbox.Notifications.Acks.{
  ack_lease_required, ack_repeats, retry_waits, dead_raises_alarm,
}
use fareradar.Outbox.Traces.{
  Reach, here, next, projects, enqueues, leases, finished_final, shadow_leases_admin,
}
use fareradar.Outbox.Domain.{DomainAck}
use fareradar.Tests.{notification, empty_db, with_notification, sending, event}

abbrev ack : AckInput
ack = record {
  notification_id = "n1";
  worker_id = "w1";
  succeeded = false;
  retryable = true;
  error = none;
}

abbrev success : AckInput
success = record ack { succeeded = true }

abbrev sent : Notification
sent = notification deal NotificationState.delivered 1 (some "w1") none

-- A lease, after the notification was delivered.
abbrev leased_again :
    Reach production
      (with_notification sent)
      (lease_notifications (with_notification sent) 10 "w2" 5 60).0
leased_again = next here (leases 10 "w2" 5 60)

finished_final_example :
    find_row id_of "n1"
      (lease_notifications (with_notification sent) 10 "w2" 5 60).0.notification_outbox
    ≡ some sent
finished_final_example = finished_final "n1" sent delivered leased_again (refl, tt) refl refl

-- An ADMIN intent, projected in shadow acceptance.
abbrev admin_intent : IntentInput
admin_intent = record {
  intent_id = "n1";
  itinerary_id = "it1";
  alert_class = admin;
  payload = (failure_intent ack).payload;
}

abbrev projected : Db
projected =
    (project_alert_intents (enqueue_alert_intent empty_db admin_intent 0) 1 10 shadow_acceptance).0

abbrev projected_run : Reach shadow_acceptance empty_db projected
projected_run = next (next here (enqueues admin_intent 0)) (projects 1 10)

abbrev alarm_row : Notification
alarm_row = record (notification admin NotificationState.sending 1 (some "w1") (some 60010)) {
  payload_json = (failure_intent ack).payload;
  created_at = 1;
}

shadow_leases_admin_example : alarm_row.channel_class ≡ admin
unfolding lease_notifications fareradar.Sql.claim fareradar.Sql.update_where project_alert_intents
    fareradar.Sql.order_by enqueue_alert_intent
shadow_leases_admin_example =
    shadow_leases_admin 10 "w1" 5 60 alarm_row projected_run tt tt (inl refl)

lease_exclusive_example :
    find_row id_of "n1"
      (lease_notifications (with_notification (sending 2)) 10 "w2" 5 60).0.notification_outbox
    ≡ some (sending 2)
lease_exclusive_example =
    lease_exclusive (with_notification (sending 2)) 10 "w2" 5 60 (refl, tt) "n1" (sending 2) 9000
      refl refl refl (omega arith)

abbrev taken_over : Notification
taken_over = notification deal NotificationState.sending 3 (some "w2") (some 69500)

abbrev done_row : Notification
done_row = notification deal NotificationState.delivered 2 (some "w1") none

ack_lease_required_example :
    (r : Notification) × (find_row id_of "n1" (with_notification (sending 2)).notification_outbox
      ≡ some r)
    × (r.claimed_by ≡ some "w1")
    × (((finished r.state ≡ some delivered)
          × (with_notification done_row ≡ with_notification (sending 2)))
        ⊎ ((r.state ≡ NotificationState.sending)
            × ((until : ℕ) × (r.lease_until ≡ some until) × (20 < until))))
unfolding ack_notification fareradar.Sql.update_where
ack_lease_required_example =
    ack_lease_required (with_notification (sending 2)) success 20 (with_notification done_row)
      delivered refl

ack_repeats_example :
    ack_notification (with_notification done_row) ack 99999
    ≡ ok (with_notification done_row, delivered)
unfolding ack_notification fareradar.Sql.update_where
ack_repeats_example =
    ack_repeats (with_notification (sending 2)) success ack 20 99999 (with_notification done_row)
      delivered refl (λ e. cc) refl refl

abbrev waiting : Notification
waiting = record (notification deal NotificationState.pending 2 none none) {
  next_attempt_at = some 60020;
  last_error = some "RETRYABLE";
}

retry_waits_example :
    (db' : Db) × (n : Notification) × (delay : ℕ) × (ack_notification
        (with_notification (sending 2))
        ack
        20
      ≡ ok (db', retry))
    × (find_row id_of "n1" db'.notification_outbox ≡ some n)
    × (n.state ≡ NotificationState.pending)
    × (n.claimed_by ≡ none)
    × (0 < 2 → delay * 2 ≡ 30 * 2 ^ 2)
    × ((t : ℕ) (worker : String) (limit seconds : ℕ)
        → t < 20 + delay * 1000
        → find_row id_of "n1" (lease_notifications db' t worker limit seconds).0.notification_outbox
          ≡ some n)
retry_waits_example =
    retry_waits (with_notification (sending 2)) ack 20 (sending 2) (refl, tt) refl refl refl refl
      (omega arith)

abbrev after_death : Db
after_death =
    enqueue_alert_intent
      (with_notification (record (sending 5) {
        state = NotificationState.dead;
        lease_until = none;
        last_error = some "TERMINAL";
      }))
      (failure_intent ack) 20

dead_raises_alarm_example :
    (x : AlertIntent) × (find_row
        (λ a. a.intent_id)
        "admin-delivery-n1"
        after_death.candidate_alert_intents
      ≡ some x)
    × (x.alert_class ≡ admin)
    × (x.projected_at ≡ none)
    × (x.payload_json ≡ Payload.notification_delivery_failed "n1" "TERMINAL")
unfolding ack_notification fareradar.Sql.update_where
dead_raises_alarm_example =
    (dead_raises_alarm (with_notification (sending 5)) ack 20 after_death (sending 5) refl refl
        refl).0
      refl refl

abbrev domain_ack : DomainAck
domain_ack = record { id = "1"; worker_id = "w1"; succeeded = true; error = none }

abbrev finished_event : DomainEvent
finished_event = record (event 1) {
  state = DomainState.done;
  lease_until = none;
  last_error = none;
}

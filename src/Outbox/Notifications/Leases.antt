-- ===== src/Outbox/Notifications/Leases.antt =====
-- What leaseNotifications of src/outbox.ts does to each row, and whom it gives a lease.
use fareradar.Prelude.{
  ℕ, ◌≤◌, ◌<◌, String, true, some, List, ◌≡◌, refl, ◌⊎◌, inl, inr, ◌&&◌, arith, if◌then◌else◌,
  length, In, subst, ap, ◌∙◌,
}
use mathlib.Core.Option
use fareradar.Sql.{find_row}
use fareradar.Sql.Laws.{find_row-update_where, In-update_where}
use fareradar.Sql.Claims.{Distinct, Distinct-update_where, length-claim, find_row-claim, In-claim}
use fareradar.Db.{Db, Notification, NotificationState, iso_after}
use fareradar.Outbox.Notifications.{
  is_sending, lapsed, due, leasable, reclaim_row, reclaim, lease_row, lease_statement,
  lease_notifications,
}

abbrev pub id_of : Notification → String
id_of r = r.notification_id

-- What the first statement makes of a row.
abbrev pub reclaimed : ℕ → Notification → Notification
reclaimed now r = if is_sending r.state && lapsed r.lease_until now then reclaim_row r else r

pub find_row-reclaim :
    (now : ℕ) (k : String) (t : List Notification)
    → find_row id_of k (reclaim now t) ≡ Option.map (reclaimed now) (find_row id_of k t)
unfolding reclaim
find_row-reclaim now k t = find_row-update_where id_of _ reclaim_row (λ r. refl) k t

pub Distinct-reclaim :
    (now : ℕ) (t : List Notification) → Distinct id_of t → Distinct id_of (reclaim now t)
unfolding reclaim
Distinct-reclaim now t d = Distinct-update_where id_of _ reclaim_row (λ r. refl) t d

-- A lease gives out at most `limit` notifications.
lease_limit :
    (db : Db) (now : ℕ) (worker : String) (limit seconds : ℕ)
    → Distinct id_of db.notification_outbox
    → length (lease_notifications db now worker limit seconds).1 ≤ limit
unfolding lease_notifications
lease_limit db now worker limit seconds d =
    length-claim id_of (leasable now) _ limit _ (lease_row worker (iso_after now seconds)) _
      (Distinct-reclaim now _ d)

row_facts :
    (now : ℕ) (r : Notification)
    → leasable now (reclaimed now r) ≡ true
    → (id_of (reclaimed now r) ≡ id_of r)
      × (due r.next_attempt_at now ≡ true)
      × ((r.state ≡ NotificationState.pending)
          ⊎ ((r.state ≡ NotificationState.sending) × (lapsed r.lease_until now ≡ true)))
unfolding reclaim_row
row_facts now r p = ground arith

module _ (db : Db) (now : ℕ) (worker : String) (limit seconds : ℕ)
    (d : Distinct id_of db.notification_outbox) where
  abbrev table_after : List Notification
  table_after = (lease_notifications db now worker limit seconds).0.notification_outbox

  -- Every row is given back if its lease has lapsed, and then kept, or leased if it is due.
  pub lease_row_cases :
      (k : String) (r : Notification)
      → find_row id_of k db.notification_outbox ≡ some r
      → (find_row id_of k table_after ≡ some (reclaimed now r))
        ⊎ ((find_row id_of k table_after
              ≡ some (lease_row worker (iso_after now seconds) (reclaimed now r)))
            × (leasable now (reclaimed now r) ≡ true))
  unfolding lease_notifications
  lease_row_cases k r e =
      let found : find_row id_of k (reclaim now db.notification_outbox) ≡ some (reclaimed now r) =
        ground (arith, find_row-reclaim now k db.notification_outbox) in
      elim (find_row-claim id_of (leasable now) _ limit _ (lease_row worker (iso_after now seconds))
        (λ s. refl) _ k (reclaimed now r) (Distinct-reclaim now _ d) found) [
          | inl kept ↦ inl kept
          | inr (hit, p, _) ↦ inr (hit, p)
        ]

  -- While a lease runs, no other call of leaseNotifications touches the row.
  pub lease_exclusive :
      (k : String) (r : Notification) (until : ℕ)
      → find_row id_of k db.notification_outbox ≡ some r
      → r.state ≡ NotificationState.sending
      → r.lease_until ≡ some until
      → now < until
      → find_row id_of k table_after ≡ some r
  lease_exclusive k r until e s l h = ground (arith, lease_row_cases k r e)

  -- A returned row was due: pending, or sending under a lease that had lapsed, and past the time
  -- of its next attempt. It is the old row with the caller's lease and one more attempt.
  pub leased_rows :
      (s : Notification)
      → In s (lease_notifications db now worker limit seconds).1
      → (r : Notification) × In r db.notification_outbox
        × (id_of s ≡ id_of r)
        × (s ≡ lease_row worker (iso_after now seconds) (reclaimed now r))
        × (due r.next_attempt_at now ≡ true)
        × ((r.state ≡ NotificationState.pending)
            ⊎ ((r.state ≡ NotificationState.sending) × (lapsed r.lease_until now ≡ true)))
  unfolding lease_notifications reclaim lease_statement
  leased_rows s i =
      let (q, j, e, p, _) =
        In-claim id_of (leasable now) _ limit _ (lease_row worker (iso_after now seconds)) _ s
          (Distinct-reclaim now _ d) i in
      let (r, here, e') = In-update_where _ reclaim_row db.notification_outbox q j in
      let facts = row_facts now r (subst (λ x. leasable now x ≡ true) e' p) in
      let lease = lease_row worker (iso_after now seconds) in
      (r, here, ap id_of (e ∙ ap lease e') ∙ facts.0, e ∙ ap lease e', facts.1, facts.2)

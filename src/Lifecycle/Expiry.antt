-- ===== src/Lifecycle/Expiry.antt =====
-- src/offer_lifecycle.ts, expireLiveProviderOffers: one turn of the periodic tick resumes an event that
-- was left pending, or handles one live offer that has run out under a CONFIRMED result.
use fareradar.Prelude.{
  ℕ, String, Bool, true, false, Option, none, some, List, [], ◌∷◌, ◌++◌, ◌&&◌, ◌||◌, not, leb, ltb,
  ◌==◌, str_eq, truthy, is_some, any, filter, first, map, if◌then◌else◌, Result, ok,
}
use Prim.Native.String.{◌++◌ as str_append}
use fareradar.Sql.{update_where, order_by, find_row, mem}
use fareradar.Db.{Db, AlertClass, Notification, NotificationState}
use fareradar.Runtime.{Runtime, Moment}
use fareradar.Outbox.{is_admin, is_null}
use fareradar.Verification.{probable}
use fareradar.Jobs.Budget.{}
use fareradar.Offers.{
  OfferSnapshot, VerificationResult, SupportRole, primary, support, Support, Offers,
  downgrade_itinerary, set_stale,
}
use fareradar.Offers.Recompute.{is_confirmed}
use fareradar.Lifecycle.{LifecycleEvent, Life, reprice_pending, correction_pending, Finished}

-- A result with one of its supporting offers: a row of the SELECT of what is due.
pub record Due : Type 0 where
  pub result : VerificationResult
  pub offer : OfferSnapshot

abbrev pub is_pending : LifecycleEvent → Bool
is_pending e = correction_pending e.correction_state || reprice_pending e.reprice_state

-- The offers that support a result, with the rows of the supports.
unfoldable pub support_rows :
    List OfferSnapshot → String → List Support → List (Support × OfferSnapshot)
support_rows offers result [] = []
support_rows offers result (s ∷ ss) =
    let rest = support_rows offers result ss in
    if str_eq s.result_id result
    then elim (find_row (λ o. o.provider_offer_id) s.provider_offer_id offers) [
      | none ↦ rest
      | some o ↦ (s, o) ∷ rest
    ]
    else rest

abbrev pub due_of : VerificationResult → List (Support × OfferSnapshot) → List Due
due_of v [] = []
due_of v ((s, o) ∷ rows) = record { result = v; offer = o } ∷ due_of v rows

unfoldable pub joined : Offers → List VerificationResult → List Due
unfolding support_rows
joined t [] = []
joined t (v ∷ vs) =
    due_of v (support_rows t.offer_snapshots v.result_id t.candidate_verification_supports)
    ++ joined t vs

abbrev is_primary : SupportRole → Bool
is_primary primary = true
is_primary support = false

abbrev pub handled : List LifecycleEvent → String → String → Bool
handled events result offer =
    any (λ e. str_eq e.result_id result && str_eq e.provider_offer_id offer) events

-- A deal's notification that a user may have seen, and one that was not sent.
abbrev pub was_visible : NotificationState → Bool
was_visible NotificationState.delivered = true
was_visible NotificationState.sending = true
was_visible _ = false

abbrev pub is_unsent : NotificationState → Bool
is_unsent NotificationState.pending = true
is_unsent NotificationState.shadow_held = true
is_unsent _ = false

abbrev pub is_deal : AlertClass → Bool
is_deal class = not (is_admin class)

-- SELECT intent_id FROM candidate_alert_intents WHERE itinerary_id=? AND alert_class='DEAL'.
unfoldable pub deal_intents : Db → String → List String
deal_intents db itinerary =
    map (λ i. i.intent_id)
      (filter (λ i. str_eq i.itinerary_id itinerary && is_deal i.alert_class)
        db.candidate_alert_intents)

unfoldable pub cancel : String → Notification → Notification
cancel reason n = record n {
  state = NotificationState.cancelled;
  lease_until = none;
  last_error = some reason;
}

-- The last two statements of the batch.
unfoldable pub withdraw_deals : String → ℕ → Db → Db
unfolding cancel deal_intents
withdraw_deals itinerary now db = record db {
  candidate_alert_intents =
      update_where
        (λ i. str_eq i.itinerary_id itinerary && is_deal i.alert_class && is_null i.projected_at)
        (λ i. record i { projected_at = some now }) db.candidate_alert_intents;
  notification_outbox =
      update_where (λ n. mem n.notification_id (deal_intents db itinerary) && is_unsent n.state)
        (cancel "LIVE_OFFER_EXPIRED") db.notification_outbox;
}

unfoldable pub downgrade_result : String → ℕ → List VerificationResult → List VerificationResult
downgrade_result id now =
    update_where (λ r. str_eq r.result_id id)
      (λ r. record r {
        verification_state = probable;
        reason = "SUPPORTING_LIVE_OFFER_EXPIRED";
        updated_at = now;
      })

-- The statements of the batch on the tables of offers and candidates.
unfoldable pub downgrade_offers : String → String → String → Moment → Offers → Offers
unfolding downgrade_result downgrade_itinerary set_stale
downgrade_offers result itinerary event now t = record t {
  candidate_verification_results = downgrade_result result now.ms t.candidate_verification_results;
  candidate_verification_supports =
      filter (λ s. not (str_eq s.result_id result)) t.candidate_verification_supports;
  candidates = record {
    itinerary_candidates = downgrade_itinerary itinerary now.ms t.candidates.itinerary_candidates;
    readiness_facets =
        set_stale itinerary "LIVE_OFFER_EXPIRED" event now t.candidates.readiness_facets;
  };
}

-- INSERT OR IGNORE: event_id is the primary key, and (result_id, provider_offer_id) is unique.
unfoldable pub insert_event : LifecycleEvent → List LifecycleEvent → List LifecycleEvent
insert_event e t =
    if is_some (find_row (λ x. x.event_id) e.event_id t)
      || handled t e.result_id e.provider_offer_id
    then t
    else t ++ e ∷ []

pub data ExpiryAnswer : Type 0 where
  nothing_due : ExpiryAnswer
  resumed : Finished → ExpiryAnswer
  preserved : String → String → List String → ExpiryAnswer
  downgraded : String → Finished → ExpiryAnswer

abbrev pub resumed_with : Life × Finished → Life × Result ExpiryAnswer
resumed_with (s, f) = (s, ok (resumed f))

abbrev pub downgraded_with : String → Life × Finished → Life × Result ExpiryAnswer
downgraded_with offer (s, f) = (s, ok (downgraded offer f))

module _ (R : Runtime) where
  -- `datetime(x) <= datetime(now)`: NULL holds of nothing.
  abbrev sql_passed : Option String → Moment → Bool
  sql_passed none now = false
  sql_passed (some t) now = elim (R.sql_time t) [
    | none ↦ false
    | some at ↦ elim (R.sql_time now.iso) [ none ↦ false | some until ↦ leb at until ]
  ]

  -- isExpired.
  unfoldable pub is_expired : Option String → ℕ → Bool
  is_expired none now = false
  is_expired (some t) now = truthy t && elim (R.parse t) [ none ↦ false | some at ↦ leb at now ]

  abbrev expiry_seconds : Due → ℕ
  expiry_seconds d = elim d.offer.expires_at [
    | none ↦ 0
    | some t ↦ elim (R.sql_time t) [ none ↦ 0 | some at ↦ at ]
  ]

  -- ORDER BY datetime(o.expires_at),v.updated_at,v.result_id.
  abbrev due_le : Due → Due → Bool
  due_le a b =
      if not (expiry_seconds a == expiry_seconds b)
      then ltb (expiry_seconds a) (expiry_seconds b)
      else if not (a.result.updated_at == b.result.updated_at)
      then ltb a.result.updated_at b.result.updated_at
      else R.text_le a.result.result_id b.result.result_id

  abbrev due_row : List LifecycleEvent → Moment → Due → Bool
  due_row events now d =
      is_confirmed d.result.verification_state
      && d.offer.live
      && sql_passed d.offer.expires_at now
      && not (handled events d.result.result_id d.offer.provider_offer_id)

  -- The SELECT of what is due, LIMIT 1.
  unfoldable pub next_due : Life → Moment → Option Due
  unfolding joined
  next_due s now = first (
      order_by due_le (
        filter (due_row s.events now)
          (joined s.tables.offers s.tables.offers.candidate_verification_results)))

  -- ORDER BY s.support_role,s.provider_offer_id.
  abbrev support_le : Support × OfferSnapshot → Support × OfferSnapshot → Bool
  support_le (a, o) (b, p) =
      if is_primary a.support_role
      then not (is_primary b.support_role) || R.text_le a.provider_offer_id b.provider_offer_id
      else not (is_primary b.support_role) && R.text_le a.provider_offer_id b.provider_offer_id

  unfoldable pub supporting_offers : Offers → String → List OfferSnapshot
  unfolding support_rows
  supporting_offers t result =
      map (λ row. row.1)
        (order_by support_le
          (support_rows t.offer_snapshots result t.candidate_verification_supports))

  unfoldable pub event_id_of : String → String → String
  event_id_of result offer =
      str_append "live-life:" (str_append (R.safe result) (str_append ":" (R.safe offer)))

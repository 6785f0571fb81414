-- ===== src/Lifecycle/Tick.antt =====
-- src/offer_lifecycle.ts, expireLiveProviderOffers, continued: the whole turn.
use fareradar.Prelude.{
  ℕ, String, Bool, true, false, Option, none, some, List, [], ◌∷◌, ◌&&◌, ◌||◌, ltb, ◌==◌, truthy,
  any, filter, first, map, if◌then◌else◌, Result, ok, err,
}
use fareradar.Sql.{order_by, find_row, mem}
use fareradar.Db.{Db}
use fareradar.Runtime.{Runtime, Moment}
use fareradar.Verification.{confirmed, probable}
use fareradar.Providers.{ProviderAccess}
use fareradar.Jobs.Budget.{PricingSnapshot}
use fareradar.Jobs.Search.{Hashes}
use fareradar.Offers.{OfferSnapshot, direct_itinerary_id}
use fareradar.Offers.Recompute.{Verdict, Projection, is_confirmed, distinct}
use fareradar.Offers.Projecting.{Projected, Tables, recompute_candidate_verification}
use fareradar.Lifecycle.{
  LifecycleEvent, Life, CorrectionState, RepriceState, finish_lifecycle_event,
}
use fareradar.Lifecycle.Expiry.{
  Due, is_pending, was_visible, deal_intents, withdraw_deals, downgrade_offers, insert_event,
  ExpiryAnswer, nothing_due, preserved, resumed_with, downgraded_with, is_expired, next_due,
  supporting_offers, event_id_of,
}

abbrev pub event_key : LifecycleEvent → String
event_key e = e.event_id

module _ (R : Runtime) (H : Hashes) (access : List ProviderAccess) (pricing : List PricingSnapshot)
    (project : Tables → Projection → Moment → Result Projected) where
  abbrev event_le : LifecycleEvent → LifecycleEvent → Bool
  event_le a b =
      ltb a.created_at b.created_at
      || (a.created_at == b.created_at && R.text_le a.event_id b.event_id)

  -- The event that an earlier turn left pending: ORDER BY created_at,event_id LIMIT 1.
  unfoldable pub next_pending : List LifecycleEvent → Option LifecycleEvent
  next_pending events = first (order_by event_le (filter is_pending events))

  abbrev providers_of : List OfferSnapshot → List String
  providers_of supports = distinct (filter truthy (map (λ o. o.provider) supports))

  -- The event's row: PROBABLE and pending, or CONFIRMED with nothing left to do.
  unfoldable pub new_event :
      Due → OfferSnapshot → List OfferSnapshot → Bool → Bool → ℕ → LifecycleEvent
  unfolding event_id_of direct_itinerary_id distinct
  new_event d offer supports sustained visible now = record {
    event_id = event_id_of R d.result.result_id offer.provider_offer_id;
    result_id = d.result.result_id;
    queue_id = d.result.queue_id;
    query_fingerprint = d.result.query_fingerprint;
    itinerary_id = some (direct_itinerary_id R d.result.queue_id d.result.query_fingerprint);
    provider_offer_id = offer.provider_offer_id;
    previous_verification_state = d.result.verification_state;
    new_verification_state = if sustained then confirmed else probable;
    effective_at = offer.expires_at;
    support_provider_ids = providers_of supports;
    had_visible_notification = visible;
    correction_state = if sustained then CorrectionState.not_required else CorrectionState.pending;
    reprice_state = if sustained then RepriceState.not_required else RepriceState.pending;
    last_error = [];
    created_at = now;
    updated_at = now;
  }

  -- SELECT COUNT(*) … > 0.
  unfoldable pub has_visible : Db → String → Bool
  unfolding deal_intents
  has_visible db itinerary =
      any (λ n. mem n.notification_id (deal_intents db itinerary) && was_visible n.state)
        db.notification_outbox

  -- The batch of the downgrade.
  unfoldable pub downgrade_batch : Life → Due → LifecycleEvent → Moment → Life
  unfolding insert_event withdraw_deals downgrade_offers direct_itinerary_id
  downgrade_batch s d e now =
      let itinerary = direct_itinerary_id R d.result.queue_id d.result.query_fingerprint in
      record s {
        tables = record {
          db = withdraw_deals itinerary now.ms s.tables.db;
          offers = downgrade_offers d.result.result_id itinerary e.event_id now s.tables.offers;
        };
        events = insert_event e s.events;
      }

  -- The event is read back and finished.
  abbrev pub finish_inserted :
      Life → String → String → Moment → Option LifecycleEvent → Life × Result ExpiryAnswer
  finish_inserted s id offer now none = (s, err "LIVE_OFFER_LIFECYCLE_EVENT_MISSING")
  finish_inserted s id offer now (some e) =
      downgraded_with offer (finish_lifecycle_event R H access pricing s e now)

  -- The fare is not sustained by other evidence.
  abbrev pub downgrade :
      Life → Due → OfferSnapshot → List OfferSnapshot → Moment → Life × Result ExpiryAnswer
  downgrade s d offer supports now =
      let itinerary = direct_itinerary_id R d.result.queue_id d.result.query_fingerprint in
      let e = new_event d offer supports false (has_visible s.tables.db itinerary) now.ms in
      let s' = downgrade_batch s d e now in
      finish_inserted s' e.event_id offer.provider_offer_id now
        (find_row event_key e.event_id s'.events)

  abbrev pub sustain :
      Life
      → Due
      → OfferSnapshot
      → List OfferSnapshot
      → Verdict
      → Moment
      → Life × Result ExpiryAnswer
  sustain s d offer supports v now =
      let e = new_event d offer supports true false now.ms in
      (
        record s { events = insert_event e s.events },
        ok (preserved offer.provider_offer_id e.event_id v.supporting_offer_ids),
      )

  abbrev pub after_recompute :
      Life
      → Due
      → OfferSnapshot
      → List OfferSnapshot
      → Moment
      → Tables × Result Verdict
      → Life × Result ExpiryAnswer
  after_recompute s d offer supports now (t, err e) = (record s { tables = t }, err e)
  after_recompute s d offer supports now (t, ok v) =
      let s' = record s { tables = t } in
      if is_confirmed v.verification_state
      then sustain s' d offer supports v now
      else downgrade s' d offer supports now

  -- A trigger is due; its supports that are not expired by the clock of JavaScript do not count.
  abbrev pub handle_expired :
      Life → Due → List OfferSnapshot → List OfferSnapshot → Moment → Life × Result ExpiryAnswer
  handle_expired s d supports [] now = (s, ok nothing_due)
  handle_expired s d supports (offer ∷ rest) now = after_recompute s d offer supports now (
      recompute_candidate_verification R project s.tables d.result.queue_id
        d.result.query_fingerprint now)

  unfoldable pub handle_due : Life → Moment → Option Due → Life × Result ExpiryAnswer
  unfolding new_event has_visible downgrade_batch supporting_offers is_expired
  handle_due s now none = (s, ok nothing_due)
  handle_due s now (some d) =
      let supports = supporting_offers R s.tables.offers d.result.result_id in
      handle_expired s d supports (filter (λ o. is_expired R o.expires_at now.ms) supports) now

  -- One turn at a valid time: a pending event is finished before anything else is looked at.
  unfoldable pub expire_at : Life → Moment → Life × Result ExpiryAnswer
  unfolding next_pending handle_due next_due
  expire_at s now = elim (next_pending s.events) [
    | some e ↦ resumed_with (finish_lifecycle_event R H access pricing s e now)
    | none ↦ handle_due s now (next_due R s now)
  ]

  -- expireLiveProviderOffers.
  unfoldable pub expire_live_provider_offers : Life → String → Life × Result ExpiryAnswer
  unfolding expire_at
  expire_live_provider_offers s now_iso = elim (R.parse now_iso) [
    | none ↦ (s, err "LIVE_OFFER_EXPIRY_TIME_INVALID")
    | some ms ↦ expire_at s (record { iso = now_iso; ms = ms })
  ]

-- ===== src/Lifecycle/Withdrawn.antt =====
-- What a user may still be told of a fare after expireLiveProviderOffers of src/offer_lifecycle.ts has
-- downgraded it.
use fareradar.Prelude.{
  ℕ, Bool, String, true, false, Option, none, some, List, [], ◌∷◌, ◌≡◌, ◌≢◌, refl, sym, subst, ◌∙◌,
  inl, inr, ◌&&◌, not, str_eq, eq_iff, In, In-filter, filter, arith, Bool-cases, Option-cases,
  if◌then◌else◌, Result, ok, err,
}
use fareradar.Sql.{mem, find_row}
use fareradar.Sql.Laws.{In-update_where}
use fareradar.Db.{Db, AlertIntent, Notification}
use fareradar.Core.{VerificationState}
use fareradar.Verification.{probable}
use fareradar.Runtime.{Runtime, Moment}
use fareradar.Providers.{ProviderAccess}
use fareradar.Jobs.Budget.{PricingSnapshot}
use fareradar.Jobs.Search.{Hashes}
use fareradar.Outbox.{enqueue_alert_intent}
use fareradar.Outbox.Silenced.{Silenced, update-Silenced, enqueue-Silenced}
use fareradar.Offers.{
  OfferSnapshot, Itinerary, Support, VerificationResult, direct_itinerary_id, downgrade_itinerary,
}
use fareradar.Offers.Recompute.{Projection, Verdict, is_confirmed}
use fareradar.Offers.Projecting.{Projected, Tables, recompute_candidate_verification}
use fareradar.Offers.Supports.{recomputed}
use fareradar.Lifecycle.{
  RepriceState, warned, refresh_failed, expiry_intent, correction_pending, reprice_pending,
  attempts_for, LifecycleEvent, Life, write_reprice, write_correction, finish_correction, Finished,
  finish_lifecycle_event,
}
use fareradar.Lifecycle.Expiry.{
  is_deal, Due, is_unsent, deal_intents, cancel, withdraw_deals, downgrade_result, downgrade_offers,
  ExpiryAnswer, downgraded, is_expired, next_due, supporting_offers,
}
use fareradar.Lifecycle.Tick.{
  event_key, next_pending, new_event, has_visible, downgrade_batch, finish_inserted, downgrade,
  after_recompute, handle_expired, handle_due, expire_at,
}

abbrev pub about_deals : String → AlertIntent → Bool
about_deals itinerary i = str_eq i.itinerary_id itinerary && is_deal i.alert_class

-- Of the fare of `d`, with the alerts that stood in `before`, nothing is left that could be sent as a
-- deal, or acted on, or counts as confirmed.
pub record Withdrawn (R : Runtime) (before : Db) (d : Due) (s : Life) : Type 0 where
  pub none_unsent :
      (n : Notification)
      → In n s.tables.db.notification_outbox
      → mem n.notification_id
          (deal_intents before (direct_itinerary_id R d.result.queue_id d.result.query_fingerprint))
        ≡ true
      → is_unsent n.state ≡ false
  pub none_unprojected :
      Silenced
        (about_deals (direct_itinerary_id R d.result.queue_id d.result.query_fingerprint))
        (deal_intents before (direct_itinerary_id R d.result.queue_id d.result.query_fingerprint))
        s.tables.db.candidate_alert_intents
  pub itinerary_probable :
      (i : Itinerary)
      → In i s.tables.offers.candidates.itinerary_candidates
      → i.itinerary_id ≡ direct_itinerary_id R d.result.queue_id d.result.query_fingerprint
      → i.verification_state ≡ VerificationState.probable
  pub unsupported :
      (x : Support)
      → In x s.tables.offers.candidate_verification_supports
      → x.result_id ≢ d.result.result_id
  pub result_probable :
      (r : VerificationResult)
      → In r s.tables.offers.candidate_verification_results
      → r.result_id ≡ d.result.result_id
      → r.verification_state ≡ probable

pub cancelled_row :
    (ids : List String) (reason : String) (n q : Notification)
    → n ≡ (if mem q.notification_id ids && is_unsent q.state then cancel reason q else q)
    → mem n.notification_id ids ≡ true
    → is_unsent n.state ≡ false
unfolding cancel
cancelled_row ids reason n q e m =
    elim (Bool-cases (mem q.notification_id ids && is_unsent q.state)) [
      | inl hit ↦ ground (arith, e, hit)
      | inr miss ↦
          let same : n ≡ q = e ∙ rw miss refl in
          let m' : mem q.notification_id ids ≡ true =
            subst (λ x. mem x.notification_id ids ≡ true) same m in
          subst (λ x. is_unsent x.state ≡ false) (sym same) (ground (arith, m', miss))
    ]

-- The second statement of `withdraw_deals`.
projected_away :
    (db : Db) (itinerary : String) (now : ℕ)
    → Silenced
        (about_deals itinerary)
        (deal_intents db itinerary)
        (withdraw_deals itinerary now db).candidate_alert_intents
unfolding withdraw_deals deal_intents
projected_away db itinerary now =
    update-Silenced (about_deals itinerary) (about_deals itinerary) _ now db.candidate_alert_intents
      (λ x. refl) (λ x. ground arith)

warned-Silenced :
    (about : AlertIntent → Bool) (ids : List String) (db : Db) (e : LifecycleEvent)
    (errors : List String) (now : ℕ)
    → Silenced about ids db.candidate_alert_intents
    → Silenced about ids (warned db e errors now).candidate_alert_intents
warned-Silenced about ids db e [] now s = s
warned-Silenced about ids db e (x ∷ xs) now s =
    enqueue-Silenced about ids db (refresh_failed e (x ∷ xs)) now s

finish_correction-Silenced :
    (about : AlertIntent → Bool) (ids : List String) (s : Life) (e : LifecycleEvent)
    (state : RepriceState) (jobs errors : List String) (now : ℕ)
    → Silenced about ids s.tables.db.candidate_alert_intents
    → Silenced about ids
        (finish_correction s e state jobs errors now).0.tables.db.candidate_alert_intents
unfolding finish_correction write_correction
finish_correction-Silenced about ids s e state jobs errors now k =
    elim (Bool-cases (correction_pending e.correction_state)) [
      | inr done ↦ rw done k
      | inl open_event ↦ elim (Bool-cases e.had_visible_notification) [
        | inr unseen ↦ rw (open_event, unseen) k
        | inl seen ↦
            rw (open_event, seen)
              (enqueue-Silenced about ids s.tables.db (expiry_intent e state jobs) now k)
      ]
    ]

module _ (R : Runtime) (H : Hashes) (access : List ProviderAccess) (pricing : List PricingSnapshot)
    (project : Tables → Projection → Moment → Result Projected) where
  batch-Withdrawn :
      (s : Life) (d : Due) (e : LifecycleEvent) (now : Moment)
      → Withdrawn R s.tables.db d (downgrade_batch R H access pricing project s d e now)
  unfolding downgrade_batch withdraw_deals downgrade_offers downgrade_result downgrade_itinerary
  batch-Withdrawn s d e now =
      let itinerary : String = direct_itinerary_id R d.result.queue_id d.result.query_fingerprint in
      record {
        none_unsent = λ n i m.
            let (q, _, same) =
              In-update_where
                (λ x.
                  mem x.notification_id (deal_intents s.tables.db itinerary) && is_unsent x.state)
                (cancel "LIVE_OFFER_EXPIRED") s.tables.db.notification_outbox n i in
            cancelled_row (deal_intents s.tables.db itinerary) "LIVE_OFFER_EXPIRED" n q same m;
        none_unprojected = projected_away s.tables.db itinerary now.ms;
        itinerary_probable = λ i j same.
            let (q, _, k) =
              In-update_where (λ (x : Itinerary). str_eq x.itinerary_id itinerary)
                (λ x. record x {
                  verification_state = VerificationState.probable;
                  updated_at = now.ms;
                })
                s.tables.offers.candidates.itinerary_candidates i j in
            ground (arith, k, same, eq_iff q.itinerary_id itinerary);
        unsupported = λ x i same.
            let (_, kept) =
              In-filter (λ (y : Support). not (str_eq y.result_id d.result.result_id)) x
                s.tables.offers.candidate_verification_supports i in
            ground (arith, kept, same, eq_iff x.result_id d.result.result_id);
        result_probable = λ r i same.
            let (q, _, k) =
              In-update_where (λ (x : VerificationResult). str_eq x.result_id d.result.result_id)
                (λ x. record x {
                  verification_state = probable;
                  reason = "SUPPORTING_LIVE_OFFER_EXPIRED";
                  updated_at = now.ms;
                })
                s.tables.offers.candidate_verification_results r i in
            ground (arith, k, same, eq_iff q.result_id d.result.result_id);
      }

  -- Two states that agree on what `Withdrawn` reads.
  abbrev Agrees : Life → Life → Type 0
  Agrees s u =
      (u.tables.db.notification_outbox ≡ s.tables.db.notification_outbox)
      × (u.tables.offers.candidates ≡ s.tables.offers.candidates)
      × (u.tables.offers.candidate_verification_supports
          ≡ s.tables.offers.candidate_verification_supports)
      × (u.tables.offers.candidate_verification_results
          ≡ s.tables.offers.candidate_verification_results)

  finish-Agrees :
      (s : Life) (e : LifecycleEvent) (now : Moment)
      → Agrees s (finish_lifecycle_event R H access pricing s e now).0
  unfolding finish_lifecycle_event finish_correction write_correction write_reprice
      enqueue_alert_intent
  finish-Agrees s e now = ground arith

  Agrees-Withdrawn :
      (before : Db) (d : Due) (s u : Life)
      → Agrees s u
      → Silenced
          (about_deals (direct_itinerary_id R d.result.queue_id d.result.query_fingerprint))
          (deal_intents before (direct_itinerary_id R d.result.queue_id d.result.query_fingerprint))
          u.tables.db.candidate_alert_intents
      → Withdrawn R before d s
      → Withdrawn R before d u
  Agrees-Withdrawn before d s u (outbox, candidates, supports, results) silenced w = record {
    none_unprojected = silenced;
    none_unsent = λ n i. w.none_unsent n (subst (In n) outbox i);
    itinerary_probable =
        λ i j. w.itinerary_probable i (subst (λ c. In i c.itinerary_candidates) candidates j);
    unsupported = λ x i. w.unsupported x (subst (In x) supports i);
    result_probable = λ r i. w.result_probable r (subst (In r) results i);
  }

  finish-Silenced :
      (about : AlertIntent → Bool) (ids : List String) (s : Life) (e : LifecycleEvent)
      (now : Moment)
      → Silenced about ids s.tables.db.candidate_alert_intents
      → Silenced about ids
          (finish_lifecycle_event R H access pricing s e now).0.tables.db.candidate_alert_intents
  unfolding finish_lifecycle_event write_reprice
  finish-Silenced about ids s e now k = elim (Bool-cases (reprice_pending e.reprice_state)) [
    | inr done ↦ rw done (finish_correction-Silenced about ids s e e.reprice_state [] [] now.ms k)
    | inl open_event ↦
        let a = attempts_for R H access pricing s e now in
        rw open_event (
          finish_correction-Silenced about ids (write_reprice s e now a) e _ a.jobs a.errors now.ms
            (warned-Silenced about ids _ e a.errors now.ms k))
  ]

  read_back :
      (before : Db) (d : Due) (s s' : Life) (id offer : String) (now : Moment)
      (e : Option LifecycleEvent) (a : ExpiryAnswer)
      → finish_inserted R H access pricing project s id offer now e ≡ (s', ok a)
      → Withdrawn R before d s
      → Withdrawn R before d s'
  read_back before d s s' id offer now none a h w = absurd (ground (arith, h))
  read_back before d s s' id offer now (some e) a h w =
      subst (Withdrawn R before d) (ground (arith, h)) (
        Agrees-Withdrawn before d s (finish_lifecycle_event R H access pricing s e now).0
          (finish-Agrees s e now) (finish-Silenced _ _ s e now w.none_unprojected) w)

  downgrade-Withdrawn :
      (s s' : Life) (d : Due) (offer : OfferSnapshot) (supports : List OfferSnapshot) (now : Moment)
      (a : ExpiryAnswer)
      → downgrade R H access pricing project s d offer supports now ≡ (s', ok a)
      → Withdrawn R s.tables.db d s'
  downgrade-Withdrawn s s' d offer supports now a h =
      let itinerary = direct_itinerary_id R d.result.queue_id d.result.query_fingerprint in
      let e : LifecycleEvent =
        new_event R H access pricing project d offer supports false
          (has_visible R H access pricing project s.tables.db itinerary) now.ms in
      let u : Life = downgrade_batch R H access pricing project s d e now in
      read_back s.tables.db d u s' e.event_id offer.provider_offer_id now
        (find_row event_key e.event_id u.events) a h (batch-Withdrawn s d e now)

  not_sustained :
      (before : Db) (d : Due) (s s' : Life) (offer : OfferSnapshot) (supports : List OfferSnapshot)
      (now : Moment) (out : Tables × Result Verdict) (id : String) (f : Finished)
      → ((v : Verdict)
          → out.1 ≡ ok v
          → is_confirmed v.verification_state ≡ false
          → out.0.db ≡ before)
      → after_recompute R H access pricing project s d offer supports now out
        ≡ (s', ok (downgraded id f))
      → Withdrawn R before d s'
  not_sustained before d s s' offer supports now (t, err e) id f same h = absurd (ground (arith, h))
  not_sustained before d s s' offer supports now (t, ok v) id f same h =
      elim (Bool-cases (is_confirmed v.verification_state)) [
        | inl held ↦ absurd (ground (arith, h, held))
        | inr lost ↦
            subst (λ b. Withdrawn R b d s') (same v refl lost)
              (downgrade-Withdrawn (record s { tables = t }) s' d offer supports now
                (downgraded id f) (rw lost at h))
      ]

  recompute_db :
      (t : Tables) (queue fingerprint : String) (now : Moment) (v : Verdict)
      → (recompute_candidate_verification R project t queue fingerprint now).1 ≡ ok v
      → is_confirmed v.verification_state ≡ false
      → (recompute_candidate_verification R project t queue fingerprint now).0.db ≡ t.db
  recompute_db t queue fingerprint now v e lost =
      let out : Tables × Result Verdict =
        recompute_candidate_verification R project t queue fingerprint now in
      (recomputed R project t out.0 queue fingerprint now v (λ i. (out.0, e i))).2 lost

  -- A fare that loses its last support is taken back wholly. When a turn has downgraded the fare of the
  -- offer that was due, none of the deal alerts that stood for its itinerary is waiting to be sent,
  -- held ones included, and none of its deal intents from before waits to be projected; the itinerary
  -- and the fare's result are PROBABLE; and no support of the result is left.
  pub downgrade_withdraws :
      (s s' : Life) (now : Moment) (d : Due) (offer : String) (f : Finished)
      → next_due R s now ≡ some d
      → expire_at R H access pricing project s now ≡ (s', ok (downgraded offer f))
      → Withdrawn R s.tables.db d s'
  unfolding expire_at handle_due
  downgrade_withdraws s s' now d offer f due h =
      elim (Option-cases (next_pending R H access pricing project s.events)) [
        | inr (e, found) ↦ absurd (ground (arith, h, found))
        | inl idle ↦
            expired
              (filter (λ o. is_expired R o.expires_at now.ms)
                (supporting_offers R s.tables.offers d.result.result_id))
              (ground (arith, h, idle, due))
      ]
    where
      expired :
          (es : List OfferSnapshot)
          → handle_expired R H access pricing project s d
              (supporting_offers R s.tables.offers d.result.result_id)
              es
              now
            ≡ (s', ok (downgraded offer f))
          → Withdrawn R s.tables.db d s'
      expired [] k = absurd (ground (arith, k))
      expired (o ∷ os) k =
          not_sustained s.tables.db d s s' o
            (supporting_offers R s.tables.offers d.result.result_id) now
            (recompute_candidate_verification R project s.tables d.result.queue_id
              d.result.query_fingerprint now)
            offer f
            (λ v e l. recompute_db s.tables d.result.queue_id d.result.query_fingerprint now v e l)
            k

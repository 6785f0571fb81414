-- ===== src/Agencies/Closing.antt =====
-- What src/agency_expiry.ts closes, and when.
use fareradar.Prelude.{
  Bool, In-append, In-left, In-right, first-In, first-none, ◌<◌, ℕ, ◌≤◌, String, true, false,
  Option, none, some, List, [], ◌∷◌, ◌≡◌, refl, subst, ◌⊎◌, inl, inr, ◌&&◌, not, leb, str_eq,
  eq_iff, truthy, In, first, take, arith, Bool-cases, Option-cases,
}
use fareradar.Sql.{mem, order_by}
use fareradar.Sql.Laws.{length-order_by, In-update_where, first-order_by-le}
use fareradar.Sql.Claims.{In-order_by}
use fareradar.Db.{Db, AlertIntent, Notification, CandidateSignal}
use fareradar.Runtime.{Runtime, Moment}
use fareradar.Outbox.{enqueue_alert_intent}
use fareradar.Outbox.Silenced.{Silenced, update-Silenced, enqueue-Silenced}
use fareradar.Lifecycle.Expiry.{is_unsent, cancel}
use fareradar.Lifecycle.Withdrawn.{cancelled_row}
use fareradar.Agencies.{
  update_intent, seats_exhausted, booking_deadline_passed, payment_deadline_passed,
  ticketing_deadline_passed, OfferState, ExpiryReason, AgencyOffer, CheckoutJob, Agencies,
  is_closed, is_open, for_agencies, no_seats, Passed, Expiry, agency_itinerary, intents_of,
  deadline_passed, passed_deadlines, agency_offer_expiry_reason, due_offers, close_offer,
  close_signal, close_job, close_db, expire_offer, expire_rows, expire_agency_offers, reason_text,
}

abbrev pub about_offer : String → AlertIntent → Bool
about_offer id i = str_eq i.itinerary_id (agency_itinerary id)

-- Nothing works on the offer any more, with the alerts that stood in `before`.
pub record Closed (before : Db) (id : String) (s : Agencies) : Type 0 where
  pub off_market :
      (a : AgencyOffer) → In a s.offers → a.agency_offer_id ≡ id → is_closed a.state ≡ true
  pub no_signal :
      (q : CandidateSignal)
      → In q s.db.candidate_priority_queue
      → for_agencies q.signal_type ≡ true
      → q.signal_id ≡ id
      → is_open q.state ≡ false
  pub no_checkout :
      (j : CheckoutJob) → In j s.checkout_jobs → j.agency_offer_id ≡ id → is_open j.state ≡ false
  pub none_unsent :
      (n : Notification)
      → In n s.db.notification_outbox
      → mem n.notification_id (intents_of before (agency_itinerary id)) ≡ true
      → is_unsent n.state ≡ false
  pub none_unprojected :
      Silenced
        (about_offer id)
        (intents_of before (agency_itinerary id))
        s.db.candidate_alert_intents

close_db-Silenced :
    (id reason : String) (now : ℕ) (db : Db)
    → Silenced
        (about_offer id)
        (intents_of db (agency_itinerary id))
        (close_db id reason now db).candidate_alert_intents
unfolding close_db
close_db-Silenced id reason now db =
    update-Silenced (about_offer id) (about_offer id) _ now db.candidate_alert_intents (λ x. refl)
      (λ x. refl)

expire_offer-Closed :
    (s : Agencies) (o : AgencyOffer) (x : Expiry) (now : Moment)
    → is_closed x.new_state ≡ true
    → Closed s.db o.agency_offer_id (expire_offer s o x now)
unfolding expire_offer close_db close_offer close_signal close_job enqueue_alert_intent
expire_offer-Closed s o x now final = record {
  off_market = λ a i same.
      let (b, _, e) =
        In-update_where
          (λ (y : AgencyOffer).
            str_eq y.agency_offer_id o.agency_offer_id && not (is_closed y.state))
          (close_offer x) s.offers a i in
      ground (arith, e, same, eq_iff b.agency_offer_id o.agency_offer_id, final);
  no_signal = λ q i kind same.
      let (r, _, e) =
        In-update_where
          (λ (y : CandidateSignal).
            for_agencies y.signal_type && str_eq y.signal_id o.agency_offer_id && is_open y.state)
          (close_signal (reason_text x.reason) now.ms) s.db.candidate_priority_queue q i in
      ground (arith, e, kind, same, eq_iff r.signal_id o.agency_offer_id);
  no_checkout = λ j i same.
      let (r, _, e) =
        In-update_where
          (λ (y : CheckoutJob). str_eq y.agency_offer_id o.agency_offer_id && is_open y.state)
          (close_job (reason_text x.reason) now.ms) s.checkout_jobs j i in
      ground (arith, e, same, eq_iff r.agency_offer_id o.agency_offer_id);
  none_unsent = λ n i m.
      let ids : List String = intents_of s.db (agency_itinerary o.agency_offer_id) in
      let (q, _, e) =
        In-update_where (λ (y : Notification). mem y.notification_id ids && is_unsent y.state)
          (cancel (reason_text x.reason)) s.db.notification_outbox n i in
      cancelled_row ids (reason_text x.reason) n q e m;
  none_unprojected =
      enqueue-Silenced (about_offer o.agency_offer_id)
        (intents_of s.db (agency_itinerary o.agency_offer_id))
        (close_db o.agency_offer_id (reason_text x.reason) now.ms s.db) (update_intent o x) now.ms
        (close_db-Silenced o.agency_offer_id (reason_text x.reason) now.ms s.db);
}

module _ (R : Runtime) where
  -- The text of a deadline, with the time that it stands for.
  abbrev pub IsDeadline : AgencyOffer → ℕ → Type 0
  IsDeadline o t =
      (v : String) × ((o.booking_deadline ≡ some v)
        ⊎ (o.payment_deadline ≡ some v)
        ⊎ (o.ticketing_deadline ≡ some v))
      × (truthy v ≡ true)
      × (R.parse v ≡ some t)

  -- The text is the offer's deadline that the reason names.
  abbrev pub Reasoned : AgencyOffer → ExpiryReason → String → Type 0
  Reasoned o reason v =
      ((reason ≡ booking_deadline_passed) × (o.booking_deadline ≡ some v))
      ⊎ ((reason ≡ payment_deadline_passed) × (o.payment_deadline ≡ some v))
      ⊎ ((reason ≡ ticketing_deadline_passed) × (o.ticketing_deadline ≡ some v))

  deadline-In :
      (now : ℕ) (d : Option String) (reason : ExpiryReason) (p : Passed)
      → In p (deadline_passed R now d reason)
      → (d ≡ some p.value) × (truthy p.value ≡ true) × (R.parse p.value ≡ some p.at) × (p.at ≤ now)
  deadline-In now none reason p i = elim i [ ]
  deadline-In now (some v) reason p i = elim (Bool-cases (truthy v)) [
    | inr empty ↦ absurd (ground (arith, i, empty))
    | inl text ↦ elim (Option-cases (R.parse v)) [
      | inl bad ↦ absurd (ground (arith, i, text, bad))
      | inr (t, parsed) ↦ ground (arith, i, text, parsed)
    ]
  ]

  reason-In :
      (now : ℕ) (d : Option String) (reason : ExpiryReason) (p : Passed)
      → In p (deadline_passed R now d reason)
      → p.reason ≡ reason
  reason-In now none reason p i = elim i [ ]
  reason-In now (some v) reason p i = elim (Bool-cases (truthy v)) [
    | inr empty ↦ absurd (ground (arith, i, empty))
    | inl text ↦ elim (Option-cases (R.parse v)) [
      | inl bad ↦ absurd (ground (arith, i, text, bad))
      | inr (t, parsed) ↦ ground (arith, i, text, parsed)
    ]
  ]

  In-deadline :
      (now t : ℕ) (v : String) (reason : ExpiryReason)
      → truthy v ≡ true
      → R.parse v ≡ some t
      → t ≤ now
      → In (record { at = t; reason = reason; value = v }) (deadline_passed R now (some v) reason)
  In-deadline now t v reason text parsed late = ground (arith, text, parsed)

  module _ (o : AgencyOffer) (now : ℕ) where
    -- A passed deadline is one of the offer's, under its own reason.
    passed-IsDeadline :
        (p : Passed)
        → In p (passed_deadlines R o now)
        → Reasoned o p.reason p.value × (R.parse p.value ≡ some p.at) × (p.at ≤ now)
    unfolding passed_deadlines
    passed-IsDeadline p i = elim (In-append p (deadline_passed R now o.booking_deadline _) _ i) [
      | inl j ↦
          let (e, _, parsed, late) = deadline-In now o.booking_deadline _ p j in
          (inl (reason-In now o.booking_deadline _ p j, e), parsed, late)
      | inr k ↦ elim (In-append p (deadline_passed R now o.payment_deadline _) _ k) [
        | inl j ↦
            let (e, _, parsed, late) = deadline-In now o.payment_deadline _ p j in
            (inr (inl (reason-In now o.payment_deadline _ p j, e)), parsed, late)
        | inr j ↦
            let (e, _, parsed, late) = deadline-In now o.ticketing_deadline _ p j in
            (inr (inr (reason-In now o.ticketing_deadline _ p j, e)), parsed, late)
      ]
    ]

    -- A deadline of the offer that has passed is among the passed ones.
    IsDeadline-passed :
        (t : ℕ)
        → IsDeadline o t
        → t ≤ now
        → (p : Passed) × In p (passed_deadlines R o now) × (p.at ≡ t)
    unfolding passed_deadlines
    IsDeadline-passed t (v, inl e, text, parsed) late =
        let p : Passed = record { at = t; reason = booking_deadline_passed; value = v } in
        (
          p,
          In-left p (deadline_passed R now o.booking_deadline booking_deadline_passed) _
              (rw e (In-deadline now t v booking_deadline_passed text parsed late)),
          refl,
        )
    IsDeadline-passed t (v, inr (inl e), text, parsed) late =
        let p : Passed = record { at = t; reason = payment_deadline_passed; value = v } in
        (
          p,
          In-right p (deadline_passed R now o.booking_deadline booking_deadline_passed) _ (
              In-left p (deadline_passed R now o.payment_deadline payment_deadline_passed) _
                (rw e (In-deadline now t v payment_deadline_passed text parsed late))),
          refl,
        )
    IsDeadline-passed t (v, inr (inr e), text, parsed) late =
        let p : Passed = record { at = t; reason = ticketing_deadline_passed; value = v } in
        (
          p,
          In-right p (deadline_passed R now o.booking_deadline booking_deadline_passed) _ (
              In-right p (deadline_passed R now o.payment_deadline payment_deadline_passed) _
                (rw e (In-deadline now t v ticketing_deadline_passed text parsed late))),
          refl,
        )

  -- What the answer says of the offer.
  abbrev pub Explains : AgencyOffer → Moment → Option Expiry → Type 0
  Explains o now none =
      (no_seats o.seats_available ≡ false) × ((t : ℕ) → IsDeadline o t → now.ms < t)
  Explains o now (some x) =
      ((x.new_state ≡ OfferState.sold_out)
        × (x.reason ≡ seats_exhausted)
        × (no_seats o.seats_available ≡ true))
      ⊎ ((x.new_state ≡ OfferState.expired)
          × Reasoned o x.reason x.effective_at
          × ((t : ℕ) × (R.parse x.effective_at ≡ some t)
              × (t ≤ now.ms)
              × ((u : ℕ) → IsDeadline o u → t ≤ u)))

  none-first :
      (xs : List Passed) (q : Passed)
      → In q xs
      → first (order_by (λ a b. leb a.at b.at) xs) ≡ none
      → ⊥
  none-first (x ∷ xs) q i e = absurd (
      omega (
        arith,
        length-order_by (λ (a b : Passed). leb a.at b.at) (x ∷ xs),
        first-none (order_by (λ a b. leb a.at b.at) (x ∷ xs)) e,
      ))
  none-first [] q i e = i

  explained :
      (o : AgencyOffer) (now : Moment) (p : Option Passed)
      → no_seats o.seats_available ≡ false
      → first (order_by (λ a b. leb a.at b.at) (passed_deadlines R o now.ms)) ≡ p
      → Explains o now (elim p [
        | none ↦ none
        | some q ↦
            some
              (record { reason = q.reason; effective_at = q.value; new_state = OfferState.expired })
      ])
  explained o now none seats h = (
    seats,
    λ t d. elim (Bool-cases (leb t now.ms)) [
      | inr later ↦ ground (arith, later)
      | inl late ↦
          let (q, i, _) = IsDeadline-passed o now.ms t d (ground (arith, late)) in
          absurd (none-first (passed_deadlines R o now.ms) q i h)
    ],
  )
  explained o now (some q) seats h =
      let (named, parsed, late) =
        passed-IsDeadline o now.ms q
          (In-order_by (λ a b. leb a.at b.at) q (passed_deadlines R o now.ms) (first-In q _ h)) in
      inr (
        refl,
        named,
        (
          q.at,
          parsed,
          late,
          λ u d. elim (Bool-cases (leb u now.ms)) [
            | inr later ↦ ground (arith, later, late)
            | inl passed ↦
                let (r, i, e) = IsDeadline-passed o now.ms u d (ground (arith, passed)) in
                rw (← e) (
                  first-order_by-le (λ a b. leb a.at b.at) (λ (a : Passed). a.at)
                    (λ a b t. ground (arith, t)) (λ a b t. ground (arith, t))
                    (passed_deadlines R o now.ms) q r h i)
          ],
        ),
      )

  pub expiry_reason_earliest :
      (o : AgencyOffer) (now : Moment) → Explains o now (agency_offer_expiry_reason R o now)
  unfolding agency_offer_expiry_reason
  expiry_reason_earliest o now = elim (Bool-cases (no_seats o.seats_available)) [
    | inl none_left ↦ rw none_left (inl (refl, refl, none_left))
    | inr seats ↦ rw seats (
        explained o now (first (order_by (λ a b. leb a.at b.at) (passed_deadlines R o now.ms)))
          seats refl)
  ]

  take_one :
      (xs : List AgencyOffer) (o : AgencyOffer) → first (take 1 xs) ≡ some o → take 1 xs ≡ o ∷ []
  take_one [] o h = cc
  take_one (x ∷ xs) o h = cc

  closed_state :
      (o : AgencyOffer) (now : Moment) (x : Expiry)
      → agency_offer_expiry_reason R o now ≡ some x
      → is_closed x.new_state ≡ true
  closed_state o now x h = elim (subst (Explains o now) h (expiry_reason_earliest o now)) [
    | inl (sold, _, _) ↦ rw sold refl
    | inr (gone, _, _) ↦ rw gone refl
  ]

  -- An offer that the periodic tick takes off the market is taken off wholly: it is EXPIRED or SOLD_OUT,
  -- no signal and no checkout job of it is open, so that no worker can finish one, and none of the
  -- alerts that stood for it waits to be sent, projected or not.
  pub expiry_closes :
      (s : Agencies) (now : Moment) (o : AgencyOffer) (x : Expiry)
      → first (due_offers R s now 1) ≡ some o
      → agency_offer_expiry_reason R o now ≡ some x
      → Closed s.db o.agency_offer_id (expire_agency_offers R s now 1).0
  unfolding expire_agency_offers expire_rows due_offers
  expiry_closes s now o x due why =
      let one = take_one _ o due in
      rw (one, expire_agency_offers, expire_rows, why)
        (expire_offer-Closed s o x now (closed_state o now x why))

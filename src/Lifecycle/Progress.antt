-- ===== src/Lifecycle/Progress.antt =====
-- The turns of expireLiveProviderOffers in src/offer_lifecycle.ts bring the pending events to an end.
use fareradar.Prelude.{
  first-In, first-none, ℕ, suc, ◌+◌, ◌≤◌, String, Bool, true, false, Option, none, some, List, [],
  ◌∷◌, ◌++◌, ◌≡◌, refl, sym, subst, ap, inl, inr, ◌||◌, str_eq_refl, eq_iff, In, In-filter, filter,
  arith, length, is_some, All, ◌∙◌, Bool-cases, Option-cases, if◌then◌else◌, Result, ok, err,
}
use fareradar.Sql.{update_where, find_row}
use fareradar.Sql.Laws.{length-order_by, find_row-append}
use fareradar.Sql.Claims.{In-order_by, In-find_row}
use fareradar.Runtime.{Runtime, Moment}
use fareradar.Providers.{ProviderAccess}
use fareradar.Jobs.Budget.{PricingSnapshot}
use fareradar.Jobs.Search.{Hashes}
use fareradar.Offers.{OfferSnapshot}
use fareradar.Offers.Recompute.{Projection, Verdict, is_confirmed}
use fareradar.Offers.Projecting.{Projected, Tables}
use fareradar.Lifecycle.{
  LifecycleEvent, Life, CorrectionState, RepriceState, reprice_pending, correction_pending,
  is_event, set_reprice, set_correction, correction_of, Attempts, attempts_for, write_reprice,
  write_correction, reprice_outcome, finish_correction, finish_lifecycle_event,
}
use fareradar.Lifecycle.Expiry.{
  Due, is_pending, insert_event, handled, next_due, supporting_offers, is_expired,
}
use fareradar.Lifecycle.Tick.{
  event_key, next_pending, new_event, downgrade_batch, finish_inserted, after_recompute,
  handle_expired, handle_due, expire_at, expire_live_provider_offers,
}

-- A weight summed over a table, through an UPDATE.
module _ {A : Type 0} (w : A → ℕ) where
  abbrev total : List A → ℕ
  total [] = 0
  total (x ∷ xs) = w x + total xs

  module _ (p : A → Bool) (f : A → A) (falls : (r : A) → w (f r) ≤ w r) where
    total-update_where-le : (t : List A) → total (update_where p f t) ≤ total t
    unfolding update_where
    total-update_where-le [] = omega arith
    total-update_where-le (r ∷ t) = ground (arith, falls r, total-update_where-le t)

    total-update_where-drop :
        (d : ℕ) (e : A) (t : List A)
        → In e t
        → p e ≡ true
        → w (f e) + d ≤ w e
        → total (update_where p f t) + d ≤ total t
    unfolding update_where
    total-update_where-drop d e [] i h l = elim i [ ]
    total-update_where-drop d e (r ∷ t) (inl q) h l =
        let here : p r ≡ true = subst (λ x. p x ≡ true) q h in
        let low : w (f r) + d ≤ w r = subst (λ x. w (f x) + d ≤ w x) q l in
        ground (arith, total-update_where-le t, here, low)
    total-update_where-drop d e (r ∷ t) (inr i) h l =
        ground (arith, falls r, total-update_where-drop d e t i h l)

  total-append : (t : List A) (e : A) → total (t ++ e ∷ []) ≡ total t + w e
  total-append [] e = omega arith
  total-append (r ∷ t) e = omega (arith, total-append t e)

  total-In : (e : A) (t : List A) → In e t → w e ≤ total t
  total-In e (r ∷ t) (inl q) = omega (arith, ap w q)
  total-In e (r ∷ t) (inr i) = omega (arith, total-In e t i)
  total-In e [] i = elim i [ ]

In-updated :
    (p : LifecycleEvent → Bool) (f : LifecycleEvent → LifecycleEvent) (e : LifecycleEvent)
    (t : List LifecycleEvent)
    → In e t
    → p e ≡ true
    → In (f e) (update_where p f t)
unfolding update_where
In-updated p f e [] i h = elim i [ ]
In-updated p f e (r ∷ t) (inl q) h =
    let here : p r ≡ true = subst (λ x. p x ≡ true) q h in rw here (inl (ap f q))
In-updated p f e (r ∷ t) (inr i) h = inr (In-updated p f e t i h)

abbrev pub reprices : RepriceState → ℕ
reprices s = if reprice_pending s then 1 else 0

abbrev pub corrections : CorrectionState → ℕ
corrections s = if correction_pending s then 1 else 0

-- What is left to do for an event, and for a table of events.
abbrev pub work_of : LifecycleEvent → ℕ
work_of e = reprices e.reprice_state + corrections e.correction_state

abbrev pub work : List LifecycleEvent → ℕ
work events = total work_of events

outcome_settled : (jobs errors : List String) → reprices (reprice_outcome jobs errors) ≡ 0
unfolding reprice_outcome
outcome_settled jobs errors = ground arith

correction_settled : (e : LifecycleEvent) → corrections (correction_of e) ≡ 0
correction_settled e = ground arith

finish_correction-work :
    (s : Life) (e x : LifecycleEvent) (state : RepriceState) (jobs errors : List String) (now : ℕ)
    → In x s.events
    → x.event_id ≡ e.event_id
    → x.correction_state ≡ e.correction_state
    → work (finish_correction s e state jobs errors now).0.events + corrections e.correction_state
      ≤ work s.events
unfolding finish_correction write_correction
finish_correction-work s e x state jobs errors now i id same =
    elim (Bool-cases (correction_pending e.correction_state)) [
      | inr done ↦ ground arith
      | inl open_one ↦
          let drop : work (
                  update_where (is_event e.event_id) (set_correction (correction_of e) now)
                    s.events)
                + 1
              ≤ work s.events =
            total-update_where-drop work_of (is_event e.event_id)
              (set_correction (correction_of e) now) (λ r. omega (arith, correction_settled e)) 1 x
              s.events i ((eq_iff x.event_id e.event_id).1 id)
              (ground (arith, correction_settled e, same, open_one)) in
          ground (arith, drop, open_one)
    ]

module _ (R : Runtime) (H : Hashes) (access : List ProviderAccess)
    (pricing : List PricingSnapshot) where
  -- Finishing an event takes all that is left to do for it off the table.
  finish-work :
      (s : Life) (e : LifecycleEvent) (now : Moment)
      → In e s.events
      → work (finish_lifecycle_event R H access pricing s e now).0.events + work_of e
        ≤ work s.events
  unfolding finish_lifecycle_event write_reprice
  finish-work s e now i = elim (Bool-cases (reprice_pending e.reprice_state)) [
    | inr done ↦
        let rest = finish_correction-work s e e e.reprice_state [] [] now.ms i refl refl in
        ground (arith, rest, done)
    | inl open_one ↦
        let a : Attempts = attempts_for R H access pricing s e now in
        let f : LifecycleEvent → LifecycleEvent =
          set_reprice (reprice_outcome a.jobs a.errors) a.errors now.ms in
        let drop : work (update_where (is_event e.event_id) f s.events) + 1 ≤ work s.events =
          total-update_where-drop work_of (is_event e.event_id) f
            (λ r. omega (arith, outcome_settled a.jobs a.errors)) 1 e s.events i
            (str_eq_refl e.event_id) (ground (arith, outcome_settled a.jobs a.errors, open_one)) in
        let rest =
          finish_correction-work (write_reprice s e now a) e (f e) (reprice_outcome a.jobs a.errors)
            a.jobs a.errors now.ms
            (In-updated (is_event e.event_id) f e s.events i (str_eq_refl e.event_id)) refl refl in
        ground (arith, rest, drop, open_one)
  ]

-- An event that is read back after its insertion, and finished, leaves nothing to do.
module _ (R : Runtime) (H : Hashes) (access : List ProviderAccess) (pricing : List PricingSnapshot)
    (project : Tables → Projection → Moment → Result Projected) where
  found-work :
      (s : Life) (id offer : String) (now : Moment) (e : LifecycleEvent)
      → find_row event_key id s.events ≡ some e
      → work s.events ≤ work_of e
      → work
          (finish_inserted R H access pricing project s id offer now
            (find_row event_key id s.events)).0.events
        ≡ 0
  found-work s id offer now e found few = rw found (
      omega
        (arith, finish-work R H access pricing s e now (In-find_row event_key id s.events e found)))

  found_or_none-work :
      (s : Life) (id offer : String) (now : Moment)
      → work s.events ≡ 0
      → work
          (finish_inserted R H access pricing project s id offer now
            (find_row event_key id s.events)).0.events
        ≡ 0
  found_or_none-work s id offer now idle = elim (Option-cases (find_row event_key id s.events)) [
    | inl absent ↦ rw absent idle
    | inr (e, found) ↦ found-work s id offer now e found (omega arith)
  ]

  inserted-work :
      (s : Life) (e : LifecycleEvent) (t : List LifecycleEvent) (offer : String) (now : Moment)
      → work t ≡ 0
      → s.events ≡ insert_event e t
      → work
          (finish_inserted R H access pricing project s e.event_id offer now
            (find_row event_key e.event_id s.events)).0.events
        ≡ 0
  unfolding insert_event
  inserted-work s e t offer now idle same =
      elim (Bool-cases
        (is_some (find_row event_key e.event_id t) || handled t e.result_id e.provider_offer_id)) [
          | inl ignored ↦ found_or_none-work s e.event_id offer now (ap work same ∙ rw ignored idle)
          | inr fresh ↦
              let grown : s.events ≡ t ++ e ∷ [] = same ∙ rw fresh refl in
              found-work s e.event_id offer now e
                (rw grown (
                  ground (
                    arith,
                    find_row-append event_key e.event_id t (e ∷ []),
                    str_eq_refl e.event_id,
                    fresh,
                  )))
                (rw grown (omega (arith, total-append work_of t e)))
        ]

  insert_settled :
      (e : LifecycleEvent) (t : List LifecycleEvent)
      → work_of e ≡ 0
      → work t ≡ 0
      → work (insert_event e t) ≡ 0
  unfolding insert_event
  insert_settled e t none_left idle = ground (arith, total-append work_of t e)

  recomputed-work :
      (s : Life) (d : Due) (offer : OfferSnapshot) (supports : List OfferSnapshot) (now : Moment)
      (out : Tables × Result Verdict)
      → work s.events ≡ 0
      → work (after_recompute R H access pricing project s d offer supports now out).0.events ≡ 0
  unfolding new_event downgrade_batch
  recomputed-work s d offer supports now (t, err e) idle = idle
  recomputed-work s d offer supports now (t, ok v) idle =
      elim (Bool-cases (is_confirmed v.verification_state)) [
        | inl held ↦ rw held (
            insert_settled (new_event R H access pricing project d offer supports true false now.ms)
              s.events refl idle)
        | inr lost ↦ rw lost (inserted-work _ _ s.events offer.provider_offer_id now idle refl)
      ]

  due-work :
      (s : Life) (now : Moment) (due : Option Due)
      → work s.events ≡ 0
      → work (handle_due R H access pricing project s now due).0.events ≡ 0
  unfolding handle_due
  due-work s now none idle = idle
  due-work s now (some d) idle = expired (supporting_offers R s.tables.offers d.result.result_id) (
      filter (λ o. is_expired R o.expires_at now.ms)
        (supporting_offers R s.tables.offers d.result.result_id))
    where
      expired :
          (supports es : List OfferSnapshot)
          → work (handle_expired R H access pricing project s d supports es now).0.events ≡ 0
      expired supports [] = idle
      expired supports (o ∷ os) = recomputed-work s d o supports now _ idle

  no_pending-work : (t : List LifecycleEvent) → length (filter is_pending t) ≡ 0 → work t ≡ 0
  no_pending-work [] h = refl
  no_pending-work (e ∷ t) h = ground (arith, no_pending-work t, h)

  turn-work :
      (s : Life) (now : Moment) (n : ℕ)
      → work s.events ≤ suc n
      → work (expire_at R H access pricing project s now).0.events ≤ n
  unfolding expire_at next_pending
  turn-work s now n h = elim (Option-cases (next_pending R H access pricing project s.events)) [
    | inl idle ↦
        let least : work s.events ≡ 0 =
          no_pending-work s.events
            (sym (length-order_by _ (filter is_pending s.events)) ∙ first-none _ idle) in
        rw (idle, expire_at) (omega (arith, due-work s now (next_due R s now) least))
    | inr (e, found) ↦
        let (i, p) =
          In-filter is_pending e s.events
            (In-order_by _ e (filter is_pending s.events) (first-In e _ found)) in
        rw (found, expire_at) (ground (arith, finish-work R H access pricing s e now i, p, h))
  ]

  -- The calls of consecutive ticks, whatever each of them answers or throws.
  unfoldable pub turns : List String → Life → Life
  turns [] s = s
  turns (now_iso ∷ rest) s =
      turns rest (expire_live_provider_offers R H access pricing project s now_iso).0

  -- Pending events come to an end: as many calls of expireLiveProviderOffers, at valid times, as there
  -- are repricings and corrections left to do leave none pending. It does not matter how many of the
  -- searches fail, what a recomputation throws, or which offers run out meanwhile.
  pub pending_drained :
      (times : List String) (s : Life)
      → All (λ t. is_some (R.parse t) ≡ true) times
      → work s.events ≤ length times
      → work (turns times s).events ≡ 0
  unfolding turns expire_live_provider_offers
  pending_drained [] s valid few = omega arith
  pending_drained (t ∷ ts) s (v, valid) few = elim (Option-cases (R.parse t)) [
    | inl bad ↦ cc
    | inr (ms, parsed) ↦
        pending_drained ts (expire_live_provider_offers R H access pricing project s t).0 valid (
          rw (parsed, expire_live_provider_offers)
            (turn-work s (record { iso = t; ms = ms }) (length ts) few))
  ]

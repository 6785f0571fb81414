-- ===== src/Agencies/Outcomes.antt =====
-- Which checkouts src/agency_checkout.ts hands out, and what a completed one proves.
use fareradar.Prelude.{
  ◌<◌, opt_str_eq-eq, ℕ, ◌≤◌, String, true, false, Option, some, List, ◌≡◌, refl, subst, inl, inr,
  leb, eq_iff, In, any, length, arith, Option-cases, ok, >>=-eq-ok,
}
use fareradar.Sql.{find_row, claim}
use fareradar.Sql.Claims.{Distinct, Distinct-update_where, In-claim, length-claim}
use fareradar.Db.{JobState, iso_after}
use fareradar.Runtime.{Runtime, Moment}
use fareradar.Priority.{is_pending}
use fareradar.Agencies.{
  AgencyOffer, CheckoutJob, CheckoutResult, reproduced, Agencies, is_closed, no_seats,
}
use fareradar.Agencies.Checkout.{
  checkout_key, offer_key, partner_ready, reclaim_checkout, reclaim_checkouts, lease_checkout,
  sql_ahead, on_market, checkout_due, checkout_limit, lease_agency_checkouts, AckState,
  AgencyCheckoutInput, seats_of, valid_checkout,
}
use fareradar.Agencies.Completing.{
  Outcome, completed, gone, deadlines, checkout_outcome, is_confirmed, holds_checkout, settle,
  settle_outcome, checkout_row, complete_new, complete_agency_checkout,
}

due_row :
    (R : Runtime) (offers : List AgencyOffer) (agency worker : String) (now : Moment) (until : ℕ)
    (r j : CheckoutJob)
    → j ≡ lease_checkout worker until now.ms r
    → checkout_due R offers agency now r ≡ true
    → (j.agency_id ≡ agency)
      × ((a : AgencyOffer) × (find_row offer_key j.agency_offer_id offers ≡ some a)
          × (on_market R now a ≡ true))
unfolding lease_checkout
due_row R offers agency worker now until r j e due =
    elim (Option-cases (find_row offer_key r.agency_offer_id offers)) [
      | inl lost ↦ absurd (ground (arith, due, lost))
      | inr (a, found) ↦
          let own : r.agency_id ≡ agency = (eq_iff r.agency_id agency).0 (ground (arith, due)) in
          let open_offer : on_market R now a ≡ true = ground (arith, due, found) in
          rw e (own, (a, found, open_offer))
    ]

-- An agency's worker is handed at most three checkouts, all of its own agency, and each of an offer that
-- is still on the market: neither expired nor sold out, with no seat count of 0, and before every
-- deadline that it has.
pub lease_on_market :
    (R : Runtime) (s s' : Agencies) (agency worker : String) (limit : Option ℕ) (now : Moment)
    (rows : List CheckoutJob)
    → Distinct checkout_key s.checkout_jobs
    → lease_agency_checkouts R s agency worker limit now ≡ ok (s', rows)
    → (length rows ≤ 3)
      × ((j : CheckoutJob)
          → In j rows
          → (j.agency_id ≡ agency)
            × ((a : AgencyOffer) × (find_row offer_key j.agency_offer_id s.offers ≡ some a)
                × (is_closed a.state ≡ false)
                × (no_seats a.seats_available ≡ false)
                × (sql_ahead R a.booking_deadline now ≡ true)
                × (sql_ahead R a.payment_deadline now ≡ true)
                × (sql_ahead R a.ticketing_deadline now ≡ true)))
unfolding lease_agency_checkouts reclaim_checkouts reclaim_checkout on_market
lease_on_market R s s' agency worker limit now rows d h =
    let lease = lease_checkout worker (iso_after now.ms 120) now.ms in
    let t = reclaim_checkouts agency now.ms s.checkout_jobs in
    let d' = Distinct-update_where checkout_key _ reclaim_checkout (λ j. refl) s.checkout_jobs d in
    let same : rows
        ≡ (claim checkout_key (checkout_due R s.offers agency now)
            (λ a b. leb a.created_at b.created_at) (checkout_limit limit) (λ j. is_pending j.state)
            lease t).1 =
      ground (arith, h) in
    let few =
      length-claim checkout_key (checkout_due R s.offers agency now)
        (λ a b. leb a.created_at b.created_at) (checkout_limit limit) (λ j. is_pending j.state)
        lease t d' in
    (
      rw same (omega (arith, few)),
      λ j i.
          let (r, _, e, due, _) =
            In-claim checkout_key (checkout_due R s.offers agency now) _ _ _ lease t j d'
              (subst (In j) same i) in
          let (own, (a, found, market)) =
            due_row R s.offers agency worker now (iso_after now.ms 120) r j e due in
          (
            own,
            (
              a,
              found,
              ground (arith, market),
              ground (arith, market),
              ground (arith, market),
              ground (arith, market),
              ground (arith, market),
            ),
          ),
    )

-- What the checks before a readback is settled have established.
pub record Admitted (R : Runtime) (s : Agencies) (i : AgencyCheckoutInput) (now : Moment)
    (j : CheckoutJob) (a : AgencyOffer) : Type 0 where
  pub row : checkout_row s i ≡ some (j, a)
  pub partner : partner_ready R s i.agency_id ≡ true
  pub own_offer : j.agency_offer_id ≡ i.agency_offer_id
  pub leased : j.state ≡ JobState.leased
  pub claimed : j.claimed_by ≡ some i.worker_id
  pub runs : (until : ℕ) × (j.lease_until ≡ some until) × (now.ms < until)
  pub seller : is_confirmed a.state ≡ true
  pub unpaid : i.payment_dispatched ≡ false

-- The two facts that a reproduced checkout of an offer rests on.
pub record Reproducible (R : Runtime) (i : AgencyCheckoutInput) (now : Moment) (a : AgencyOffer)
    : Type 0 where
  pub same_currency : i.currency ≡ a.currency
  pub taxes : i.total_includes_taxes ≡ true
  pub fees : i.total_includes_mandatory_fees ≡ true
  pub seats : no_seats (seats_of i.seats_available) ≡ false
  pub in_time : any (gone R now.ms) (deadlines a i) ≡ false

reproduced-Reproducible :
    (R : Runtime) (i : AgencyCheckoutInput) (now : Moment) (a : AgencyOffer)
    → (checkout_outcome R a i now.ms).result ≡ reproduced
    → Reproducible R i now a
unfolding checkout_outcome
reproduced-Reproducible R i now a h = record {
  same_currency = (eq_iff i.currency a.currency).0 (ground (arith, h));
  taxes = ground (arith, h);
  fees = ground (arith, h);
  seats = ground (arith, h);
  in_time = ground (arith, h);
}

pub settled :
    (s s' : Agencies) (j : CheckoutJob) (i : AgencyCheckoutInput) (o : Outcome) (now : ℕ)
    (k : AckState) (r : CheckoutResult)
    → settle s j i o now ≡ (s', completed k r)
    → o.result ≡ r
unfolding settle
settled s s' j i o now k r h = ground (arith, h)

unpaid_valid :
    (R : Runtime) (i : AgencyCheckoutInput) (now : Moment)
    → valid_checkout R i now ≡ ok tt
    → i.payment_dispatched ≡ false
unpaid_valid R i now h = ground (arith, h)

-- The lease of a checkout, field by field.
record Leased (j : CheckoutJob) (i : AgencyCheckoutInput) (now : ℕ) : Type 0 where
  own_offer : j.agency_offer_id ≡ i.agency_offer_id
  leased : j.state ≡ JobState.leased
  claimed : j.claimed_by ≡ some i.worker_id
  runs : (until : ℕ) × (j.lease_until ≡ some until) × (now < until)

holds_checkout-fields :
    (j : CheckoutJob) (i : AgencyCheckoutInput) (now : ℕ)
    → holds_checkout j i now ≡ true
    → Leased j i now
holds_checkout-fields j i now h = elim (Option-cases j.lease_until) [
  | inl never ↦ absurd (ground (arith, h, never))
  | inr (until, e) ↦ record {
    own_offer = (eq_iff j.agency_offer_id i.agency_offer_id).0 (ground (arith, h));
    leased = ground (arith, h);
    claimed = opt_str_eq-eq j.claimed_by i.worker_id (ground (arith, h));
    runs = (until, e, ground (arith, h, e));
  }
]

module _ (R : Runtime) (host : String → Option String) (s s' : Agencies) (i : AgencyCheckoutInput)
    (now : Moment) (k : AckState) (r : CheckoutResult) where
  new_inversion :
      complete_new R host s i now ≡ ok (s', completed k r)
      → i.payment_dispatched ≡ false
      → (j : CheckoutJob) × (a : AgencyOffer) × Admitted R s i now j a
        × (settle_outcome R s j a i now.ms ≡ (s', completed k r))
  unfolding complete_new
  new_inversion h paid = elim (Option-cases (checkout_row s i)) [
    | inl lost ↦ absurd (ground (arith, h, lost))
    | inr ((j, a), found) ↦
        let lease = holds_checkout-fields j i now.ms (ground (arith, h, found)) in
        (
          j,
          a,
          record {
            row = found;
            partner = ground (arith, h);
            own_offer = lease.own_offer;
            leased = lease.leased;
            claimed = lease.claimed;
            runs = lease.runs;
            seller = ground (arith, h, found);
            unpaid = paid;
          },
          ground (arith, h, found),
        )
  ]

  pub complete_inversion :
      complete_agency_checkout R host s i now ≡ ok (s', completed k r)
      → (j : CheckoutJob) × (a : AgencyOffer) × Admitted R s i now j a
        × (settle_outcome R s j a i now.ms ≡ (s', completed k r))
  unfolding complete_agency_checkout
  complete_inversion h =
      let (_, valid, h') = >>=-eq-ok (valid_checkout R i now) _ h in
      elim (Option-cases (find_row (λ e. e.checkout_id) i.checkout_id s.checkout_evidence)) [
        | inr (e, known) ↦ absurd (ground (arith, h', known))
        | inl fresh ↦ new_inversion (ground (arith, h', fresh)) (unpaid_valid R i now (cc valid))
      ]

-- A checkout counts as reproduced only on a complete proof: the job is LEASED and claimed by the worker
-- under a lease that ends later than now, it is of that offer and agency, the agency is enabled, the
-- seller had confirmed the offer, the currency is the offer's, taxes and mandatory fees are in the
-- total, the readback shows no seat count of 0, and no payment was sent. Neither the ticketing deadline
-- of the offer has passed, nor the booking and payment deadlines of the readback, for which the
-- offer's stand only where the readback gives none.
pub reproduced_proof :
    (R : Runtime) (host : String → Option String) (s s' : Agencies) (i : AgencyCheckoutInput)
    (now : Moment) (k : AckState)
    → complete_agency_checkout R host s i now ≡ ok (s', completed k reproduced)
    → (j : CheckoutJob) × (a : AgencyOffer) × Admitted R s i now j a × Reproducible R i now a
unfolding settle_outcome
reproduced_proof R host s s' i now k h =
    let (j, a, admitted, run) = complete_inversion R host s s' i now k reproduced h in
    (
      j,
      a,
      admitted,
      reproduced-Reproducible R i now a
          (settled _ s' j i (checkout_outcome R a i now.ms) now.ms k reproduced run),
    )

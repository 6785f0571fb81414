-- ===== src/Agencies/Soldout.antt =====
-- What the expiry of src/agency_expiry.ts does not see: an offer that a readback has found sold out.
use fareradar.Prelude.{
  ℕ, String, Option, ◌≡◌, ◌≢◌, subst, str_eq, eq_iff, In, In-filter, In-take, arith, ok,
}
use fareradar.Sql.{update_where}
use fareradar.Sql.Laws.{In-update_where}
use fareradar.Sql.Claims.{In-order_by}
use fareradar.Runtime.{Runtime, Moment}
use fareradar.Agencies.{AgencyOffer, CheckoutJob, sold_out, Agencies, may_expire, due_offers}
use fareradar.Agencies.Checkout.{AckState, ack_checkout_job, AgencyCheckoutInput}
use fareradar.Agencies.Completing.{
  Outcome, completed, checkout_outcome, sell_out, settle, settle_outcome, complete_agency_checkout,
}
use fareradar.Agencies.Outcomes.{settled, complete_inversion}

-- What settling a sold-out readback leaves.
record SoldOut (s s' : Agencies) (i : AgencyCheckoutInput) : Type 0 where
  same_db : s'.db ≡ s.db
  offers :
      s'.offers
      ≡ update_where (λ a. str_eq a.agency_offer_id i.agency_offer_id) (sell_out i) s.offers

settle-SoldOut :
    (s s' : Agencies) (j : CheckoutJob) (i : AgencyCheckoutInput) (o : Outcome) (now : ℕ)
    (k : AckState)
    → o.result ≡ sold_out
    → settle s j i o now ≡ (s', completed k sold_out)
    → SoldOut s s' i
unfolding settle ack_checkout_job
settle-SoldOut s s' j i o now k e h = record {
  same_db = ground (arith, h, e);
  offers = ground (arith, h, e);
}

-- A checkout that finds the offer sold out takes back nothing: the alerts and notifications that stand
-- for the offer are left as they were, and the offer is never due for the expiry that would cancel
-- them, at any time and for any limit, over the tables as the checkout left them.
pub sold_out_unseen :
    (R : Runtime) (host : String → Option String) (s s' : Agencies) (i : AgencyCheckoutInput)
    (now later : Moment) (k : AckState) (limit : ℕ)
    → complete_agency_checkout R host s i now ≡ ok (s', completed k sold_out)
    → (s'.db ≡ s.db)
      × ((a : AgencyOffer)
          → In a (due_offers R s' later limit)
          → a.agency_offer_id ≢ i.agency_offer_id)
unfolding settle_outcome due_offers
sold_out_unseen R host s s' i now later k limit h =
    let (j, a, admitted, run) = complete_inversion R host s s' i now k sold_out h in
    let left : SoldOut _ s' i =
      settle-SoldOut _ s' j i (checkout_outcome R a i now.ms) now.ms k
        (settled _ s' j i (checkout_outcome R a i now.ms) now.ms k sold_out run) run in
    (
      left.same_db,
      λ o due same.
          let (there, open_offer) =
            In-filter (may_expire R later) o s'.offers (In-order_by _ o _ (In-take _ o _ due)) in
          let (b, _, e) =
            In-update_where (λ (x : AgencyOffer). str_eq x.agency_offer_id i.agency_offer_id)
              (sell_out i) s.offers o (subst (In o) left.offers there) in
          ground (arith, open_offer, e, same, eq_iff b.agency_offer_id i.agency_offer_id),
    )

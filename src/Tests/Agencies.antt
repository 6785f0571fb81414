-- ===== src/Tests/Agencies.antt =====
-- The theorems of the agencies' offers and checkouts at concrete tables.
use fareradar.Prelude.{
  ℕ, ◌≤◌, String, true, false, Option, none, some, [], ◌∷◌, ◌≡◌, ◌≢◌, refl, In, length, Result, ok,
  err,
}
use fareradar.Prelude.Int.{pos}
use fareradar.Core.{finite}
use fareradar.Sql.{find_row}
use fareradar.Db.{JobState}
use fareradar.Runtime.{Moment}
use fareradar.Agencies.{
  OfferState, seller_confirmed, AgencyOffer, CheckoutJob, Partner, sold_out, Agencies, Expiry,
  payment_deadline_passed, is_closed, no_seats, agency_offer_expiry_reason, due_offers,
  expire_agency_offers,
}
use fareradar.Agencies.Closing.{Closed, expiry_closes}
use fareradar.Agencies.Checkout.{
  offer_key, sql_ahead, lease_agency_checkouts, AckState, AgencyCheckoutInput,
}
use fareradar.Agencies.Completing.{CheckoutAnswer, complete_agency_checkout}
use fareradar.Agencies.Outcomes.{Admitted, Reproducible, lease_on_market, reproduced_proof}
use fareradar.Agencies.Soldout.{sold_out_unseen}
use fareradar.Tests.{empty_db}
use fareradar.Tests.Offers.{runtime, at}

abbrev offer : Option ℕ → AgencyOffer
offer seats = record {
  agency_offer_id = "a1";
  agency_id = "g1";
  product_id = "t1";
  tax_inclusion = "INCLUDED";
  baggage = none;
  seller_verification_state = "VERIFIED_READBACK";
  price = 9000;
  currency = "TWD";
  seats_available = seats;
  booking_deadline = some "N";
  payment_deadline = some "E";
  ticketing_deadline = none;
  booking_or_contact_channel = "https://agency.example";
  observed_at = "E";
  state = seller_confirmed;
  expired_at = none;
  expiry_reason = none;
}

abbrev pub market_offer : AgencyOffer
market_offer = record (offer (some 4)) { booking_deadline = some "N"; payment_deadline = none }

abbrev job : JobState → CheckoutJob
job state = record {
  job_id = "agency-checkout:a1";
  agency_offer_id = "a1";
  agency_id = "g1";
  state = state;
  attempts = 1;
  available_at = 0;
  claimed_by = some "w1";
  lease_until = some 9000;
  last_error = none;
  created_at = 0;
  updated_at = 0;
}

abbrev partner : Partner
partner = record {
  agency_id = "g1";
  status = "ENABLED";
  verified_business = true;
  terms_snapshot_at = some "E";
  source_domain = some "agency.example";
}

abbrev pub agencies : AgencyOffer → JobState → Agencies
agencies a state = record {
  db = empty_db;
  offers = a ∷ [];
  checkout_jobs = job state ∷ [];
  checkout_evidence = [];
  events = [];
  partners = partner ∷ [];
}

abbrev pub early : Moment
early = record { iso = "E"; ms = 10 }

abbrev payment_passed : Expiry
payment_passed = record {
  reason = payment_deadline_passed;
  effective_at = "E";
  new_state = OfferState.expired;
}

expiry_closes_example :
    Closed empty_db "a1"
      (expire_agency_offers runtime (agencies (offer none) JobState.leased) (at 5000) 1).0
unfolding due_offers agency_offer_expiry_reason fareradar.Sql.order_by
expiry_closes_example =
    expiry_closes runtime (agencies (offer none) JobState.leased) (at 5000) (offer none)
      payment_passed refl refl

abbrev leased_row : CheckoutJob
leased_row = record (job JobState.leased) {
  attempts = 2;
  claimed_by = some "w2";
  lease_until = some 120010;
  updated_at = 10;
}

lease_on_market_example :
    (length (leased_row ∷ []) ≤ 3)
    × ((j : CheckoutJob)
        → In j (leased_row ∷ [])
        → (j.agency_id ≡ "g1")
          × ((a : AgencyOffer) × (find_row offer_key j.agency_offer_id (market_offer ∷ []) ≡ some a)
              × (is_closed a.state ≡ false)
              × (no_seats a.seats_available ≡ false)
              × (sql_ahead runtime a.booking_deadline early ≡ true)
              × (sql_ahead runtime a.payment_deadline early ≡ true)
              × (sql_ahead runtime a.ticketing_deadline early ≡ true)))
unfolding lease_agency_checkouts fareradar.Sql.claim fareradar.Sql.update_where
    fareradar.Sql.order_by fareradar.Agencies.Checkout.on_market
lease_on_market_example =
    lease_on_market runtime (agencies market_offer JobState.pending)
      (record (agencies market_offer JobState.pending) { checkout_jobs = leased_row ∷ [] }) "g1"
      "w2" none early (leased_row ∷ []) (refl, tt) refl

abbrev readback : ℕ → AgencyCheckoutInput
readback seats = record {
  checkout_id = "c1";
  job_id = "agency-checkout:a1";
  agency_offer_id = "a1";
  agency_id = "g1";
  worker_id = "w1";
  readback_basis = "PARTNER_BOOKING_API";
  checkout_url = "https://agency.example/checkout";
  content_sha256 = "0123456789abcdef0123456789abcdef0123456789abcdef0123456789abcdef";
  observed_at = "E";
  final_price = finite (pos 9100);
  currency = "TWD";
  seats_available = some (finite (pos seats));
  booking_deadline = none;
  payment_deadline = none;
  total_includes_taxes = true;
  total_includes_mandatory_fees = true;
  payment_dispatched = false;
}

abbrev pub host : String → Option String
host url = some "agency.example"

abbrev result_of : Result (Agencies × CheckoutAnswer) → Agencies
result_of (ok (s, a)) = s
result_of (err e) = agencies market_offer JobState.dead

reproduced_proof_example :
    (j : CheckoutJob) × (a : AgencyOffer) × Admitted runtime
      (agencies market_offer JobState.leased)
      (readback 4)
      early
      j
      a
    × Reproducible runtime (readback 4) early a
unfolding complete_agency_checkout fareradar.Agencies.Checkout.sha fareradar.Jobs.Search.is_iata
    fareradar.Agencies.Checkout.ack_checkout_job
reproduced_proof_example =
    reproduced_proof runtime host (agencies market_offer JobState.leased)
      (result_of (
        complete_agency_checkout runtime host (agencies market_offer JobState.leased) (readback 4)
          early))
      (readback 4) early AckState.done refl

sold_out_unseen_example :
    ((result_of (
        complete_agency_checkout runtime host
          (agencies market_offer JobState.leased)
          (readback 0)
          early)).db
      ≡ empty_db)
    × ((a : AgencyOffer)
        → In a (
            due_offers runtime
              (result_of (
                complete_agency_checkout runtime host
                  (agencies market_offer JobState.leased)
                  (readback 0)
                  early))
              (at 5000)
              1)
        → a.agency_offer_id ≢ "a1")
unfolding complete_agency_checkout fareradar.Agencies.Checkout.sha fareradar.Jobs.Search.is_iata
    fareradar.Agencies.Checkout.ack_checkout_job
sold_out_unseen_example =
    sold_out_unseen runtime host (agencies market_offer JobState.leased)
      (result_of (
        complete_agency_checkout runtime host (agencies market_offer JobState.leased) (readback 0)
          early))
      (readback 0) early (at 5000) AckState.done 1 refl

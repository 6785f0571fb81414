-- ===== src/Agencies/Completing.antt =====
-- src/agency_checkout.ts, completeAgencyCheckout.
use fareradar.Prelude.{
  ℕ, String, Bool, true, false, Option, none, some, List, [], ◌∷◌, ◌++◌, ◌&&◌, ◌||◌, not, str_eq,
  opt_str_eq, truthy, get_or, any, if◌then◌else◌, Result, ok, err, ◌>>=◌, ◌>>◌, assert, or_throw,
}
use Prim.Native.String.{◌++◌ as str_append}
use fareradar.Sql.{update_where, find_row}
use fareradar.Db.{deal, Payload}
use fareradar.Runtime.{Runtime, Moment}
use fareradar.Outbox.{IntentInput, enqueue_alert_intent}
use fareradar.Outbox.Notifications.{lease_runs}
use fareradar.Priority.{is_leased}
use fareradar.Agencies.{
  OfferState, seller_confirmed, checkout_reproduced, AgencyOffer, CheckoutJob, CheckoutResult,
  reproduced, sold_out, recheck_required, CheckoutEvidence, Agencies, no_seats, agency_itinerary,
}
use fareradar.Agencies.Checkout.{
  checkout_key, offer_key, partner_ready, AckState, ack_checkout_job, AgencyCheckoutInput, natural,
  seats_of, not_after, valid_checkout, assert_agency_url_allowed,
}

-- result, retryable and error.
pub record Outcome : Type 0 where
  pub result : CheckoutResult
  pub retryable : Bool
  pub error : Option String

pub data CheckoutAnswer : Type 0 where
  repeated : CheckoutResult → CheckoutAnswer
  completed : AckState → CheckoutResult → CheckoutAnswer

abbrev pub or_else : Option String → Option String → Option String
or_else none y = y
or_else (some x) y = some x

-- A deadline that parses and is not after now.
abbrev pub gone : Runtime → ℕ → Option String → Bool
gone R now none = false
gone R now (some t) = truthy t && not_after R t now

abbrev pub deadlines : AgencyOffer → AgencyCheckoutInput → List (Option String)
deadlines a i =
    or_else i.booking_deadline a.booking_deadline
    ∷ or_else i.payment_deadline a.payment_deadline
    ∷ a.ticketing_deadline
    ∷ []

-- The ifs after the lease is checked, in their order: a later one overrides an earlier one.
unfoldable pub checkout_outcome : Runtime → AgencyOffer → AgencyCheckoutInput → ℕ → Outcome
checkout_outcome R a i now =
    if not (str_eq i.currency a.currency)
    then record {
      result = recheck_required;
      retryable = true;
      error = some "AGENCY_CHECKOUT_CURRENCY_MISMATCH";
    }
    else if not i.total_includes_taxes || not i.total_includes_mandatory_fees
    then record {
      result = recheck_required;
      retryable = true;
      error = some "AGENCY_CHECKOUT_TOTAL_INCOMPLETE";
    }
    else (let late = any (gone R now) (deadlines a i) in
        let error = if late then some "AGENCY_CHECKOUT_DEADLINE_PASSED" else none in
        if no_seats (seats_of i.seats_available)
        then record { result = sold_out; retryable = false; error = error }
        else record {
          result = if late then recheck_required else reproduced;
          retryable = false;
          error = error;
        })

abbrev pub is_confirmed : OfferState → Bool
is_confirmed seller_confirmed = true
is_confirmed checkout_reproduced = true
is_confirmed _ = false

-- The lease of the job, on this offer.
abbrev pub holds_checkout : CheckoutJob → AgencyCheckoutInput → ℕ → Bool
holds_checkout j i now =
    str_eq j.agency_offer_id i.agency_offer_id
    && is_leased j.state
    && opt_str_eq j.claimed_by i.worker_id
    && lease_runs j.lease_until now

abbrev pub evidence_row : AgencyCheckoutInput → CheckoutResult → ℕ → CheckoutEvidence
evidence_row i r now = record {
  checkout_id = i.checkout_id;
  job_id = i.job_id;
  agency_offer_id = i.agency_offer_id;
  agency_id = i.agency_id;
  worker_id = i.worker_id;
  content_sha256 = i.content_sha256;
  final_price = get_or (natural i.final_price) 0;
  currency = i.currency;
  result_state = r;
  created_at = now;
}

abbrev pub sell_out : AgencyCheckoutInput → AgencyOffer → AgencyOffer
sell_out i a = record a {
  seats_available = some 0;
  observed_at = i.observed_at;
  state = OfferState.sold_out;
}

abbrev pub seats_or : Option ℕ → Option ℕ → Option ℕ
seats_or none old = old
seats_or (some n) old = some n

abbrev reproduce : AgencyCheckoutInput → AgencyOffer → AgencyOffer
reproduce i a = record a {
  seller_verification_state = "CHECKOUT_REPRODUCED";
  price = get_or (natural i.final_price) 0;
  seats_available = seats_or (seats_of i.seats_available) a.seats_available;
  booking_deadline = or_else i.booking_deadline a.booking_deadline;
  payment_deadline = or_else i.payment_deadline a.payment_deadline;
  observed_at = i.observed_at;
  state = checkout_reproduced;
}

abbrev pub write_offer : String → (AgencyOffer → AgencyOffer) → Agencies → Agencies
write_offer id f s = record s {
  offers = update_where (λ a. str_eq a.agency_offer_id id) f s.offers;
}

abbrev provisional : AgencyCheckoutInput → IntentInput
provisional i = record {
  intent_id =
      str_append "agency-checkout:" (str_append i.agency_offer_id (str_append ":" i.checkout_id));
  itinerary_id = agency_itinerary i.agency_offer_id;
  alert_class = deal;
  payload =
      Payload.agency_checkout_reproduced i.agency_offer_id i.agency_id
        (get_or (natural i.final_price) 0) i.currency i.checkout_id;
}

-- What follows the INSERT of the evidence.
unfoldable pub settle :
    Agencies → CheckoutJob → AgencyCheckoutInput → Outcome → ℕ → Agencies × CheckoutAnswer
settle s j i o now = elim o.result [
  | recheck_required ↦
      let (s', a) = ack_checkout_job s j false o.retryable o.error now in
      (s', completed a recheck_required)
  | sold_out ↦
      let (s', a) =
        ack_checkout_job (write_offer i.agency_offer_id (sell_out i) s) j true false none now in
      (s', completed a sold_out)
  | reproduced ↦
      let (s', a) =
        ack_checkout_job (write_offer i.agency_offer_id (reproduce i) s) j true false none now in
      (record s' { db = enqueue_alert_intent s'.db (provisional i) now }, completed a reproduced)
]

unfoldable pub settle_outcome :
    Runtime
    → Agencies
    → CheckoutJob
    → AgencyOffer
    → AgencyCheckoutInput
    → ℕ
    → Agencies × CheckoutAnswer
unfolding settle checkout_outcome
settle_outcome R s j a i now =
    let o = checkout_outcome R a i now in
    settle
      (record s { checkout_evidence = s.checkout_evidence ++ evidence_row i o.result now ∷ [] }) j i
      o now

abbrev same_checkout : CheckoutEvidence → AgencyCheckoutInput → Bool
same_checkout e i =
    str_eq e.job_id i.job_id
    && str_eq e.agency_offer_id i.agency_offer_id
    && str_eq e.agency_id i.agency_id
    && str_eq e.worker_id i.worker_id
    && str_eq e.content_sha256 i.content_sha256

-- agency_checkout_jobs JOIN agency_inventory_offers for the job and the agency.
abbrev pub checkout_row : Agencies → AgencyCheckoutInput → Option (CheckoutJob × AgencyOffer)
checkout_row s i = elim (find_row checkout_key i.job_id s.checkout_jobs) [
  | none ↦ none
  | some j ↦
      if str_eq j.agency_id i.agency_id
      then elim (find_row offer_key j.agency_offer_id s.offers) [
        | none ↦ none
        | some a ↦ some (j, a)
      ]
      else none
]

module _ (R : Runtime) (host : String → Option String) where
  -- A readback that is not known yet.
  unfoldable pub complete_new :
      Agencies → AgencyCheckoutInput → Moment → Result (Agencies × CheckoutAnswer)
  unfolding settle_outcome partner_ready assert_agency_url_allowed
  complete_new s i now = do
    assert (partner_ready R s i.agency_id) "AGENCY_PARTNER_NOT_ENABLED"
    row ← or_throw (checkout_row s i) "AGENCY_CHECKOUT_LIVE_LEASE_REQUIRED"
    assert (holds_checkout row.0 i now.ms) "AGENCY_CHECKOUT_LIVE_LEASE_REQUIRED"
    assert_agency_url_allowed host s i.agency_id i.checkout_url row.1.booking_or_contact_channel
    assert (is_confirmed row.1.state) "AGENCY_SELLER_CONFIRMATION_REQUIRED"
    ok (settle_outcome R s row.0 row.1 i now.ms)

  -- completeAgencyCheckout.
  unfoldable pub complete_agency_checkout :
      Agencies → AgencyCheckoutInput → Moment → Result (Agencies × CheckoutAnswer)
  unfolding complete_new
  complete_agency_checkout s i now = do
    valid_checkout R i now
    elim (find_row (λ e. e.checkout_id) i.checkout_id s.checkout_evidence) [
      | some e ↦
          if same_checkout e i
          then ok (s, repeated e.result_state)
          else err "AGENCY_CHECKOUT_IMMUTABLE_CONFLICT"
      | none ↦ complete_new s i now
    ]

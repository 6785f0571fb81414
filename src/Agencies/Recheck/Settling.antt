-- ===== src/Agencies/Recheck/Settling.antt =====
-- src/agency_recheck.ts, completeAgencyRecheck.
use fareradar.Prelude.{
  ℕ, String, Bool, true, false, Option, none, some, [], ◌∷◌, ◌++◌, ◌&&◌, str_eq, get_or,
  if◌then◌else◌, Result, ok, err, ◌>>=◌, ◌>>◌, assert, or_throw,
}
use Prim.Native.String.{◌++◌ as str_append}
use fareradar.Sql.{find_row}
use fareradar.Db.{deal, Payload}
use fareradar.Runtime.{Runtime, Moment}
use fareradar.Outbox.{IntentInput, enqueue_alert_intent}
use fareradar.Priority.{SignalAck, SignalAnswer, ack_candidate_signal}
use fareradar.Agencies.{OfferState, seller_confirmed, AgencyOffer, Agencies, agency_itinerary}
use fareradar.Agencies.Checkout.{
  partner_ready, enqueue_agency_checkout_job, natural, seats_of, assert_agency_url_allowed,
}
use fareradar.Agencies.Completing.{or_else, seats_or, write_offer}
use fareradar.Agencies.Recheck.{
  RecheckResult, confirmed, sold_out, recheck_required, RecheckEvidence, Rechecks,
  AgencyRecheckInput, valid_recheck, Outcome, recheck_outcome, holds_recheck, recheck_row,
}

-- `retryable` of an answer that asks for another recheck is always true.
pub data RecheckAnswer : Type 0 where
  repeated : RecheckResult → RecheckAnswer
  completed : SignalAnswer → RecheckResult → RecheckAnswer

abbrev pub evidence_row : AgencyRecheckInput → RecheckResult → RecheckEvidence
evidence_row i r = record {
  recheck_id = i.recheck_id;
  queue_id = i.queue_id;
  agency_offer_id = i.agency_offer_id;
  agency_id = i.agency_id;
  worker_id = i.worker_id;
  content_sha256 = i.content_sha256;
  result_state = r;
}

abbrev pub sell_out : AgencyRecheckInput → AgencyOffer → AgencyOffer
sell_out i a = record a {
  seats_available = some 0;
  observed_at = i.observed_at;
  state = OfferState.sold_out;
}

abbrev pub confirm : AgencyRecheckInput → AgencyOffer → AgencyOffer
confirm i a = record a {
  seller_verification_state = "VERIFIED_READBACK";
  price = get_or (natural i.price) 0;
  seats_available = seats_or (seats_of i.seats_available) a.seats_available;
  booking_deadline = or_else i.booking_deadline a.booking_deadline;
  payment_deadline = or_else i.payment_deadline a.payment_deadline;
  ticketing_deadline = or_else i.ticketing_deadline a.ticketing_deadline;
  observed_at = i.observed_at;
  state = seller_confirmed;
}

-- `a` is the offer as it was read before the writes.
abbrev provisional : AgencyRecheckInput → AgencyOffer → IntentInput
provisional i a = record {
  intent_id =
      str_append "agency-provisional:" (str_append i.agency_offer_id (str_append ":" i.recheck_id));
  itinerary_id = agency_itinerary i.agency_offer_id;
  alert_class = deal;
  payload =
      Payload.agency_provisional i.agency_offer_id i.agency_id a.product_id
        (get_or (natural i.price) 0) i.currency a.tax_inclusion a.baggage
        (seats_of i.seats_available) i.booking_deadline a.booking_or_contact_channel i.recheck_id
        i.readback_basis;
}

abbrev pub signal_ack : AgencyRecheckInput → Bool → Option Bool → Option String → SignalAck
signal_ack i succeeded retryable error = record {
  queue_id = i.queue_id;
  worker_id = some i.worker_id;
  succeeded = succeeded;
  retryable = retryable;
  error = error;
}

-- ackCandidateSignal, and what runs after it where it does not throw.
abbrev pub acknowledge :
    Rechecks
    → SignalAck
    → RecheckResult
    → (Agencies → Agencies)
    → ℕ
    → Rechecks × Result RecheckAnswer
acknowledge s k r next now = elim (ack_candidate_signal s.agencies.db k now) [
  | err e ↦ (s, err e)
  | ok (db, answer) ↦
      (record s { agencies = next (record s.agencies { db = db }) }, ok (completed answer r))
]

-- What a confirmation starts: the checkout of the offer, and an alert.
unfoldable pub start_checkout : AgencyRecheckInput → AgencyOffer → ℕ → Agencies → Agencies
start_checkout i a now s = record s {
  checkout_jobs = enqueue_agency_checkout_job s.checkout_jobs i.agency_offer_id i.agency_id now;
  db = enqueue_alert_intent s.db (provisional i a) now;
}

abbrev pub with_offers : (Agencies → Agencies) → Rechecks → Rechecks
with_offers f s = record s { agencies = f s.agencies }

-- What follows the INSERT of the evidence.
unfoldable pub settle :
    Rechecks → AgencyOffer → AgencyRecheckInput → Outcome → ℕ → Rechecks × Result RecheckAnswer
unfolding start_checkout
settle s a i o now = elim o.result [
  | recheck_required ↦
      acknowledge s (signal_ack i false (some o.retryable) o.error) recheck_required (λ t. t) now
  | sold_out ↦
      acknowledge (with_offers (write_offer i.agency_offer_id (sell_out i)) s)
        (signal_ack i true none none) sold_out (λ t. t) now
  | confirmed ↦
      acknowledge (with_offers (write_offer i.agency_offer_id (confirm i)) s)
        (signal_ack i true none none) confirmed (start_checkout i a now) now
]

abbrev pub same_recheck : RecheckEvidence → AgencyRecheckInput → Bool
same_recheck e i =
    str_eq e.queue_id i.queue_id
    && str_eq e.agency_offer_id i.agency_offer_id
    && str_eq e.agency_id i.agency_id
    && str_eq e.worker_id i.worker_id
    && str_eq e.content_sha256 i.content_sha256

module _ (R : Runtime) (host : String → Option String) where
  -- The guards of a readback that is not known yet, and the offer that it is about.
  unfoldable pub admit_recheck : Agencies → AgencyRecheckInput → Moment → Result AgencyOffer
  unfolding partner_ready assert_agency_url_allowed
  admit_recheck s i now = do
    assert (partner_ready R s i.agency_id) "AGENCY_PARTNER_NOT_ENABLED"
    row ← or_throw (recheck_row s i) "AGENCY_RECHECK_LIVE_LEASE_REQUIRED"
    assert (holds_recheck row.0 i now.ms) "AGENCY_RECHECK_LIVE_LEASE_REQUIRED"
    assert_agency_url_allowed host s i.agency_id i.source_url row.1.booking_or_contact_channel
    ok row.1

  unfoldable pub settle_recheck :
      Rechecks → AgencyOffer → AgencyRecheckInput → ℕ → Rechecks × Result RecheckAnswer
  unfolding settle recheck_outcome
  settle_recheck s a i now =
      let o = recheck_outcome R a i now in
      settle (record s { evidence = s.evidence ++ evidence_row i o.result ∷ [] }) a i o now

  unfoldable pub complete_new :
      Rechecks → AgencyRecheckInput → Moment → Rechecks × Result RecheckAnswer
  unfolding admit_recheck settle_recheck
  complete_new s i now = elim (admit_recheck s.agencies i now) [
    | err e ↦ (s, err e)
    | ok a ↦ settle_recheck s a i now.ms
  ]

  -- A recheck_id that is known is answered without a write.
  unfoldable pub known_or_new :
      Rechecks → AgencyRecheckInput → Moment → Rechecks × Result RecheckAnswer
  unfolding complete_new
  known_or_new s i now = elim (find_row (λ e. e.recheck_id) i.recheck_id s.evidence) [
    | some e ↦
        if same_recheck e i
        then (s, ok (repeated e.result_state))
        else (s, err "AGENCY_RECHECK_IMMUTABLE_CONFLICT")
    | none ↦ complete_new s i now
  ]

  -- completeAgencyRecheck.
  unfoldable pub complete_agency_recheck :
      Rechecks → AgencyRecheckInput → Moment → Rechecks × Result RecheckAnswer
  unfolding known_or_new
  complete_agency_recheck s i now = elim (valid_recheck R i now) [
    | err e ↦ (s, err e)
    | ok v ↦ known_or_new s i now
  ]

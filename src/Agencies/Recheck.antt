-- ===== src/Agencies/Recheck.antt =====
-- src/agency_recheck.ts: a seller's worker leases the signals of its agency's offers and answers each by a
-- readback of the offer. Writes that come before a throw stay, so the tables are returned beside the
-- answer. `host` is normalizeHost, the host name of an https URL.
pub mod Settling
pub mod Confirming
use fareradar.Prelude.{
  ℕ, String, Bool, true, false, Option, none, some, List, [], ◌∷◌, ◌++◌, ◌&&◌, ◌||◌, not, leb, ltb,
  min, str_eq, opt_str_eq, truthy, get_or, is_some, any, if◌then◌else◌, Result, ok, err, ◌>>=◌,
  ◌>>◌, assert, or_throw,
}
use Prim.Native.String.{◌++◌ as str_append}
use text.Mathlib.Text.{starts_with}
use fareradar.Core.{Number}
use fareradar.Sql.{update_where, find_row, claim, mem}
use fareradar.Db.{
  deal, Payload, CandidateSignal, SignalType, promotion, agency_clearance, RequiredVerification,
  live_reprice, seller_recheck, iso_after,
}
use fareradar.Runtime.{Runtime, Moment}
use fareradar.Outbox.{IntentInput, enqueue_alert_intent}
use fareradar.Outbox.Notifications.{lapsed, lease_runs}
use fareradar.Priority.{
  is_pending, is_leased, queue_key, before, reclaim_signal, lease_signal, SignalAck, SignalAnswer,
  ack_candidate_signal,
}
use fareradar.Jobs.Search.{is_iata}
use fareradar.Agencies.{
  OfferState, seller_confirmed, AgencyOffer, Agencies, no_seats, agency_itinerary,
}
use fareradar.Agencies.Checkout.{
  offer_key, sha, partner_ready, enqueue_agency_checkout_job, on_market, natural, valid_seats,
  seats_of, not_after, assert_agency_url_allowed,
}
use fareradar.Agencies.Completing.{or_else, seats_or, gone, write_offer}

pub data RecheckResult : Type 0 where
  confirmed sold_out recheck_required : RecheckResult

-- A row of agency_recheck_evidence, in the columns that are read again.
pub record RecheckEvidence : Type 0 where
  pub recheck_id : String
  pub queue_id : String
  pub agency_offer_id : String
  pub agency_id : String
  pub worker_id : String
  pub content_sha256 : String
  pub result_state : RecheckResult

pub record Rechecks : Type 0 where
  pub agencies : Agencies
  pub evidence : List RecheckEvidence

abbrev is_recheck : CandidateSignal → Bool
is_recheck q = elim q.signal_type [
  | agency_clearance ↦ elim q.required_verification [ seller_recheck ↦ true | live_reprice ↦ false ]
  | promotion ↦ false
]

abbrev is_clearance : SignalType → Bool
is_clearance agency_clearance = true
is_clearance promotion = false

-- The offer of a signal, if it is this agency's: the JOIN with agency_inventory_offers.
abbrev pub own_offer : List AgencyOffer → String → CandidateSignal → Option AgencyOffer
own_offer offers agency q = elim (find_row offer_key q.signal_id offers) [
  | none ↦ none
  | some a ↦ if str_eq a.agency_id agency then some a else none
]

unfoldable pub reclaim_rechecks :
    List AgencyOffer → String → ℕ → List CandidateSignal → List CandidateSignal
unfolding reclaim_signal
reclaim_rechecks offers agency now =
    update_where
      (λ q.
        is_leased q.state
        && lapsed q.lease_until now
        && is_clearance q.signal_type
        && is_some (own_offer offers agency q))
      reclaim_signal

abbrev pub recheck_due : Runtime → List AgencyOffer → String → Moment → CandidateSignal → Bool
recheck_due R offers agency now q =
    is_pending q.state
    && leb q.available_at now.ms
    && is_recheck q
    && elim (own_offer offers agency q) [ none ↦ false | some a ↦ on_market R now a ]

-- Math.min(Math.max(limit ?? 5, 1), 5).
abbrev recheck_limit : Option ℕ → ℕ
recheck_limit limit = let n = get_or limit 5 in min (if ltb n 1 then 1 else n) 5

-- leaseAgencyRechecks.
unfoldable pub lease_agency_rechecks :
    Runtime
    → Agencies
    → String
    → String
    → Option ℕ
    → Moment
    → Result (Agencies × List CandidateSignal)
unfolding reclaim_rechecks
lease_agency_rechecks R s agency worker limit now = do
  assert (truthy agency && truthy worker) "AGENCY_RECHECK_IDENTITY_REQUIRED"
  assert (partner_ready R s agency) "AGENCY_PARTNER_NOT_ENABLED"
  ok (
      let (t, rows) =
        claim queue_key (recheck_due R s.offers agency now) before (recheck_limit limit)
          (λ q. is_pending q.state) (lease_signal worker (iso_after now.ms 90))
          (reclaim_rechecks s.offers agency now.ms s.db.candidate_priority_queue) in
      (record s { db = record s.db { candidate_priority_queue = t } }, rows))

-- AgencyRecheckInput.
pub record AgencyRecheckInput : Type 0 where
  pub recheck_id : String
  pub queue_id : String
  pub agency_offer_id : String
  pub agency_id : String
  pub worker_id : String
  pub readback_basis : String
  pub source_url : String
  pub content_sha256 : String
  pub observed_at : String
  pub price : Number
  pub currency : String
  pub seats_available : Option Number
  pub booking_deadline : Option String
  pub payment_deadline : Option String
  pub ticketing_deadline : Option String
  pub anonymous_payment : Bool

-- The asserts before the first SELECT.
abbrev pub valid_recheck : Runtime → AgencyRecheckInput → Moment → Result (Unit {0})
valid_recheck R i now = do
  assert
      (truthy i.recheck_id
        && truthy i.queue_id
        && truthy i.agency_offer_id
        && truthy i.agency_id
        && truthy i.worker_id)
      "AGENCY_RECHECK_IDENTITY_REQUIRED"
  assert (mem i.readback_basis ("PARTNER_API" ∷ "PARTNER_PORTAL" ∷ "OFFICIAL_PRODUCT_PAGE" ∷ []))
      "AGENCY_RECHECK_BASIS_INVALID"
  assert (starts_with i.source_url "https://" && sha i.content_sha256)
      "AGENCY_RECHECK_EVIDENCE_INVALID"
  assert (not_after R i.observed_at now.ms) "AGENCY_RECHECK_TIME_INVALID"
  assert (is_some (natural i.price) && is_iata i.currency) "AGENCY_RECHECK_PRICE_INVALID"
  assert (valid_seats i.seats_available) "AGENCY_RECHECK_SEATS_INVALID"

abbrev pub recheck_deadlines : AgencyOffer → AgencyRecheckInput → List (Option String)
recheck_deadlines a i =
    or_else i.booking_deadline a.booking_deadline
    ∷ or_else i.payment_deadline a.payment_deadline
    ∷ or_else i.ticketing_deadline a.ticketing_deadline
    ∷ []

-- result, retryable and error.
pub record Outcome : Type 0 where
  pub result : RecheckResult
  pub retryable : Bool
  pub error : Option String

-- The ifs after the lease is checked, in their order: a later one overrides an earlier one.
unfoldable pub recheck_outcome : Runtime → AgencyOffer → AgencyRecheckInput → ℕ → Outcome
recheck_outcome R a i now =
    let late = any (gone R now) (recheck_deadlines a i) in
    let error = if late then some "AGENCY_RECHECK_DEADLINE_PASSED" else none in
    if not (str_eq i.currency a.currency)
    then record {
      result = recheck_required;
      retryable = true;
      error = some "AGENCY_RECHECK_CURRENCY_MISMATCH";
    }
    else if i.anonymous_payment
    then record {
      result = recheck_required;
      retryable = true;
      error = some "AGENCY_ANONYMOUS_PAYMENT_BLOCKED";
    }
    else if no_seats (seats_of i.seats_available)
    then record { result = sold_out; retryable = false; error = error }
    else record {
      result = if late then recheck_required else confirmed;
      retryable = false;
      error = error;
    }

-- The lease of the signal, on this offer.
abbrev pub holds_recheck : CandidateSignal → AgencyRecheckInput → ℕ → Bool
holds_recheck q i now =
    str_eq q.signal_id i.agency_offer_id
    && is_leased q.state
    && opt_str_eq q.claimed_by i.worker_id
    && lease_runs q.lease_until now

-- candidate_priority_queue JOIN agency_inventory_offers for the signal and the agency.
abbrev pub recheck_row : Agencies → AgencyRecheckInput → Option (CandidateSignal × AgencyOffer)
recheck_row s i = elim (find_row queue_key i.queue_id s.db.candidate_priority_queue) [
  | none ↦ none
  | some q ↦
      if is_recheck q
      then elim (own_offer s.offers i.agency_id q) [ none ↦ none | some a ↦ some (q, a) ]
      else none
]

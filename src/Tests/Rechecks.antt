-- ===== src/Tests/Rechecks.antt =====
-- The theorems of the sellers' rechecks at concrete tables.
use fareradar.Prelude.{String, false, none, some, [], ◌≡◌, refl}
use fareradar.Prelude.Int.{pos}
use fareradar.Core.{finite}
use fareradar.Db.{CandidateSignal, JobState, agency_clearance, seller_recheck}
use fareradar.Priority.{SignalAnswer}
use fareradar.Agencies.{AgencyOffer, Agencies}
use fareradar.Agencies.Recheck.{Rechecks, AgencyRecheckInput}
use fareradar.Agencies.Recheck.Settling.{complete_agency_recheck}
use fareradar.Agencies.Recheck.Confirming.{
  Admitted, Sellable, refused_recheck_unwritten, confirmed_recheck_proof,
}
use fareradar.Tests.{signal, with_signal}
use fareradar.Tests.Offers.{runtime}
use fareradar.Tests.Agencies.{agencies, market_offer, early, host}

-- The recheck of the offer, leased by "w1".
abbrev recheck_signal : CandidateSignal
recheck_signal = record signal {
  queue_id = "agency_clearance:a1";
  signal_type = agency_clearance;
  signal_id = "a1";
  required_verification = seller_recheck;
}

abbrev rechecks : Rechecks
rechecks = record {
  agencies = record (agencies market_offer JobState.dead) {
    db = with_signal recheck_signal;
    checkout_jobs = [];
  };
  evidence = [];
}

abbrev readback : String → AgencyRecheckInput
readback worker = record {
  recheck_id = "r1";
  queue_id = "agency_clearance:a1";
  agency_offer_id = "a1";
  agency_id = "g1";
  worker_id = worker;
  readback_basis = "PARTNER_API";
  source_url = "https://agency.example/offer";
  content_sha256 = "0123456789abcdef0123456789abcdef0123456789abcdef0123456789abcdef";
  observed_at = "E";
  price = finite (pos 9100);
  currency = "TWD";
  seats_available = some (finite (pos 4));
  booking_deadline = none;
  payment_deadline = none;
  ticketing_deadline = none;
  anonymous_payment = false;
}

refused_recheck_unwritten_example :
    (complete_agency_recheck runtime host rechecks (readback "w2") early).0 ≡ rechecks
unfolding complete_agency_recheck fareradar.Agencies.Checkout.sha fareradar.Jobs.Search.is_iata
refused_recheck_unwritten_example =
    refused_recheck_unwritten runtime host rechecks
      (complete_agency_recheck runtime host rechecks (readback "w2") early).0 (readback "w2") early
      "AGENCY_RECHECK_LIVE_LEASE_REQUIRED" refl

confirmed_recheck_proof_example :
    (q : CandidateSignal) × (a : AgencyOffer) × Admitted runtime rechecks.agencies
      (readback "w1")
      early
      q
      a
    × Sellable runtime (readback "w1") early a
unfolding complete_agency_recheck fareradar.Agencies.Checkout.sha fareradar.Jobs.Search.is_iata
    fareradar.Priority.ack_candidate_signal
confirmed_recheck_proof_example =
    confirmed_recheck_proof runtime host rechecks
      (complete_agency_recheck runtime host rechecks (readback "w1") early).0 (readback "w1") early
      SignalAnswer.done refl

-- ===== src/Tests/Queues.antt =====
-- The theorems of the candidate signals, the verification jobs and the four-leg cycles at concrete rows.
use fareradar.Prelude.Int.{negsuc}
use fareradar.Prelude.{
  Option, String, ◌≢◌, ℕ, true, false, none, some, [], ◌∷◌, ◌≡◌, refl, ◌≤◌, ◌⊎◌, length,
}
use fareradar.Sql.{find_row}
use fareradar.Db.{
  CandidateSignal, JobState, promotion, live_reprice, VerificationJob, external_heavy, provider_api,
}
use fareradar.Priority.{SignalInput, queue_key, lease_candidate_signals, enqueue_candidate_signal}
use fareradar.Priority.Scores.{observed_again}
use fareradar.Jobs.{Completion, ProviderLease, ProviderCompletion, lease_provider_jobs}
use fareradar.Jobs.Leases.{provider_lease_scope}
use fareradar.FourLeg.{
  CycleState, not_started, positioning_booked, at_external_origin, cycle_completed, broken, Cycle,
  Transition, Answer, cycle_key, transition_allowed, is_broken, same_state,
  transition_four_leg_cycle,
}
use fareradar.FourLeg.Order.{Explained, History, begin, advance, transition_refines}
use fareradar.Tests.{signal, with_signal, job, with_job}

abbrev seen_again : SignalInput
seen_again = record {
  signal_type = promotion;
  signal_id = "p1";
  required_verification = live_reprice;
  score_finite = true;
  priority_score = 70;
  route_scope_json = "[]";
  price_claim_json = none;
  source_evidence_id = "e2";
  observed_at = 30;
}

abbrev scored : CandidateSignal
scored = record signal {
  priority_score = 70;
  source_evidence_id = "e2";
  last_observed_at = 30;
  updated_at = 30;
}

observed_again_example :
    (s : CandidateSignal) × (find_row queue_key "promotion:p1"
        (with_signal scored).candidate_priority_queue
      ≡ some s)
    × (40 ≤ s.priority_score)
    × (s.state ≡ JobState.leased)
    × (s.claimed_by ≡ some "w1")
    × (s.lease_until ≡ some 9000)
    × (s.attempts ≡ 1)
    × (s.available_at ≡ 0)
    × (s.first_observed_at ≡ 5)
unfolding enqueue_candidate_signal fareradar.Sql.update_where fareradar.Priority.qid
observed_again_example =
    observed_again (with_signal signal) seen_again 30 (with_signal scored) "promotion:p1"
      "promotion:p1" signal refl refl

abbrev pending_job : VerificationJob
pending_job = record (job external_heavy JobState.pending 0) {
  lease_until = none;
  claimed_by = none;
}

abbrev leased_job : VerificationJob
leased_job = record (job external_heavy JobState.leased 1) {
  lease_until = some 60010;
  claimed_by = some "w2";
}

abbrev provider_pending : VerificationJob
provider_pending = record (job provider_api JobState.pending 0) {
  lease_until = none;
  claimed_by = none;
}

abbrev provider_leased : VerificationJob
provider_leased = record (job provider_api JobState.leased 1) {
  lease_until = some 90010;
  claimed_by = some "w2";
}

abbrev provider_lease : ProviderLease
provider_lease = record {
  provider_id = "duffel";
  worker_id = "w2";
  limit = none;
  verification_types = [];
}

provider_lease_scope_example :
    (length (provider_leased ∷ []) ≤ 5) ⊎ ((n : ℕ) × (provider_lease.limit ≡ some (negsuc n)))
unfolding lease_provider_jobs fareradar.Sql.claim fareradar.Sql.update_where fareradar.Sql.order_by
provider_lease_scope_example =
    (provider_lease_scope (λ t. true) false (with_job provider_pending) provider_lease 10
      (with_job provider_leased) (provider_leased ∷ []) (refl, tt) refl).0

abbrev failure : Completion
failure = record { job_id = "j1"; source_id = "s1"; success = false; error = none }

abbrev provider_done : VerificationJob
provider_done = record (job provider_api JobState.done 1) { lease_until = none; claimed_by = none }

abbrev provider_success : ProviderCompletion
provider_success = record {
  job_id = "j1";
  provider_id = "duffel";
  worker_id = "w2";
  success = true;
  error = none;
}

abbrev cycle : CycleState → Cycle
cycle state = record {
  cycle_id = "c1";
  itinerary_id = "it1";
  state = state;
  broken_reason = none;
  created_at = 0;
  updated_at = 0;
}

abbrev book : Transition
book = record { cycle_id = "c1"; to_state = positioning_booked; reason = none }

abbrev two_moves :
    History not_started (at_external_origin ∷ positioning_booked ∷ []) at_external_origin
unfolding transition_allowed
two_moves = advance at_external_origin (advance positioning_booked begin refl) refl

transition_refines_example :
    ((book.cycle_id ≢ book.cycle_id)
      × (find_row cycle_key "c1" (record (cycle positioning_booked) { updated_at = 9 } ∷ [])
          ≡ some (cycle not_started)))
    ⊎ ((book.cycle_id ≡ "c1")
        × (not_started ≡ positioning_booked)
        × (◌≡◌ {A = Answer}
            (record { state = positioning_booked; idempotent = false })
            (record { state = positioning_booked; idempotent = true }))
        × (record (cycle positioning_booked) { updated_at = 9 } ∷ [] ≡ cycle not_started ∷ []))
    ⊎ ((book.cycle_id ≡ "c1")
        × (transition_allowed not_started positioning_booked ≡ true)
        × (◌≡◌ {A = Answer}
            (record { state = positioning_booked; idempotent = false })
            (record { state = positioning_booked; idempotent = false }))
        × ((reason : Option String) × Explained book reason
            × (find_row cycle_key "c1" (record (cycle positioning_booked) { updated_at = 9 } ∷ [])
                ≡ some (record (cycle not_started) {
                  state = positioning_booked;
                  broken_reason = reason;
                  updated_at = 9;
                }))))
unfolding transition_four_leg_cycle same_state transition_allowed fareradar.FourLeg.move_cycle
    fareradar.Sql.update_where
transition_refines_example =
    transition_refines (cycle not_started ∷ []) book 9
      (record (cycle positioning_booked) { updated_at = 9 } ∷ [])
      (record { state = positioning_booked; idempotent = false }) "c1" (cycle not_started) refl refl

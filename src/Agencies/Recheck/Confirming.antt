-- ===== src/Agencies/Recheck/Confirming.antt =====
-- What a recheck of src/agency_recheck.ts proves, and that a refused one writes nothing.
use fareradar.Prelude.{
  ℕ, String, true, false, Option, none, some, ◌≡◌, refl, inl, inr, [], ◌∷◌, ◌++◌, arith, subst, any,
  eq_iff, Option-cases, Result-cases, ap, ok, err,
}
use fareradar.Sql.{find_row}
use fareradar.Db.{Db, CandidateSignal}
use fareradar.Runtime.{Runtime, Moment}
use fareradar.Priority.{
  queue_key, holds_lease, SignalAck, SignalAnswer, decide_ack, decide_write, apply_ack,
  signal_answer, ack_candidate_signal,
}
use fareradar.Agencies.{AgencyOffer, Agencies, no_seats}
use fareradar.Agencies.Checkout.{partner_ready, seats_of}
use fareradar.Agencies.Completing.{gone, write_offer}
use fareradar.Agencies.Recheck.{
  RecheckResult, confirmed, sold_out, recheck_required, Rechecks, AgencyRecheckInput,
  recheck_deadlines, Outcome, recheck_outcome, holds_recheck, recheck_row, valid_recheck,
}
use fareradar.Agencies.Recheck.Settling.{
  completed, evidence_row, signal_ack, with_offers, sell_out, confirm, start_checkout, settle,
  acknowledge, admit_recheck, settle_recheck, complete_new, known_or_new, complete_agency_recheck,
}

-- What the guards of a readback have established.
pub record Admitted (R : Runtime) (s : Agencies) (i : AgencyRecheckInput) (now : Moment)
    (q : CandidateSignal) (a : AgencyOffer) : Type 0 where
  pub row : recheck_row s i ≡ some (q, a)
  pub partner : partner_ready R s i.agency_id ≡ true
  pub leased : holds_recheck q i now.ms ≡ true

-- What a readback that confirms an offer says of it.
pub record Sellable (R : Runtime) (i : AgencyRecheckInput) (now : Moment) (a : AgencyOffer)
    : Type 0 where
  pub same_currency : i.currency ≡ a.currency
  pub named_payment : i.anonymous_payment ≡ false
  pub seats : no_seats (seats_of i.seats_available) ≡ false
  pub in_time : any (gone R now.ms) (recheck_deadlines a i) ≡ false

confirmed-Sellable :
    (R : Runtime) (i : AgencyRecheckInput) (now : Moment) (a : AgencyOffer)
    → (recheck_outcome R a i now.ms).result ≡ confirmed
    → Sellable R i now a
unfolding recheck_outcome
confirmed-Sellable R i now a h = record {
  same_currency = (eq_iff i.currency a.currency).0 (ground (arith, h));
  named_payment = ground (arith, h);
  seats = ground (arith, h);
  in_time = ground (arith, h);
}

admit_inversion :
    (R : Runtime) (host : String → Option String) (s : Agencies) (i : AgencyRecheckInput)
    (now : Moment) (a : AgencyOffer)
    → admit_recheck R host s i now ≡ ok a
    → (q : CandidateSignal) × Admitted R s i now q a
unfolding admit_recheck
admit_inversion R host s i now a h = elim (Option-cases (recheck_row s i)) [
  | inl lost ↦ absurd (ground (arith, h, lost))
  | inr ((q, b), found) ↦
      let same : b ≡ a = ground (arith, h, found) in
      (
        q,
        record {
          row = subst (λ x. recheck_row s i ≡ some (q, x)) same found;
          partner = ground (arith, h);
          leased = ground (arith, h, found);
        },
      )
]

lease_decided :
    (q : CandidateSignal) (k : SignalAck) (now : ℕ)
    → holds_lease q k.worker_id now ≡ true
    → decide_ack q k now ≡ ok (decide_write q k now)
unfolding decide_ack
lease_decided q k now h = ground (arith, h)

-- The acknowledgement of a signal whose lease runs goes through.
ack_accepted :
    (db : Db) (k : SignalAck) (now : ℕ) (q : CandidateSignal)
    → find_row queue_key k.queue_id db.candidate_priority_queue ≡ some q
    → holds_lease q k.worker_id now ≡ true
    → ack_candidate_signal db k now
      ≡ ok (
        apply_ack (decide_write q k now) q.signal_id k now db,
        signal_answer (decide_write q k now),
      )
unfolding ack_candidate_signal
ack_accepted db k now q found leased = rw (found, lease_decided q k now leased) refl

row_found :
    (s : Agencies) (i : AgencyRecheckInput) (q : CandidateSignal) (a : AgencyOffer)
    → recheck_row s i ≡ some (q, a)
    → find_row queue_key i.queue_id s.db.candidate_priority_queue ≡ some q
row_found s i q a h =
    elim (Option-cases (find_row queue_key i.queue_id s.db.candidate_priority_queue)) [
      | inl lost ↦ absurd (ground (arith, h, lost))
      | inr (p, e) ↦ let same : p ≡ q = ground (arith, h, e) in rw⁻¹ same e
    ]

acknowledge-answer :
    (s : Rechecks) (k : SignalAck) (r : RecheckResult) (next : Agencies → Agencies) (now : ℕ)
    (q : CandidateSignal)
    → find_row queue_key k.queue_id s.agencies.db.candidate_priority_queue ≡ some q
    → holds_lease q k.worker_id now ≡ true
    → (acknowledge s k r next now).1 ≡ ok (completed (signal_answer (decide_write q k now)) r)
acknowledge-answer s k r next now q found leased =
    rw (acknowledge, ack_accepted s.agencies.db k now q found leased) refl

-- Once the guards are passed, the readback is settled with an answer.
settle_answered :
    (s : Rechecks) (a : AgencyOffer) (i : AgencyRecheckInput) (o : Outcome) (now : ℕ)
    (q : CandidateSignal) (e : String)
    → find_row queue_key i.queue_id s.agencies.db.candidate_priority_queue ≡ some q
    → holds_lease q (some i.worker_id) now ≡ true
    → (settle s a i o now).1 ≡ err e
    → ⊥
unfolding settle
settle_answered s a i o now q e found leased h = ground (
  arith,
  h,
  acknowledge-answer s (signal_ack i false (some o.retryable) o.error) recheck_required (λ t. t) now
      q found leased,
  acknowledge-answer (with_offers (write_offer i.agency_offer_id (sell_out i)) s)
      (signal_ack i true none none) sold_out (λ t. t) now q found leased,
  acknowledge-answer (with_offers (write_offer i.agency_offer_id (confirm i)) s)
      (signal_ack i true none none) confirmed (start_checkout i a now) now q found leased,
)

confirmed_settled :
    (s s' : Rechecks) (a : AgencyOffer) (i : AgencyRecheckInput) (o : Outcome) (now : ℕ)
    (k : SignalAnswer)
    → settle s a i o now ≡ (s', ok (completed k confirmed))
    → o.result ≡ confirmed
unfolding settle
confirmed_settled s s' a i o now k h = ground (arith, h)

module _ (R : Runtime) (host : String → Option String) (s s' : Rechecks) (i : AgencyRecheckInput)
    (now : Moment) where
  new_refused : (e : String) → complete_new R host s i now ≡ (s', err e) → s' ≡ s
  unfolding complete_new settle_recheck
  new_refused e h = elim (Result-cases (admit_recheck R host s.agencies i now)) [
    | inl (a, admitted) ↦
        let (q, guards) = admit_inversion R host s.agencies i now a admitted in
        let o : Outcome = recheck_outcome R a i now.ms in
        let written : Rechecks = record s {
          evidence = s.evidence ++ evidence_row i o.result ∷ [];
        } in
        absurd (
          settle_answered written a i o now.ms q e (row_found s.agencies i q a guards.row)
            (ground (arith, guards.leased)) (ap (λ p. p.1) (rw (complete_new, admitted) at h)))
    | inr (m, refused) ↦ ground (arith, h, refused)
  ]

  -- Where completeAgencyRecheck throws, with whatever error, every table is left as it was: once the
  -- evidence is written, no later call of it throws.
  pub refused_recheck_unwritten :
      (e : String) → complete_agency_recheck R host s i now ≡ (s', err e) → s' ≡ s
  unfolding complete_agency_recheck known_or_new
  refused_recheck_unwritten e h = elim (Result-cases (valid_recheck R i now)) [
    | inr (m, refused) ↦ ground (arith, h, refused)
    | inl (v, valid) ↦ elim (Option-cases (find_row (λ x. x.recheck_id) i.recheck_id s.evidence)) [
      | inl fresh ↦ new_refused e (rw (complete_agency_recheck, known_or_new, valid, fresh) at h)
      | inr (x, known) ↦ ground (arith, h, valid, known)
    ]
  ]

  new_confirmed :
      (k : SignalAnswer)
      → complete_new R host s i now ≡ (s', ok (completed k confirmed))
      → (q : CandidateSignal) × (a : AgencyOffer) × Admitted R s.agencies i now q a
        × Sellable R i now a
  unfolding complete_new settle_recheck
  new_confirmed k h = elim (Result-cases (admit_recheck R host s.agencies i now)) [
    | inl (a, admitted) ↦
        let (q, guards) = admit_inversion R host s.agencies i now a admitted in
        let run = rw (complete_new, admitted) at h in
        (
          q,
          a,
          guards,
          confirmed-Sellable R i now a
              (confirmed_settled _ s' a i (recheck_outcome R a i now.ms) now.ms k run),
        )
    | inr (m, refused) ↦ absurd (ground (arith, h, refused))
  ]

  -- A recheck confirms an offer only where the agency is enabled, the worker holds the running lease
  -- of a recheck signal of this offer of this agency, the currency is the offer's, the payment is not
  -- anonymous, the readback shows no seat count of 0, and no deadline of the readback, or of the offer
  -- where the readback gives none, has passed.
  pub confirmed_recheck_proof :
      (k : SignalAnswer)
      → complete_agency_recheck R host s i now ≡ (s', ok (completed k confirmed))
      → (q : CandidateSignal) × (a : AgencyOffer) × Admitted R s.agencies i now q a
        × Sellable R i now a
  unfolding complete_agency_recheck known_or_new
  confirmed_recheck_proof k h = elim (Result-cases (valid_recheck R i now)) [
    | inr (m, refused) ↦ absurd (ground (arith, h, refused))
    | inl (v, valid) ↦ elim (Option-cases (find_row (λ x. x.recheck_id) i.recheck_id s.evidence)) [
      | inl fresh ↦ new_confirmed k (rw (complete_agency_recheck, known_or_new, valid, fresh) at h)
      | inr (x, known) ↦ absurd (ground (arith, h, valid, known))
    ]
  ]

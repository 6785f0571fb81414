-- ===== src/Priority/Leases.antt =====
-- What leaseCandidateSignals and ackCandidateSignal of src/priority.ts keep.
use fareradar.Prelude.{ℕ, ◌<◌, ◌≤◌, String, Option, some, ◌≡◌, refl, ◌&&◌, arith, length}
use fareradar.Sql.{find_row}
use fareradar.Sql.Laws.{find_row-update_where}
use fareradar.Sql.Claims.{Distinct, Distinct-update_where, length-claim, find_row-claim}
use fareradar.Db.{Db, JobState, RequiredVerification, CandidateSignal, iso_after}
use fareradar.Outbox.Notifications.{lapsed}
use fareradar.Priority.{
  is_pending, is_leased, eligible, before, queue_key, reclaim_signal, reclaim, lease_signal,
  lease_candidate_signals,
}

-- A lease hands out at most `limit` signals, and leaves a signal whose lease still runs as it is.
pub lease_signals_safe :
    (db : Db) (now : ℕ) (worker : String) (limit seconds : ℕ) (type : Option RequiredVerification)
    → Distinct queue_key db.candidate_priority_queue
    → (length (lease_candidate_signals db now worker limit seconds type).1 ≤ limit)
      × ((k : String) (r : CandidateSignal) (until : ℕ)
          → find_row queue_key k db.candidate_priority_queue ≡ some r
          → r.state ≡ JobState.leased
          → r.lease_until ≡ some until
          → now < until
          → find_row queue_key k
              (lease_candidate_signals db now worker limit seconds type).0.candidate_priority_queue
            ≡ some r)
unfolding lease_candidate_signals
lease_signals_safe db now worker limit seconds type d =
    let lease = lease_signal worker (iso_after now seconds) in
    let t = db.candidate_priority_queue in
    let d' = Distinct-update_where queue_key _ reclaim_signal (λ r. refl) t d in
    (
      length-claim queue_key (eligible now type) before limit (λ r. is_pending r.state) lease _ d',
      λ k r until e s l h.
          let kept : find_row queue_key k (reclaim now t) ≡ some r = ground (
            arith,
            find_row-update_where queue_key (λ x. is_leased x.state && lapsed x.lease_until now)
                reclaim_signal (λ x. refl) k t,
          ) in
          ground (
            arith,
            find_row-claim queue_key (eligible now type) before limit (λ x. is_pending x.state)
                lease (λ x. refl) (reclaim now t) k r d' kept,
          ),
    )

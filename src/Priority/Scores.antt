-- ===== src/Priority/Scores.antt =====
-- What enqueueCandidateSignal of src/priority.ts does to a signal that is known already.
use fareradar.Prelude.{ℕ, ◌≤◌, String, some, List, [], ◌∷◌, ◌≡◌, refl, ◌⊎◌, inl, inr, arith, ok}
use fareradar.Sql.{find_row}
use fareradar.Sql.Laws.{find_row-update_where, find_row-append}
use fareradar.Db.{Db, CandidateSignal}
use fareradar.Priority.{
  SignalInput, same_signal, refresh_signal, new_signal, upsert_signal, queue_key,
  enqueue_candidate_signal,
}

upsert_row :
    (i : SignalInput) (now : ℕ) (t : List CandidateSignal) (k : String) (r : CandidateSignal)
    → find_row queue_key k t ≡ some r
    → (find_row queue_key k (upsert_signal i now t) ≡ some r)
      ⊎ (find_row queue_key k (upsert_signal i now t) ≡ some (refresh_signal i now r))
unfolding upsert_signal
upsert_row i now t k r e = ground (
  arith,
  find_row-update_where queue_key (same_signal i) (refresh_signal i now) (λ x. refl) k t,
  find_row-append queue_key k t (new_signal i now ∷ []),
)

-- Observing a signal again never lowers its score, and never takes it out of the state it is in:
-- the lease, the attempts, the time it is available, and the time it was first observed are kept.
pub observed_again :
    (db : Db) (i : SignalInput) (now : ℕ) (db' : Db) (id k : String) (r : CandidateSignal)
    → enqueue_candidate_signal db i now ≡ ok (db', id)
    → find_row queue_key k db.candidate_priority_queue ≡ some r
    → (s : CandidateSignal) × (find_row queue_key k db'.candidate_priority_queue ≡ some s)
      × (r.priority_score ≤ s.priority_score)
      × (s.state ≡ r.state)
      × (s.claimed_by ≡ r.claimed_by)
      × (s.lease_until ≡ r.lease_until)
      × (s.attempts ≡ r.attempts)
      × (s.available_at ≡ r.available_at)
      × (s.first_observed_at ≡ r.first_observed_at)
unfolding enqueue_candidate_signal
observed_again db i now db' id k r h e =
    let table : db'.candidate_priority_queue ≡ upsert_signal i now db.candidate_priority_queue =
      ground arith in
    rw table (elim (upsert_row i now db.candidate_priority_queue k r e) [
      | inl kept ↦ (r, kept, omega arith, refl, refl, refl, refl, refl, refl)
      | inr new ↦ (refresh_signal i now r, new, ground arith, refl, refl, refl, refl, refl, refl)
    ])

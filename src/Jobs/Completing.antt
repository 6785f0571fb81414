-- ===== src/Jobs/Completing.antt =====
-- What completeVerificationJob and completeProviderJob answer and write.
use fareradar.Prelude.{
  ℕ, ◌<◌, ◌≤◌, String, true, false, none, some, List, ◌≡◌, refl, ◌⊎◌, inl, inr, ◌&&◌, arith,
  opt_str_eq, ok, str_eq, eq_iff, assert, >>=-eq-ok, is_some, Bool-cases, ltb, opt_str_eq-eq,
}
use fareradar.Sql.{update_where, find_row}
use fareradar.Sql.Laws.{find_row-update_where, find_row-key, insert_or_ignore-found}
use fareradar.Db.{
  Db, admin, AlertIntent, JobState, provider_api, VerificationJob, iso_after, retry_delay,
}
use fareradar.Outbox.{enqueue_alert_intent}
use fareradar.Jobs.{
  job_key, same_target, holds_job, Completion, CompletionState, done, retry, dead, done_job,
  retry_job, dead_job, write_job, job_intent, complete_verification_job, ProviderCompletion,
  finish_provider_job, complete_provider_job,
}

abbrev alarm : Completion → ℕ → AlertIntent
alarm i now = record {
  intent_id = (job_intent i).intent_id;
  itinerary_id = i.source_id;
  alert_class = admin;
  payload_json = (job_intent i).payload;
  projected_at = none;
  created_at = now;
}

row_written :
    (id : String) (f : VerificationJob → VerificationJob) (t : List VerificationJob)
    (r : VerificationJob)
    → ((x : VerificationJob) → job_key (f x) ≡ job_key x)
    → find_row job_key id t ≡ some r
    → find_row job_key id (update_where (λ x. str_eq x.job_id id) f t) ≡ some (f r)
row_written id f t r same e = ground (
  arith,
  find_row-update_where job_key (λ x. str_eq x.job_id id) f same id t,
  find_row-key job_key id t r e,
  eq_iff r.job_id id,
)

-- A completed job is DONE on success; on failure it waits for its delay while it has fewer than
-- five attempts, and is DEAD otherwise, with an ADMIN intent stored. In each case the job gives
-- its lease back.
completion_outcome :
    (db : Db) (i : Completion) (now : ℕ) (r : VerificationJob)
    → find_row job_key i.job_id db.verification_jobs ≡ some r
    → (db' : Db) × (s : CompletionState) × (complete_verification_job db i now ≡ ok (db', s))
      × ((q : VerificationJob) × (find_row job_key i.job_id db'.verification_jobs ≡ some q)
          × (q.lease_until ≡ none)
          × (q.claimed_by ≡ none)
          × (((i.success ≡ true) × (s ≡ done) × (q.state ≡ JobState.done))
              ⊎ ((i.success ≡ false)
                  × (r.attempts < 5)
                  × (s ≡ retry)
                  × (q.state ≡ JobState.pending)
                  × (q.available_at ≡ iso_after now (retry_delay r.attempts)))
              ⊎ ((i.success ≡ false)
                  × (5 ≤ r.attempts)
                  × (s ≡ dead)
                  × (q.state ≡ JobState.dead)
                  × (is_some (
                        find_row
                          (λ a. a.intent_id)
                          (job_intent i).intent_id
                          db'.candidate_alert_intents)
                      ≡ true))))
unfolding complete_verification_job done_job retry_job dead_job enqueue_alert_intent
completion_outcome db i now r e =
    let t = db.verification_jobs in
    elim (Bool-cases i.success) [
      | inl good ↦ (
        write_job i.job_id done_job db,
        done,
        ground arith,
        (
          done_job r,
          row_written i.job_id done_job t r (λ x. refl) e,
          refl,
          refl,
          inl (good, refl, refl),
        ),
      )
      | inr bad ↦ elim (Bool-cases (ltb r.attempts 5)) [
        | inl few ↦
            let f = retry_job (iso_after now (retry_delay r.attempts)) i in
            (
              write_job i.job_id f db,
              retry,
              ground arith,
              (
                f r,
                row_written i.job_id f t r (λ x. refl) e,
                refl,
                refl,
                inr (inl (bad, ground arith, refl, refl, refl)),
              ),
            )
        | inr many ↦ (
          enqueue_alert_intent (write_job i.job_id (dead_job i) db) (job_intent i) now,
          dead,
          ground arith,
          (
            dead_job i r,
            row_written i.job_id (dead_job i) t r (λ x. refl) e,
            refl,
            refl,
            inr (
                inr (
                  bad,
                  ground arith,
                  refl,
                  refl,
                  insert_or_ignore-found (λ a. a.intent_id) (alarm i now)
                      db.candidate_alert_intents,
                )),
          ),
        )
      ]
    ]

owner_row :
    (project : Db → String → ℕ → Db) (db : Db) (i : ProviderCompletion) (now : ℕ) (db' : Db)
    (s : CompletionState) (r : VerificationJob)
    → finish_provider_job project db i now r ≡ ok (db', s)
    → (r.state ≡ JobState.done) ⊎ (holds_job provider_api r i.worker_id now ≡ true)
unfolding finish_provider_job
owner_row project db i now db' s r h = ground arith

-- A provider's completion is accepted only for a job of that provider, and only from the worker
-- whose lease runs, or once the job is DONE.
provider_completion_owner :
    (project : Db → String → ℕ → Db) (db : Db) (i : ProviderCompletion) (now : ℕ) (db' : Db)
    (s : CompletionState) (r : VerificationJob)
    → find_row job_key i.job_id db.verification_jobs ≡ some r
    → complete_provider_job project db i now ≡ ok (db', s)
    → (r.target_class ≡ provider_api)
      × (r.provider_id ≡ some i.provider_id)
      × ((r.state ≡ JobState.done) ⊎ (holds_job provider_api r i.worker_id now ≡ true))
unfolding complete_provider_job
provider_completion_owner project db i now db' s r e h =
    let (_, checked, rest) =
      >>=-eq-ok
        (assert (same_target r.target_class provider_api && opt_str_eq r.provider_id i.provider_id)
          "PROVIDER_JOB_LEASE_REQUIRED")
        _ (rw e at h) in
    (
      ground arith,
      opt_str_eq-eq r.provider_id i.provider_id (ground arith),
      owner_row project db i now db' s r rest,
    )

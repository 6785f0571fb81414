-- ===== src/Jobs/Leases.antt =====
-- What leaseVerificationJobs and leaseProviderJobs hand out, and the lease checks of src/auth.ts.
use fareradar.Prelude.Int.{ℤ, pos, negsuc}
use fareradar.Prelude.{
  Option, none, ℕ, ◌≤◌, String, Bool, true, some, ltb, List, [], ◌∷◌, ◌≡◌, refl, ◌⊎◌, inl, inr,
  ◌&&◌, arith, length, filter, opt_str_eq, ok, str_eq, eq_iff, In, sym, subst, leb, Bool-cases,
  opt_str_eq-eq,
}
use fareradar.Sql.{mem, claim, sql_limit}
use fareradar.Sql.Claims.{
  Distinct, Distinct-update_where, length-claim, In-claim, find_row-returned,
}
use fareradar.Db.{Db, TargetClass, external_heavy, provider_api, VerificationJob, iso_after}
use fareradar.Priority.{is_pending}
use fareradar.Jobs.{
  job_key, same_target, reclaim_job, reclaim, lease_job, heavy_due, lease_verification_jobs,
  holds_job, worker_lease_allows_source, ProviderLease, provider_due, lease_provider_jobs,
  requested_types, provider_limit,
}

Distinct-reclaim :
    (target : TargetClass) (now : ℕ) (t : List VerificationJob)
    → Distinct job_key t
    → Distinct job_key (reclaim target now t)
unfolding reclaim
Distinct-reclaim target now t d = Distinct-update_where job_key _ reclaim_job (λ r. refl) t d

allowed_row :
    (s r : VerificationJob) (worker source : String) (until later : ℕ)
    → s ≡ lease_job worker until r
    → s.source_id ≡ some source
    → same_target r.target_class external_heavy ≡ true
    → (holds_job external_heavy s worker later && opt_str_eq s.source_id source) ≡ ltb later until
unfolding lease_job
allowed_row s r worker source until later e src t =
    ground (arith, eq_iff worker worker, eq_iff source source)

heavy_target :
    (r : VerificationJob) (now : ℕ)
    → heavy_due now r ≡ true
    → same_target r.target_class external_heavy ≡ true
heavy_target r now h = ground arith

mem-filter :
    (p : String → Bool) (k : String) (xs : List String) → mem k (filter p xs) ≡ true → p k ≡ true
mem-filter p k [] h = cc
mem-filter p k (x ∷ xs) h = elim (Bool-cases (p x)) [
  | inr dropped ↦ mem-filter p k xs (ground arith)
  | inl kept ↦ elim (Bool-cases (str_eq k x)) [
    | inl e ↦ subst (λ y. p y ≡ true) (sym ((eq_iff k x).0 e)) kept
    | inr e ↦ mem-filter p k xs (ground arith)
  ]
]

provider_row :
    (ready : String → Bool) (i : ProviderLease) (types : List String) (background : Bool) (now : ℕ)
    (r s : VerificationJob)
    → s ≡ lease_job i.worker_id (iso_after now 90) r
    → provider_due i (filter ready types) background now r ≡ true
    → (s.target_class ≡ provider_api)
      × (s.provider_id ≡ some i.provider_id)
      × (ready s.job_type ≡ true)
      × (s.available_at ≤ now)
      × ((s.user_request ≡ true) ⊎ (background ≡ true))
unfolding lease_job
provider_row ready i types background now r s e due =
    ground (arith, mem-filter ready r.job_type types, opt_str_eq-eq r.provider_id i.provider_id)

-- A heavy worker that is handed a job may deliver for the job's source, and for as long as the
-- lease runs: workerLeaseAllowsSource accepts it at every time before the lease ends, and at none
-- after.
leased_source_allowed :
    (db : Db) (now later : ℕ) (worker : String) (limit seconds : ℕ) (s : VerificationJob)
    (source : String)
    → Distinct job_key db.verification_jobs
    → In s (lease_verification_jobs db now worker limit seconds).1
    → s.source_id ≡ some source
    → worker_lease_allows_source
        (lease_verification_jobs db now worker limit seconds).0
        s.job_id
        worker
        source
        later
      ≡ ltb later (iso_after now seconds)
unfolding lease_verification_jobs worker_lease_allows_source
leased_source_allowed db now later worker limit seconds s source d i src =
    let lease = lease_job worker (iso_after now seconds) in
    let t = reclaim external_heavy now db.verification_jobs in
    let d' = Distinct-reclaim external_heavy now db.verification_jobs d in
    let (r, _, e, due, _) = In-claim job_key (heavy_due now) _ limit _ lease t s d' i in
    let there =
      find_row-returned job_key (heavy_due now) (λ a b. leb a.created_at b.created_at) limit
        (λ x. is_pending x.state) lease (λ x. refl) t s d' i in
    rw (there, worker_lease_allows_source)
      (allowed_row s r worker source (iso_after now seconds) later e src (heavy_target r now due))

provider_limit-five :
    (limit : Option ℤ) (t : List VerificationJob)
    → (sql_limit (provider_limit limit) t ≤ 5) ⊎ ((n : ℕ) × (limit ≡ some (negsuc n)))
provider_limit-five none t = inl (omega arith)
provider_limit-five (some (pos n)) t = inl (omega arith)
provider_limit-five (some (negsuc n)) t = inr (n, refl)

-- A provider's worker is handed jobs of its own provider only, of types for which the provider is ready,
-- past the time they are available, and those that no user asked for only if the provider allows
-- background work; and at most five of them, unless the request's limit is negative.
pub provider_lease_scope :
    (ready : String → Bool) (background : Bool) (db : Db) (i : ProviderLease) (now : ℕ) (db' : Db)
    (rows : List VerificationJob)
    → Distinct job_key db.verification_jobs
    → lease_provider_jobs ready background db i now ≡ ok (db', rows)
    → ((length rows ≤ 5) ⊎ ((n : ℕ) × (i.limit ≡ some (negsuc n))))
      × ((s : VerificationJob)
          → In s rows
          → (s.target_class ≡ provider_api)
            × (s.provider_id ≡ some i.provider_id)
            × (ready s.job_type ≡ true)
            × (s.available_at ≤ now)
            × ((s.user_request ≡ true) ⊎ (background ≡ true)))
unfolding lease_provider_jobs
provider_lease_scope ready background db i now db' rows d h =
    let allowed = filter ready (requested_types i.verification_types) in
    let lease = lease_job i.worker_id (iso_after now 90) in
    let t = reclaim provider_api now db.verification_jobs in
    let d' = Distinct-reclaim provider_api now db.verification_jobs d in
    let same : rows
        ≡ (claim job_key (provider_due i allowed background now)
            (λ a b. leb a.created_at b.created_at) (sql_limit (provider_limit i.limit) t)
            (λ r. is_pending r.state) lease t).1 =
      ground arith in
    let few =
      length-claim job_key (provider_due i allowed background now)
        (λ a b. leb a.created_at b.created_at) (sql_limit (provider_limit i.limit) t)
        (λ r. is_pending r.state) lease t d' in
    (
      elim (provider_limit-five i.limit t) [
        | inl five ↦ inl (rw same (omega (arith, few, five)))
        | inr unbounded ↦ inr unbounded
      ],
      λ s j.
          let (r, _, e, due, _) =
            In-claim job_key (provider_due i allowed background now) _ _ _ lease t s d'
              (subst (In s) same j) in
          provider_row ready i (requested_types i.verification_types) background now r s e due,
    )

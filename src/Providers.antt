-- ===== src/Providers.antt =====
-- src/provider_runtime.ts: what a provider's worker has read back, and whether a provider is ready.
-- JSON texts of capabilities are the lists that parseCaps reads from them; `parse` is Date.parse.
use fareradar.Prelude.{
  ℕ, ◌+◌, ◌*◌, min, String, Bool, true, false, Option, none, some, List, [], ◌∷◌, ◌≡◌, subst, ◌&&◌,
  ◌||◌, not, ltb, leb, str_eq, str_eq_refl, truthy, truthy_opt, get_or, is_some, find, arith,
  if◌then◌else◌, Result, ok, ◌>>=◌, ◌>>◌, assert, or_throw,
}
use fareradar.Sql.{mem, find_row}

pub record ProviderAccess : Type 0 where
  pub provider_id : String
  pub terms_snapshot_at : Option String
  pub kill_switch_state : String
  pub connector_state : String
  pub supported_verification : List String
  pub background_allowed : Bool
  pub look_to_book_budget : Option ℕ

pub record RuntimeReadback : Type 0 where
  pub provider_id : String
  pub worker_id : String
  pub connector_version : String
  pub credentials_present : Bool
  pub capabilities : List String
  pub checked_at : ℕ
  pub expires_at : ℕ

pub record ReadbackInput : Type 0 where
  pub provider_id : String
  pub worker_id : String
  pub connector_version : String
  pub credentials_present : Bool
  pub capabilities : List String
  pub ttl_seconds : Option ℕ

abbrev pub same_worker : String → String → RuntimeReadback → Bool
same_worker provider worker r = str_eq r.provider_id provider && str_eq r.worker_id worker

abbrev max : ℕ → ℕ → ℕ
max a b = if ltb a b then b else a

-- Math.min(900, Math.max(30, ttl_seconds ?? 300)).
unfoldable pub ttl_of : Option ℕ → ℕ
ttl_of ttl = min 900 (max 30 (get_or ttl 300))

-- The order and the repetitions of the capabilities change no answer: the list is only searched.
abbrev pub readback_row : ReadbackInput → ℕ → RuntimeReadback
readback_row i now = record {
  provider_id = i.provider_id;
  worker_id = i.worker_id;
  connector_version = i.connector_version;
  credentials_present = i.credentials_present;
  capabilities = i.capabilities;
  checked_at = now;
  expires_at = now + ttl_of i.ttl_seconds * 1000;
}

-- INSERT … ON CONFLICT(provider_id, worker_id) DO UPDATE.
unfoldable pub store_readback : RuntimeReadback → List RuntimeReadback → List RuntimeReadback
store_readback r [] = r ∷ []
store_readback r (x ∷ t) =
    let rest = store_readback r t in
    if same_worker r.provider_id r.worker_id x then r ∷ t else x ∷ rest

-- recordProviderRuntimeReadback.
unfoldable pub record_provider_runtime_readback :
    List ProviderAccess → List RuntimeReadback → ReadbackInput → ℕ → Result (List RuntimeReadback)
unfolding store_readback
record_provider_runtime_readback access t i now = do
  assert (truthy i.provider_id && truthy i.worker_id && truthy i.connector_version)
      "PROVIDER_READBACK_INVALID"
  p ← or_throw (find_row (λ a. a.provider_id) i.provider_id access) "PROVIDER_NOT_FOUND"
  ok (store_readback (readback_row i now) t)

pub data ReadyReason : Type 0 where
  provider_access_not_ready provider_background_not_allowed capability_not_allowed
        runtime_readback_missing runtime_capability_missing ready :
      ReadyReason

module _ (parse : String → Option ℕ) where
  -- currentTerms.
  abbrev pub current_terms : Option String → Bool
  current_terms v =
      truthy_opt v && not (str_eq (get_or v "") "RECHECK_REQUIRED") && is_some (parse (get_or v ""))

  abbrev access_ready : ProviderAccess → Bool
  access_ready p =
      str_eq p.kill_switch_state "CLEAR"
      && str_eq p.connector_state "IMPLEMENTED"
      && current_terms p.terms_snapshot_at

  abbrev runtime_ready : Option RuntimeReadback → String → ℕ → ReadyReason
  runtime_ready none type now = runtime_readback_missing
  runtime_ready (some r) type now =
      if not r.credentials_present || leb r.expires_at now
      then runtime_readback_missing
      else if not (mem type r.capabilities)
      then runtime_capability_missing
      else ready

  -- providerReady: the reason; `ready` of the code's answer is that the reason is `ready`.
  unfoldable pub provider_ready :
      List ProviderAccess → List RuntimeReadback → String → String → String → Bool → ℕ → ReadyReason
  provider_ready access t provider worker type background now =
      elim (find_row (λ a. a.provider_id) provider access) [
        | none ↦ provider_access_not_ready
        | some p ↦
            if not (access_ready p)
            then provider_access_not_ready
            else if background && not p.background_allowed
            then provider_background_not_allowed
            else if not (mem type p.supported_verification)
            then capability_not_allowed
            else runtime_ready (find (same_worker provider worker) t) type now
      ]

find-store_readback :
    (r : RuntimeReadback) (t : List RuntimeReadback)
    → find (same_worker r.provider_id r.worker_id) (store_readback r t) ≡ some r
unfolding store_readback
find-store_readback r [] = ground (arith, str_eq_refl r.provider_id, str_eq_refl r.worker_id)
find-store_readback r (x ∷ t) =
    ground (arith, find-store_readback r t, str_eq_refl r.provider_id, str_eq_refl r.worker_id)

-- A readback counts for its time to live, and no longer: the worker whose readback was recorded last is
-- READY exactly until `ttl_of` seconds after it, for a type that the readback and the provider both
-- have, with credentials, of a provider whose access is ready.
readback_counts :
    (parse : String → Option ℕ) (access : List ProviderAccess) (t t' : List RuntimeReadback)
    (i : ReadbackInput) (p : ProviderAccess) (type : String) (now later : ℕ)
    → record_provider_runtime_readback access t i now ≡ ok t'
    → find_row (λ a. a.provider_id) i.provider_id access ≡ some p
    → access_ready parse p ≡ true
    → mem type p.supported_verification ≡ true
    → mem type i.capabilities ≡ true
    → i.credentials_present ≡ true
    → provider_ready parse access t' i.provider_id i.worker_id type false later
      ≡ (if ltb later (now + ttl_of i.ttl_seconds * 1000) then ready else runtime_readback_missing)
unfolding record_provider_runtime_readback provider_ready
readback_counts parse access t t' i p type now later h found open_access supported capable
      credentials =
    let stored : store_readback (readback_row i now) t ≡ t' = ground (arith, h, found) in
    let here : find (same_worker i.provider_id i.worker_id) t' ≡ some (readback_row i now) =
      subst (λ u. (find (same_worker i.provider_id i.worker_id) u ≡ some (readback_row i now)))
        stored (find-store_readback (readback_row i now) t) in
    ground (arith, here, found, open_access, supported, capable, credentials)

-- ===== src/Auth.antt =====
-- src/auth.ts: which request is let in (authorizeRequest), for which paths and payloads a key counts
-- (principalRoleAllowsPath, principalScopeAllowsPath, principalAllowsPayload), the nonces that stop a
-- replay, and the worker's token. The lease checks of that file are in Jobs.
-- The Web platform is `Platform`: HMAC-SHA-256 as hexadecimal text, the SHA-256 digest, Number and
-- Date.parse. Times are whole milliseconds. A header that is absent is the empty text, as the source
-- reads it; `bearer` is the authorization header without its scheme.
pub mod Admission
pub mod Replay
pub mod Scopes
use fareradar.Prelude.{
  ℕ, ◌+◌, ◌-◌, String, Bool, true, false, Option, none, some, List, [], ◌∷◌, ◌++◌, ◌&&◌, ◌||◌, not,
  leb, ltb, str_eq, opt_str_eq, truthy, truthy_opt, any, filter, find, is_some, get_or,
  if◌then◌else◌,
}
use Prim.Native.String.{slice, len, ◌++◌ as str_append}
use text.Mathlib.Text.{starts_with}
use fareradar.Sql.{find_row, mem}

pub record Platform : Type 0 where
  pub sign : String → String → String
  pub sha256 : String → String
  pub number : String → Option ℕ
  pub parse_date : String → Option ℕ
  pub valid_nonce : String → Bool

pub record Request : Type 0 where
  pub method : String
  pub path : String
  pub body : String
  pub timestamp : String
  pub key_id : String
  pub nonce : String
  pub signature : String

pub record Principal : Type 0 where
  pub key_id : String
  pub role : String
  pub source_id : Option String
  pub agency_id : Option String
  pub provider_id : Option String
  pub legacy : Bool

-- A row of ingest_auth_keys; `allowed_paths` are the texts of allowed_paths_json, `none` where that is
-- not a JSON array.
pub record AuthKey : Type 0 where
  pub key_id : String
  pub role : String
  pub source_id : Option String
  pub agency_id : Option String
  pub provider_id : Option String
  pub secret_slot : String
  pub allowed_paths : Option (List String)
  pub enabled : Bool
  pub not_before : Option String
  pub expires_at : Option String

-- A row of used_request_nonces, whose primary key is (key_id, nonce).
pub record UsedNonce : Type 0 where
  pub key_id : String
  pub nonce : String
  pub request_sha256 : String
  pub used_at : ℕ
  pub expires_at : ℕ

-- `secrets` is what parseSecrets reads from INGEST_HMAC_SECRETS.
pub record AuthEnv : Type 0 where
  pub keys : List AuthKey
  pub nonces : List UsedNonce
  pub secrets : String → Option String
  pub allow_legacy : Bool
  pub legacy_secret : Option String

abbrev pub access_reviewer_paths : List String
access_reviewer_paths =
    "/audit/evidence" ∷ "/audit/evidence/readback" ∷ "/sources/onboarding/review"
    ∷ "/providers/access/review" ∷ "/access/reviews/readback" ∷ []

abbrev pub shadow_reviewer_paths : List String
shadow_reviewer_paths =
    "/shadow/reviews" ∷ "/shadow/reviews/readback" ∷ "/shadow/acceptance/readback" ∷ []

abbrev pub source_scoped_paths : List String
source_scoped_paths = "/ingest" ∷ "/ingest/email" ∷ []

abbrev pub agency_scoped_paths : List String
agency_scoped_paths =
    "/ingest/agency" ∷ "/agency-rechecks/lease" ∷ "/agency-rechecks/complete"
    ∷ "/agency-checkouts/lease" ∷ "/agency-checkouts/complete" ∷ []

abbrev pub provider_scoped_paths : List String
provider_scoped_paths =
    "/offers/ingest" ∷ "/pricing-quotes/ingest" ∷ "/providers/runtime/readback"
    ∷ "/provider-jobs/lease" ∷ "/provider-jobs/complete" ∷ "/provider-search/enqueue"
    ∷ "/checkout-reprice/enqueue" ∷ "/payment-profiles/upsert" ∷ []

-- timeValid.
abbrev pub time_valid : (String → Option ℕ) → Option String → ℕ → Bool → Bool
time_valid parse value now before =
    if not (truthy_opt value) then true else elim (parse (get_or value "")) [
      | none ↦ false
      | some t ↦ if before then leb t now else ltb now t
    ]

abbrev ends_with_slash : String → Bool
ends_with_slash s = str_eq (slice s (len s - 1) (len s)) "/"

-- pathAllowed.
unfoldable pub path_allowed : Option (List String) → String → Bool
path_allowed none path = false
path_allowed (some xs) path =
    any
      (λ x. starts_with x "/" && (if ends_with_slash x then starts_with path x else str_eq path x))
      xs

unfoldable pub principal_role_allows_path : String → String → Bool
principal_role_allows_path role path =
    if str_eq role "ACCESS_REVIEWER"
    then mem path access_reviewer_paths
    else if str_eq role "SHADOW_REVIEWER"
    then mem path shadow_reviewer_paths
    else true

abbrev two_of : Bool → Bool → Bool → Bool
two_of a b c = a && b || a && c || b && c

unfoldable pub principal_scope_allows_path :
    String → Option String → Option String → Option String → String → Bool
principal_scope_allows_path role source agency provider path =
    if str_eq role "ACCESS_REVIEWER" || str_eq role "SHADOW_REVIEWER"
    then true
    else if two_of (truthy_opt source) (truthy_opt agency) (truthy_opt provider)
    then false
    else if truthy_opt source
    then mem path source_scoped_paths
    else if truthy_opt agency
    then mem path agency_scoped_paths
    else if truthy_opt provider
    then mem path provider_scoped_paths
    else true

-- The fields of a payload that a scope is compared with.
pub record PayloadScope : Type 0 where
  pub source_id : Option String
  pub agency_id : Option String
  pub provider_id : Option String
  pub provider : Option String

-- `payload?.x !== p.x` for a scope that is set.
abbrev pub same_opt : Option String → Option String → Bool
same_opt claimed none = false
same_opt claimed (some s) = opt_str_eq claimed s

abbrev pub scope_holds : Bool → Option String → Option String → Bool
scope_holds applies scope claimed =
    not (applies && truthy_opt scope && not (same_opt claimed scope))

abbrev pub claimed_provider : PayloadScope → Option String
claimed_provider x = if is_some x.provider_id then x.provider_id else x.provider

unfoldable pub principal_allows_payload : Principal → PayloadScope → String → Bool
principal_allows_payload p x path =
    p.legacy
    || (scope_holds (mem path agency_scoped_paths) p.agency_id x.agency_id
        && scope_holds (mem path source_scoped_paths) p.source_id x.source_id
        && scope_holds (str_eq path "/sources/onboarding/review") p.source_id x.source_id
        && scope_holds (str_eq path "/providers/access/review") p.provider_id x.provider_id
        && scope_holds (mem path provider_scoped_paths) p.provider_id (claimed_provider x))

-- Math.abs(now-n)>300000 does not hold, for a number n.
abbrev pub is_recent : Option ℕ → ℕ → Bool
is_recent none now = false
is_recent (some n) now = leb (now - n + (n - now)) 300000

abbrev pub same_nonce : String → String → UsedNonce → Bool
same_nonce key nonce u = str_eq u.key_id key && str_eq u.nonce nonce

module _ (w : Platform) where
  -- [keyId,ts,nonce,req.method,path,bodyHash].join("\n"); the method is in upper case already.
  abbrev pub canonical : Request → String
  canonical r = str_append r.key_id (
      str_append "\n" (
        str_append r.timestamp (
          str_append "\n" (
            str_append r.nonce (
              str_append "\n" (
                str_append r.method
                  (str_append "\n" (str_append r.path (str_append "\n" (w.sha256 r.body))))))))))

  -- The tests on the key's row, in the source's order.
  unfoldable pub key_admits : AuthKey → Request → ℕ → Bool
  key_admits k r now =
      k.enabled
      && time_valid w.parse_date k.not_before now true
      && time_valid w.parse_date k.expires_at now false
      && path_allowed k.allowed_paths r.path
      && principal_role_allows_path k.role r.path
      && principal_scope_allows_path k.role k.source_id k.agency_id k.provider_id r.path

  -- The secret of the key's slot signs the request. safeEq is equality of texts.
  unfoldable pub signed_by : AuthEnv → AuthKey → Request → Bool
  signed_by env k r = elim (env.secrets k.secret_slot) [
    | none ↦ false
    | some secret ↦ truthy secret && str_eq r.signature (w.sign secret (canonical r))
  ]

  abbrev pub nonce_row : Request → ℕ → UsedNonce
  nonce_row r now = record {
    key_id = r.key_id;
    nonce = r.nonce;
    request_sha256 = w.sha256 (canonical r);
    used_at = now;
    expires_at = now + 600000;
  }

  abbrev pub principal_of : AuthKey → Principal
  principal_of k = record {
    key_id = k.key_id;
    role = k.role;
    source_id = k.source_id;
    agency_id = k.agency_id;
    provider_id = k.provider_id;
    legacy = false;
  }

  -- The branch of a request with a key, a nonce and a signature. The INSERT of a nonce that is used
  -- fails on the primary key.
  unfoldable pub authorize_key : AuthEnv → Request → ℕ → Option (Principal × List UsedNonce)
  unfolding key_admits signed_by
  authorize_key env r now =
      if not (w.valid_nonce r.nonce)
      then none
      else elim (find_row (λ k. k.key_id) r.key_id env.keys) [
        | none ↦ none
        | some k ↦
            if key_admits k r now
              && signed_by env k r
              && not (any (same_nonce r.key_id r.nonce) env.nonces)
            then some (principal_of k, env.nonces ++ nonce_row r now ∷ [])
            else none
      ]

  -- The branch of the old token.
  unfoldable pub authorize_legacy : AuthEnv → Request → Option Principal
  authorize_legacy env r =
      if env.allow_legacy
        && truthy_opt env.legacy_secret
        && truthy r.signature
        && str_eq r.signature
            (w.sign (get_or env.legacy_secret "") (str_append r.timestamp (str_append "." r.body)))
      then some (record {
        key_id = "legacy";
        role = "LEGACY_TEST_ONLY";
        source_id = none;
        agency_id = none;
        provider_id = none;
        legacy = true;
      })
      else none

  -- authorizeRequest: the principal, and the nonces after it.
  unfoldable pub authorize_request : AuthEnv → Request → ℕ → Option (Principal × List UsedNonce)
  unfolding authorize_key authorize_legacy
  authorize_request env r now =
      if not (is_recent (w.number r.timestamp) now)
      then none
      else if truthy r.key_id && truthy r.nonce && truthy r.signature
      then authorize_key env r now
      else elim (authorize_legacy env r) [ none ↦ none | some p ↦ some (p, env.nonces) ]

-- DELETE FROM used_request_nonces WHERE expires_at <= ?.
unfoldable pub cleanup_expired_nonces : ℕ → List UsedNonce → List UsedNonce
cleanup_expired_nonces now = filter (λ u. not (leb u.expires_at now))

-- workerTokenAuthorized: `header` is x-fare-worker-token, `bearer` the authorization header less its
-- scheme.
unfoldable pub worker_token_authorized : Option String → Option String → Option String → Bool
worker_token_authorized none header bearer = false
worker_token_authorized (some token) header bearer =
    let supplied = (if is_some header then get_or header "" else get_or bearer "") in
    truthy token && truthy supplied && str_eq supplied token

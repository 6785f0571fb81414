-- ===== src/Api.antt =====
-- src/worker.ts, `fetch`: the POST routes, each with its guards in the order of the code. A route is a
-- row of a table: who may call it, the role it wants, the checks that come before its operation, what
-- it answers when the operation succeeds, and the status of each error that it catches. The operations
-- themselves are the interface `Operations`. Not in the table: /candidate/evaluate, which is in
-- Candidates, /audit/evidence/readback and /candidate-priority/lease, which are in Special, and /health.
pub mod Routes
pub mod Guards
pub mod Candidates
pub mod Special
use fareradar.Prelude.{
  ℕ, String, Bool, true, false, Option, none, some, List, [], ◌∷◌, ◌++◌, ◌&&◌, ◌||◌, not, str_eq,
  opt_str_eq, truthy, truthy_opt, is_some, get_or, if◌then◌else◌, Result, ok, err, any,
}
use Prim.Native.String.{◌++◌ as str_append}
use text.Mathlib.Text.{find?}
use fareradar.Db.{Db}
use fareradar.Jobs.{worker_lease_allows_source, provider_lease_allows_job}
use fareradar.Auth.{Principal, PayloadScope, principal_allows_payload}

-- The fields of a request's body that the routes read themselves.
pub record Payload : Type 0 where
  pub scope : PayloadScope
  pub worker_id : Option String
  pub job_id : Option String
  pub lease_job_id : Option String
  pub source_snapshot_id : Option String
  pub source_job_id : Option String
  pub kind : Option String
  pub entity_id : Option String
  pub entity_type : Option String
  pub gate_id : Option String
  pub review_id : Option String
  pub spec_version : Option String
  pub commit_sha : Option String
  pub no_unresolved_items : Bool

-- `principal` is the answer of authorizeRequest, `token_ok` that of workerTokenAuthorized, and `body`
-- is `none` where JSON.parse throws.
pub record Caller : Type 0 where
  pub principal : Option Principal
  pub token_ok : Bool
  pub body : Option Payload

-- The service's settings as the routes read them; `parse_error` is the message of JSON.parse.
pub record Runtime : Type 0 where
  pub shadow_acceptance : Bool
  pub commit_sha : String
  pub commit_valid : Bool
  pub parse_error : String

pub data Guard : Type 0 where
  signed worker_token : Guard

pub data Check : Type 0 where
  parse_body parse_uncaught in_scope has_worker source_lease completes_lease shadow_mode
        runtime_commit access_scope audit_gate :
      Check
  provider_lease : (Payload → Option String) → String → Check

-- What a check does: let the request go on, answer it, throw inside the route's `try`, or throw
-- outside it.
pub data Outcome : Type 0 where
  go_on : Outcome
  refuse : ℕ → String → Outcome
  throw : String → Outcome
  escape : String → Outcome

-- `m === s ? code`, and `m.includes(s) ? code`.
pub data Rule : Type 0 where
  equals includes : String → ℕ → Rule

pub record Route : Type 0 where
  pub guard : Guard
  pub role : Option String
  pub checks : List Check
  pub success : ℕ
  pub catches : Bool
  pub rules : List Rule
  pub default : ℕ

pub data Response (B : Type 0) : Type 0 where
  reply : ℕ → B → Response B
  error : ℕ → String → Response B
  thrown : String → Response B

abbrev rule_status : Rule → String → Option ℕ
rule_status (equals s code) m = if str_eq m s then some code else none
rule_status (includes s code) m = if is_some (find? m s) then some code else none

-- The status of a caught error: the first rule that fits its message.
unfoldable pub error_status : List Rule → ℕ → String → ℕ
error_status [] default m = default
error_status (r ∷ rs) default m = elim (rule_status r m) [
  | some code ↦ code
  | none ↦ error_status rs default m
]

-- accessScopeAllows.
unfoldable pub access_scope_allows : Option String → Option String → String → Option String → Bool
access_scope_allows source provider type entity =
    if str_eq type "SOURCE"
    then not (truthy_opt source) || opt_str_eq entity (get_or source "")
    else if str_eq type "PROVIDER"
    then not (truthy_opt provider) || opt_str_eq entity (get_or provider "")
    else false

abbrev is_review_stage : Payload → Bool
is_review_stage x =
    opt_str_eq x.gate_id "TERMS_AND_PRIVACY_REVIEW" || opt_str_eq x.gate_id "ACCESS_BASIS_REVIEW"

abbrev expected_type : Payload → String
expected_type x = if opt_str_eq x.gate_id "TERMS_AND_PRIVACY_REVIEW" then "SOURCE" else "PROVIDER"

-- The tests of /audit/evidence on an access reviewer's evidence.
abbrev review_evidence_ok : Runtime → Principal → Payload → Bool
review_evidence_ok env p x =
    opt_str_eq x.spec_version "1.3"
    && opt_str_eq x.commit_sha env.commit_sha
    && opt_str_eq x.entity_type (expected_type x)
    && truthy_opt x.entity_id
    && truthy_opt x.review_id
    && x.no_unresolved_items
    && access_scope_allows p.source_id p.provider_id (get_or x.entity_type "") x.entity_id

-- The gate of /audit/evidence: a review stage is for access reviewers, and they have no other.
unfoldable pub audit_gate_outcome : Runtime → Principal → Payload → Outcome
audit_gate_outcome env p x =
    if str_eq p.role "ACCESS_REVIEWER"
    then (if not env.commit_valid
        then throw "RUNTIME_COMMIT_UNAVAILABLE"
        else if not (is_review_stage x)
        then refuse 403 "ACCESS_REVIEWER_FINAL_GATE_FORBIDDEN"
        else if not (review_evidence_ok env p x)
        then refuse 403 "ACCESS_REVIEW_EVIDENCE_SCOPE_MISMATCH"
        else go_on)
    else if is_review_stage x
    then refuse 403 "ACCESS_REVIEWER_REQUIRED"
    else go_on

abbrev require : Bool → ℕ → String → Outcome
require b code m = if b then go_on else refuse code m

-- The lease of /offers/ingest and /pricing-quotes/ingest, wanted of a provider's key only.
abbrev provider_lease_ok : Db → Principal → Payload → Option String → String → ℕ → Bool
provider_lease_ok db p x job type now =
    not (truthy_opt p.provider_id)
    || truthy_opt x.worker_id
      && truthy_opt job
      && provider_lease_allows_job db (get_or job "") (get_or x.worker_id "")
          (get_or p.provider_id "") (some type) now

abbrev kind_type : Option String → String
kind_type kind =
    if opt_str_eq kind "source"
    then "SOURCE"
    else if opt_str_eq kind "provider"
    then "PROVIDER"
    else ""

-- A check that reads the body and the principal.
unfoldable pub check_payload : Db → Runtime → String → ℕ → Check → Principal → Payload → Outcome
unfolding audit_gate_outcome
check_payload db env path now in_scope p x =
    require (principal_allows_payload p x.scope path) 403 "AUTH_SCOPE_MISMATCH"
check_payload db env path now (provider_lease job type) p x =
    require (provider_lease_ok db p x (job x) type now) 403 "LIVE_PROVIDER_LEASE_REQUIRED"
check_payload db env path now access_scope p x =
    require (access_scope_allows p.source_id p.provider_id (kind_type x.kind) x.entity_id) 403
      "AUTH_SCOPE_MISMATCH"
check_payload db env path now audit_gate p x = audit_gate_outcome env p x
check_payload db env path now has_worker p x =
    require (truthy_opt x.worker_id) 400 "WORKER_ID_REQUIRED"
check_payload db env path now source_lease p x =
    require
      (truthy_opt x.worker_id
        && truthy_opt x.lease_job_id
        && truthy_opt x.scope.source_id
        && worker_lease_allows_source db (get_or x.lease_job_id "") (get_or x.worker_id "")
            (get_or x.scope.source_id "") now)
      403 "LIVE_SOURCE_LEASE_REQUIRED"
check_payload db env path now completes_lease p x =
    require
      (truthy_opt x.worker_id
        && is_some x.job_id
        && is_some x.scope.source_id
        && worker_lease_allows_source db (get_or x.job_id "") (get_or x.worker_id "")
            (get_or x.scope.source_id "") now)
      403 "LIVE_SOURCE_LEASE_REQUIRED"
check_payload db env path now parse_body p x = go_on
check_payload db env path now parse_uncaught p x = go_on
check_payload db env path now shadow_mode p x =
    require env.shadow_acceptance 409 "SHADOW_REVIEW_MODE_REQUIRED"
check_payload db env path now runtime_commit p x =
    if env.commit_valid then go_on else throw "RUNTIME_COMMIT_UNAVAILABLE"

-- The principal of a route that asks for the worker's token only, whose checks read none.
abbrev no_principal : Principal
no_principal = record {
  key_id = "";
  role = "";
  source_id = none;
  agency_id = none;
  provider_id = none;
  legacy = false;
}

abbrev pub empty_payload : Payload
empty_payload = record {
  scope = record { source_id = none; agency_id = none; provider_id = none; provider = none };
  worker_id = none;
  job_id = none;
  lease_job_id = none;
  source_snapshot_id = none;
  source_job_id = none;
  kind = none;
  entity_id = none;
  entity_type = none;
  gate_id = none;
  review_id = none;
  spec_version = none;
  commit_sha = none;
  no_unresolved_items = false;
}

-- A body that does not parse throws where the route parses it; the checks after that are not reached,
-- and those before it do not read the body.
unfoldable pub run_check : Db → Runtime → String → ℕ → Principal → Option Payload → Check → Outcome
unfolding check_payload
run_check db env path now p none parse_body = throw env.parse_error
run_check db env path now p none parse_uncaught = escape env.parse_error
run_check db env path now p none c = check_payload db env path now c p empty_payload
run_check db env path now p (some x) c = check_payload db env path now c p x

unfoldable pub run_checks :
    Db → Runtime → String → ℕ → Principal → Option Payload → List Check → Outcome
unfolding run_check
run_checks db env path now p body [] = go_on
run_checks db env path now p body (c ∷ cs) =
    let rest = run_checks db env path now p body cs in
    elim (run_check db env path now p body c) [
      | go_on ↦ rest
      | refuse code m ↦ refuse code m
      | throw m ↦ throw m
      | escape m ↦ escape m
    ]

-- if(!principal)…401, and if(!workerTokenAuthorized(…))…401.
abbrev pub let_in : Guard → Caller → Bool
let_in signed c = is_some c.principal
let_in worker_token c = c.token_ok

abbrev pub caller_principal : Caller → Principal
caller_principal c = get_or c.principal no_principal

abbrev pub role_ok : Option String → Principal → Bool
role_ok none p = true
role_ok (some role) p = str_eq p.role role

-- The operations behind the routes, over the service's state: what each does to it, and its answer or
-- the error that it throws. `store_nonce` is the INSERT into used_request_nonces by which
-- authorizeRequest ends when it lets a key in.
pub record Operations (S B : Type 0) : Type 0 where
  pub db : S → Db
  pub store_nonce : S → S
  pub run : String → S → Principal → Option Payload → ℕ → S × Result B

abbrev caught : {B : Type 0} → Route → String → Response B
caught route m =
    if route.catches then error (error_status route.rules route.default m) m else thrown m

module _ {S B : Type 0} (ops : Operations S B) where
  abbrev answer : Route → S × Result B → S × Response B
  answer route (s, ok b) = (s, reply route.success b)
  answer route (s, err m) = (s, caught route m)

  unfoldable pub after_checks : Route → String → S → Caller → ℕ → Outcome → S × Response B
  after_checks route path s c now go_on =
      answer route (ops.run path s (caller_principal c) c.body now)
  after_checks route path s c now (refuse code m) = (s, error code m)
  after_checks route path s c now (throw m) = (s, caught route m)
  after_checks route path s c now (escape m) = (s, thrown m)

  -- The state once the caller is let in: a key's request has stored its nonce, the old token and the
  -- worker's token store none.
  abbrev pub let_in_state : Guard → S → Caller → S
  let_in_state worker_token s c = s
  let_in_state signed s c = if (caller_principal c).legacy then s else ops.store_nonce s

  -- One POST route.
  unfoldable pub serve : Runtime → Route → String → S → Caller → ℕ → S × Response B
  unfolding after_checks
  serve env route path s c now =
      let t = let_in_state route.guard s c in
      let checked =
        after_checks route path t c now
          (run_checks (ops.db t) env path now (caller_principal c) c.body route.checks) in
      if not (let_in route.guard c)
      then (s, error 401 "UNAUTHORIZED")
      else if not (role_ok route.role (caller_principal c))
      then (t, error 403 (str_append (get_or route.role "") "_REQUIRED"))
      else checked

-- ===== src/Tests/Access.antt =====
-- The theorems of keys, nonces, scopes and routes at concrete requests.
use fareradar.Prelude.{
  map, ℕ, ◌+◌, String, true, false, none, some, List, [], ◌∷◌, ◌≡◌, refl, ◌⊎◌, inl, inr, arith, ok,
  str_eq, if◌then◌else◌,
}
use fareradar.Auth.{
  Platform, Request, Principal, AuthKey, UsedNonce, AuthEnv, PayloadScope, access_reviewer_paths,
  shadow_reviewer_paths, source_scoped_paths, claimed_provider, provider_scoped_paths,
  agency_scoped_paths, is_recent, cleanup_expired_nonces, authorize_request, canonical, nonce_row,
  principal_of, principal_allows_payload,
}
use fareradar.Auth.Admission.{Admissible, authorize_request_iff}
use fareradar.Auth.Replay.{after_cleanup, replay_refused}
use fareradar.Api.{
  Payload, Caller, Runtime, Route, Response, reply, error, Operations, serve, caller_principal,
  empty_payload,
}
use fareradar.Api.Routes.{post}
use fareradar.Api.Guards.{compared_scope}
use fareradar.Core.{VerificationState, FacetStatus, required_facets}
use fareradar.Readiness.{ItineraryRow, FacetRow}
use fareradar.Api.Candidates.{CandidateRequest, CandidateAnswer, CandidateStore, readiness_of}
use fareradar.Db
use fareradar.Db.{Db, deal}
use fareradar.Audit.{
  AuditFields, AuditRow, AuditEvidenceInput, read_audit_evidence, evidence_immutable,
}
use fareradar.Providers.{ProviderAccess, ReadbackInput}
use fareradar.Tests.{empty_db, parse}

-- A platform whose signature of a message is the secret, and that reads one number.
abbrev platform : Platform
platform = record {
  sign = λ secret message. secret;
  sha256 = λ s. "hash";
  number = λ s. if str_eq s "1000000" then some 1000000 else none;
  parse_date = parse;
  valid_nonce = λ n. true;
}

abbrev key : AuthKey
key = record {
  key_id = "k1";
  role = "PROVIDER_WORKER";
  source_id = none;
  agency_id = none;
  provider_id = some "duffel";
  secret_slot = "slot";
  allowed_paths = some ("/provider-jobs/" ∷ []);
  enabled = true;
  not_before = none;
  expires_at = none;
}

abbrev environment : AuthEnv
environment = record {
  keys = key ∷ [];
  nonces = [];
  secrets = λ slot. some "sixteen-letters!";
  allow_legacy = false;
  legacy_secret = none;
}

abbrev request : Request
request = record {
  method = "POST";
  path = "/provider-jobs/lease";
  body = "{}";
  timestamp = "1000000";
  key_id = "k1";
  nonce = "nonce-nonce-nonce";
  signature = "sixteen-letters!";
}

abbrev principal : Principal
principal = principal_of platform key

abbrev used : List UsedNonce
used = nonce_row platform request 1000100 ∷ []

authorize_request_iff_example :
    (key : AuthKey) × Admissible platform environment request 1000100 key
    × (principal ≡ principal_of platform key)
    × (used ≡ nonce_row platform request 1000100 ∷ [])
unfolding authorize_request fareradar.Auth.path_allowed fareradar.Auth.principal_role_allows_path
    fareradar.Auth.principal_scope_allows_path
authorize_request_iff_example =
    (authorize_request_iff platform environment request 1000100 principal used refl).0 refl

replay_refused_example :
    authorize_request platform
      (after_cleanup platform environment request 1000100 1200000 1200001 used)
      request
      1200001
    ≡ none
unfolding authorize_request fareradar.Auth.path_allowed fareradar.Auth.principal_role_allows_path
    fareradar.Auth.principal_scope_allows_path
replay_refused_example =
    replay_refused platform environment request 1000100 1200000 1200001 principal used refl refl
      (omega arith)

abbrev claim_of : String → PayloadScope
claim_of provider = record {
  source_id = none;
  agency_id = none;
  provider_id = some provider;
  provider = none;
}

abbrev runtime : Runtime
runtime = record {
  shadow_acceptance = true;
  commit_sha = "c";
  commit_valid = true;
  parse_error = "Unexpected end";
}

-- Operations that count the requests that reach them.
abbrev counting : Operations ℕ String
counting = record {
  db = λ n. empty_db;
  store_nonce = λ n. n + 10;
  run = λ path n p body now. (n + 1, ok "done");
}

abbrev body : Payload
body = record empty_payload { scope = claim_of "duffel" }

abbrev caller : Caller
caller = record { principal = some principal; token_ok = false; body = some body }

compared_scope_example :
    (◌≡◌ {A = ℕ} 11 0)
    ⊎ (◌≡◌ {A = ℕ} 11 10)
    ⊎ ((x : Payload) × (caller.body ≡ some x)
        × (principal_allows_payload (caller_principal caller) x.scope "/provider-jobs/lease"
            ≡ true))
unfolding post serve fareradar.Api.run_checks principal_allows_payload
compared_scope_example =
    compared_scope counting runtime "/provider-jobs/lease" 0 11 caller 10 (reply 200 "done")
      (inr (inr (inr (inr (inl refl))))) refl

abbrev itinerary : ItineraryRow
itinerary = record { verification_state = VerificationState.confirmed; cost_complete = true }

abbrev candidate : CandidateRequest
candidate = record {
  itinerary_id = "it1";
  has_actionable = false;
  has_provisional_trigger = false;
  has_payload = false;
  has_intent_id = false;
  alert_class = none;
}

abbrev ready_rows : List FacetRow
ready_rows =
    map (λ type. record { facet_type = type; status = FacetStatus.pass; expires_at = some "later" })
      required_facets

abbrev alert : fareradar.Db.Payload × String
alert = (fareradar.Db.Payload.stored "alert", "t1")

abbrev store : CandidateStore
store = record {
  db = empty_db;
  itinerary_row = λ id. some itinerary;
  facet_rows = λ id. ready_rows;
  canonical_alert = λ id now. ok alert;
}

abbrev queued_db : Db
queued_db = record empty_db {
  candidate_alert_intents =
      record {
        intent_id = "deal:it1:t1";
        itinerary_id = "it1";
        alert_class = deal;
        payload_json = fareradar.Db.Payload.stored "alert";
        projected_at = none;
        created_at = 60;
      }
      ∷ [];
}

abbrev accepted : CandidateAnswer
accepted = record { queued = true; readiness = readiness_of parse store "it1" 60 }

abbrev audit_fields : AuditFields
audit_fields = record {
  gate_id = "GATE";
  spec_version = "1.3";
  test_report_hash = "hash";
  created_at = "soon";
  provider_readback = "null";
  unresolved_items = "[]";
  nullable = none ∷ [];
}

abbrev audit_row : AuditRow
audit_row = record { evidence_id = "a1"; fields = audit_fields }

abbrev audit_input : AuditEvidenceInput
audit_input = record {
  evidence_id = "a2";
  fields = audit_fields;
  hash_valid = true;
  created_at_valid = true;
}

abbrev second_row : AuditRow
second_row = record { evidence_id = "a2"; fields = audit_fields }

evidence_immutable_example :
    read_audit_evidence (audit_row ∷ second_row ∷ []) "a1" ≡ ok (some audit_row)
unfolding fareradar.Audit.record_audit_evidence read_audit_evidence
evidence_immutable_example =
    evidence_immutable (audit_row ∷ []) (audit_row ∷ second_row ∷ []) audit_input false "a1"
      audit_row refl refl

abbrev access : ProviderAccess
access = record {
  provider_id = "duffel";
  terms_snapshot_at = some "soon";
  kill_switch_state = "CLEAR";
  connector_state = "IMPLEMENTED";
  supported_verification = "LIVE_REPRICE" ∷ [];
  background_allowed = false;
  look_to_book_budget = none;
}

abbrev readback : ReadbackInput
readback = record {
  provider_id = "duffel";
  worker_id = "w1";
  connector_version = "1";
  credentials_present = true;
  capabilities = "LIVE_REPRICE" ∷ [];
  ttl_seconds = none;
}

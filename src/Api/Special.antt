-- ===== src/Api/Special.antt =====
-- src/worker.ts: the routes /audit/evidence/readback and /candidate-priority/lease, which answer by what
-- they have read.
use fareradar.Prelude.Int.{ℤ}
use fareradar.Prelude.{
  ℕ, String, Bool, true, false, Option, none, some, List, ◌≡◌, ◌&&◌, str_eq, truthy_opt, get_or,
  arith, Result, ok, err, if◌then◌else◌,
}
use fareradar.Db.{Db, CandidateSignal, RequiredVerification, live_reprice, seller_recheck}
use fareradar.Sql.{sql_limit}
use fareradar.Jobs.{provider_limit}
use fareradar.Priority.{lease_candidate_signals}
use fareradar.Providers.{ProviderAccess, RuntimeReadback, ReadyReason, ready, provider_ready}
use fareradar.Auth.{Principal}
use fareradar.Api.{Response, reply, error, access_scope_allows}

-- The columns of the evidence that the readback compares; the rest goes into the answer.
pub record ReadEvidence : Type 0 where
  pub entity_type : Option String
  pub entity_id : Option String
  pub evidence : String

abbrev in_reach : Principal → ReadEvidence → Bool
in_reach p e =
    truthy_opt e.entity_type
    && truthy_opt e.entity_id
    && access_scope_allows p.source_id p.provider_id (get_or e.entity_type "") e.entity_id

abbrev show_evidence : Principal → Option ReadEvidence → Response (Option ReadEvidence)
show_evidence p none = reply 200 none
show_evidence p (some e) =
    if in_reach p e then reply 200 (some e) else error 403 "AUTH_SCOPE_MISMATCH"

abbrev answer_read : Principal → Result (Option ReadEvidence) → Response (Option ReadEvidence)
answer_read p (ok e) = show_evidence p e
answer_read p (err m) = error 400 m

-- /audit/evidence/readback: `read` is what parsing the body and readAuditEvidence come to.
unfoldable pub evidence_readback :
    Option Principal → Result (Option ReadEvidence) → Response (Option ReadEvidence)
evidence_readback none read = error 401 "UNAUTHORIZED"
evidence_readback (some p) read =
    if str_eq p.role "ACCESS_REVIEWER"
    then answer_read p read
    else error 403 "ACCESS_REVIEWER_REQUIRED"

-- Evidence is shown only to an access reviewer, and only where it is of an entity in the key's scope.
shown_in_scope :
    (p : Principal) (read : Result (Option ReadEvidence)) (e : ReadEvidence)
    → evidence_readback (some p) read ≡ reply 200 (some e)
    → (str_eq p.role "ACCESS_REVIEWER" ≡ true) × (in_reach p e ≡ true)
unfolding evidence_readback
shown_in_scope p (ok none) e h = ground (arith, h)
shown_in_scope p (ok (some r)) e h = ground (arith, h)
shown_in_scope p (err m) e h = ground (arith, h)

pub record LeaseRequest : Type 0 where
  pub provider_id : String
  pub worker_id : String
  pub verification_type : RequiredVerification
  pub limit : Option ℤ

abbrev type_text : RequiredVerification → String
type_text live_reprice = "LIVE_REPRICE"
type_text seller_recheck = "SELLER_RECHECK"

abbrev is_ready : ReadyReason → Bool
is_ready ready = true
is_ready _ = false

-- /candidate-priority/lease, for a caller that is let in and a body that parses: the answer is the
-- signals, or the reason that the provider is not ready, with 409.
unfoldable pub lease_for_provider :
    (String → Option ℕ)
    → List ProviderAccess
    → List RuntimeReadback
    → Db
    → LeaseRequest
    → ℕ
    → Option (Db × List CandidateSignal)
lease_for_provider parse access readbacks db p now =
    let leased =
      lease_candidate_signals db now p.worker_id
        (sql_limit (provider_limit p.limit) db.candidate_priority_queue) 90
        (some p.verification_type) in
    if is_ready (
      provider_ready parse access readbacks p.provider_id p.worker_id
        (type_text p.verification_type) true now)
    then some leased
    else none

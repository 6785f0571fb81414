-- ===== src/Audit.antt =====
-- src/audit.ts: audit evidence, which is written once, and the edges of source discovery. `hash_valid`
-- and `created_at_valid` are the tests of the hash's pattern and of Date.parse; a JSON value is the
-- text that the code stores for it.
use fareradar.Prelude.{
  String, Bool, true, false, Option, none, some, List, [], ◌∷◌, ◌++◌, ◌≡◌, ◌&&◌, not, str_eq,
  truthy, arith, if◌then◌else◌, Option-cases, Bool-cases, inl, inr, subst, Result, ok, err, ◌>>◌,
  assert, >>=-eq-ok,
}
use fareradar.Sql.{find_row}
use fareradar.Sql.Laws.{find_row-append}

-- The fourteen columns that are compared, with null as `none`.
pub record AuditFields : Type 0 where
  pub gate_id : String
  pub spec_version : String
  pub test_report_hash : String
  pub created_at : String
  pub provider_readback : String
  pub unresolved_items : String
  pub nullable : List (Option String)

pub record AuditEvidenceInput : Type 0 where
  pub evidence_id : String
  pub fields : AuditFields
  pub hash_valid : Bool
  pub created_at_valid : Bool

pub record AuditRow : Type 0 where
  pub evidence_id : String
  pub fields : AuditFields

abbrev same_null : Option String → Option String → Bool
same_null none none = true
same_null (some s) (some t) = str_eq s t
same_null _ _ = false

abbrev same_nulls : List (Option String) → List (Option String) → Bool
same_nulls [] [] = true
same_nulls (x ∷ xs) (y ∷ ys) = same_null x y && same_nulls xs ys
same_nulls _ _ = false

-- No entry of `normalized` differs from the row's.
unfoldable pub same_fields : AuditFields → AuditFields → Bool
same_fields a b =
    str_eq a.gate_id b.gate_id
    && str_eq a.spec_version b.spec_version
    && str_eq a.test_report_hash b.test_report_hash
    && str_eq a.created_at b.created_at
    && str_eq a.provider_readback b.provider_readback
    && str_eq a.unresolved_items b.unresolved_items
    && same_nulls a.nullable b.nullable

abbrev pub evidence_key : AuditRow → String
evidence_key r = r.evidence_id

unfoldable pub store_evidence : List AuditRow → AuditEvidenceInput → Result (List AuditRow × Bool)
unfolding same_fields
store_evidence t e = elim (find_row evidence_key e.evidence_id t) [
  | some prior ↦
      if same_fields prior.fields e.fields then ok (t, true) else err "AUDIT_EVIDENCE_CONFLICT"
  | none ↦ ok (t ++ record { evidence_id = e.evidence_id; fields = e.fields } ∷ [], false)
]

-- recordAuditEvidence: the table, and whether the evidence was there already.
unfoldable pub record_audit_evidence :
    List AuditRow → AuditEvidenceInput → Result (List AuditRow × Bool)
unfolding store_evidence
record_audit_evidence t e = do
  assert
      (truthy e.evidence_id
        && truthy e.fields.gate_id
        && truthy e.fields.spec_version
        && e.hash_valid
        && e.created_at_valid)
      "AUDIT_EVIDENCE_INVALID"
  store_evidence t e

-- readAuditEvidence.
unfoldable pub read_audit_evidence : List AuditRow → String → Result (Option AuditRow)
read_audit_evidence t id =
    if not (truthy id)
    then err "AUDIT_EVIDENCE_READBACK_INVALID"
    else ok (find_row evidence_key id t)

store_kept :
    (t u : List AuditRow) (e : AuditEvidenceInput) (known : Bool) (id : String) (r : AuditRow)
    → store_evidence t e ≡ ok (u, known)
    → read_audit_evidence t id ≡ ok (some r)
    → read_audit_evidence u id ≡ ok (some r)
unfolding store_evidence read_audit_evidence
store_kept t u e known id r last read =
    elim (Option-cases (find_row evidence_key e.evidence_id t)) [
      | inr (prior, found) ↦ elim (Bool-cases (same_fields prior.fields e.fields)) [
        | inr other ↦ absurd (ground (arith, last, found, other))
        | inl same ↦
            let kept : t ≡ u = ground (arith, last, found, same) in
            subst (λ v. (read_audit_evidence v id ≡ ok (some r))) kept read
      ]
      | inl free ↦
          let row : AuditRow = record { evidence_id = e.evidence_id; fields = e.fields } in
          let grown : (t ++ row ∷ []) ≡ u = ground (arith, last, free) in
          subst (λ v. (read_audit_evidence v id ≡ ok (some r))) grown
            (ground (arith, read, find_row-append evidence_key id t (row ∷ [])))
    ]

-- Evidence is immutable: what can be read under an id is read under it after any later record.
pub evidence_immutable :
    (t u : List AuditRow) (e : AuditEvidenceInput) (known : Bool) (id : String) (r : AuditRow)
    → record_audit_evidence t e ≡ ok (u, known)
    → read_audit_evidence t id ≡ ok (some r)
    → read_audit_evidence u id ≡ ok (some r)
unfolding record_audit_evidence
evidence_immutable t u e known id r h read =
    let (passed, checked, last) =
      >>=-eq-ok
        (assert
          (truthy e.evidence_id
            && truthy e.fields.gate_id
            && truthy e.fields.spec_version
            && e.hash_valid
            && e.created_at_valid)
          "AUDIT_EVIDENCE_INVALID")
        (λ w. store_evidence t e) h in
    store_kept t u e known id r last read

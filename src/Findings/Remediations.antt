-- ===== src/Findings/Remediations.antt =====
-- findings/service.py: the remediations of findings and their verifications.
use ksec.Prelude.{
  ℕ, suc, String, Bool, not, Option, List, [], ◌∷◌, ◌++◌, ◌==◌, str_eq, select, find?, update_where,
  if◌then◌else◌,
}
use ksec.Prelude.Exec.{
  pure, raise_if, or_raise, modify, gets, assert_some, value_error, integrity_error, ◌>>=◌, ◌>>◌,
}
use ksec.Prelude.Strings.Decimal.{show}
use ksec.Findings.{
  valid_priority, valid_remediation_status, valid_verify_result, Remediation,
  RemediationVerification, FindingService, Service, get, refers, update_status,
}

unfoldable pub remediations : ℕ → FindingService → List Remediation
remediations finding_id s =
    select (λ (r : Remediation). r.finding_id == finding_id) s.remediation_rows

abbrev pub is_remediation : ℕ → Remediation → Bool
is_remediation remediation_id r = r.id == remediation_id

unfoldable pub remediation : ℕ → FindingService → Option Remediation
remediation remediation_id s = find? (is_remediation remediation_id) s.remediation_rows

-- The arguments of `add_remediation` by name.
pub record NewRemediation : Type 0 where
  pub description : String
  pub owner : String
  pub priority : String
  pub due_date : Option String

unfoldable pub add_remediation : ℕ → NewRemediation → ℕ → Service Remediation
add_remediation finding_id r now = do
  found ← gets (get finding_id)
  or_raise found (value_error ("Unknown finding: " ∷ show finding_id ∷ []))
  raise_if (not (valid_priority r.priority)) (value_error ("Invalid priority: " ∷ r.priority ∷ []))
  key ← gets (λ s. s.next_remediation)
  modify (λ s. record s {
    remediation_rows =
        s.remediation_rows
        ++ record {
          id = key;
          finding_id = finding_id;
          description = r.description;
          owner = r.owner;
          priority = r.priority;
          status = "open";
          due_date = r.due_date;
          created_at = now;
          updated_at = now;
        }
          ∷ [];
    next_remediation = suc key;
  })
  row ← gets (remediation key)
  assert_some row

abbrev pub set_remediation : String → ℕ → Remediation → Remediation
set_remediation status now r = record r { status = status; updated_at = now }

unfoldable pub update_remediation_status : ℕ → String → ℕ → Service Remediation
update_remediation_status remediation_id status now = do
  raise_if (not (valid_remediation_status status))
      (value_error ("Invalid remediation status: " ∷ status ∷ []))
  modify (λ s. record s {
    remediation_rows =
        update_where (is_remediation remediation_id) (set_remediation status now)
          s.remediation_rows;
  })
  row ← gets (remediation remediation_id)
  or_raise row (value_error ("Unknown remediation: " ∷ show remediation_id ∷ []))

-- The arguments of `verify_remediation` by name.
pub record Check : Type 0 where
  pub method : String
  pub result : String
  pub evidence_id : Option ℕ
  pub verified_by : String
  pub details : String

-- What a verification does to the remediation and its finding.
unfoldable pub propagate : ℕ → Remediation → String → ℕ → Service (Unit {0})
propagate remediation_id row result now =
    if str_eq result "verified"
    then (update_remediation_status remediation_id "verified" now >>= λ _.
        update_status row.finding_id "verified" now >>= λ _. pure tt)
    else if str_eq result "failed"
    then (update_remediation_status remediation_id "in_progress" now >>= λ _. pure tt)
    else pure tt

-- `now` is the time of the record and `later` that of the changes of status.
unfoldable pub verify_remediation : ℕ → Check → ℕ → ℕ → Service RemediationVerification
verify_remediation remediation_id check now later = do
  found ← gets (remediation remediation_id)
  row ← or_raise found (value_error ("Unknown remediation: " ∷ show remediation_id ∷ []))
  raise_if (not (valid_verify_result check.result))
      (value_error ("Invalid verification result: " ∷ check.result ∷ []))
  known ← gets (λ s. refers check.evidence_id s.evidence)
  raise_if (not known) integrity_error
  key ← gets (λ s. s.next_verification)
  modify (λ s. record s {
    verification_rows =
        s.verification_rows
        ++ record {
          id = key;
          remediation_id = remediation_id;
          method = check.method;
          result = check.result;
          evidence_id = check.evidence_id;
          verified_by = check.verified_by;
          details = check.details;
          created_at = now;
        }
          ∷ [];
    next_verification = suc key;
  })
  propagate remediation_id row check.result later
  verification ←
      gets (λ s. find? (λ (v : RemediationVerification). v.id == key) s.verification_rows)
  assert_some verification

unfoldable pub verifications : ℕ → FindingService → List RemediationVerification
verifications remediation_id s =
    select (λ (v : RemediationVerification). v.remediation_id == remediation_id) s.verification_rows

-- ===== src/Findings/Verification.antt =====
-- What the verification of a remediation does to the remediation and to its finding.
use ksec.Prelude.{
  ℕ, suc, String, ◌≡◌, refl, Bool, true, none, some, List, [], ◌∷◌, ◌++◌, ◌==◌, str_eq, arith, any,
  find?, update_where, find?-update_where, find?-holds, Bool-cases, inl, inr, if◌then◌else◌,
}
use ksec.Prelude.Exec.{returned}
use ksec.Findings.{
  Finding, Remediation, RemediationVerification, FindingService, valid_status,
  valid_remediation_status, valid_verify_result, refers, has_id, set_row, get, update_status,
}
use ksec.Findings.Remediations.{
  Check, is_remediation, set_remediation, remediation, update_remediation_status, propagate,
  verify_remediation,
}

-- The tables after a change of state of a finding, or of a remediation.
abbrev pub with_finding : ℕ → String → ℕ → FindingService → FindingService
with_finding i status now s = record s {
  rows = update_where (has_id i) (set_row status now) s.rows;
}

abbrev pub with_remediation : ℕ → String → ℕ → FindingService → FindingService
with_remediation i status now s = record s {
  remediation_rows =
      update_where (is_remediation i) (set_remediation status now) s.remediation_rows;
}

update_status-returned :
    (i : ℕ) (status : String) (now : ℕ) (s : FindingService) (f : Finding)
    → valid_status status ≡ true
    → get i s ≡ some f
    → update_status i status now s ≡ (returned (set_row status now f), with_finding i status now s)
unfolding update_status get
update_status-returned i status now s f known found =
    let own = find?-holds (has_id i) s.rows f found in
    let updated =
      find?-update_where (has_id i) (has_id i) (set_row status now) s.rows (λ x. refl) in
    rw (known, updated, found, own) refl

update_remediation_status-returned :
    (i : ℕ) (status : String) (now : ℕ) (s : FindingService) (r : Remediation)
    → valid_remediation_status status ≡ true
    → remediation i s ≡ some r
    → update_remediation_status i status now s
      ≡ (returned (set_remediation status now r), with_remediation i status now s)
unfolding update_remediation_status remediation
update_remediation_status-returned i status now s r known found =
    let own = find?-holds (is_remediation i) s.remediation_rows r found in
    let updated =
      find?-update_where (is_remediation i) (is_remediation i) (set_remediation status now)
        s.remediation_rows (λ x. refl) in
    rw (known, updated, found, own) refl

-- The tables after a verification with a result.
abbrev pub propagated : ℕ → Remediation → String → ℕ → FindingService → FindingService
propagated i row result now s =
    if str_eq result "verified"
    then with_finding row.finding_id "verified" now (with_remediation i "verified" now s)
    else if str_eq result "failed"
    then with_remediation i "in_progress" now s
    else s

propagate-returned :
    (i : ℕ) (row : Remediation) (result : String) (now : ℕ) (s : FindingService) (f : Finding)
    → remediation i s ≡ some row
    → get row.finding_id s ≡ some f
    → propagate i row result now s ≡ (returned tt, propagated i row result now s)
unfolding propagate any get
propagate-returned i row result now s f found there = elim (Bool-cases (str_eq result "verified")) [
  | inl verified ↦
      rw
        (
          verified,
          update_remediation_status-returned i "verified" now s row refl found,
          update_status-returned row.finding_id "verified" now (with_remediation i "verified" now s)
              f refl there,
        )
        refl
  | inr other ↦ elim (Bool-cases (str_eq result "failed")) [
    | inl failed ↦
        rw (other, failed, update_remediation_status-returned i "in_progress" now s row refl found)
          refl
    | inr unclear ↦ rw (other, unclear) refl
  ]
]

abbrev pub verification_of : ℕ → ℕ → Check → ℕ → RemediationVerification
verification_of key i check now = record {
  id = key;
  remediation_id = i;
  method = check.method;
  result = check.result;
  evidence_id = check.evidence_id;
  verified_by = check.verified_by;
  details = check.details;
  created_at = now;
}

abbrev pub recorded : ℕ → Check → ℕ → FindingService → FindingService
recorded i check now s = record s {
  verification_rows = s.verification_rows ++ verification_of s.next_verification i check now ∷ [];
  next_verification = suc s.next_verification;
}

abbrev pub is_verification : ℕ → RemediationVerification → Bool
is_verification key v = v.id == key

find?-fresh :
    (key : ℕ) (xs : List RemediationVerification) (v : RemediationVerification)
    → find? (is_verification key) xs ≡ none
    → (v.id == key) ≡ true
    → find? (is_verification key) (xs ++ v ∷ []) ≡ some v
unfolding find?
find?-fresh key [] v free own = ground (arith, own)
find?-fresh key (x ∷ xs) v free own = ground (arith, free, find?-fresh key xs v)

verification_rows-propagated :
    (i : ℕ) (row : Remediation) (result : String) (now : ℕ) (s : FindingService)
    → (propagated i row result now s).verification_rows ≡ s.verification_rows
verification_rows-propagated i row result now s = ground arith

-- A verification with a known result, of a remediation and a finding that are there, returns and
-- appends one record. With the result "verified" the remediation and its finding become verified,
-- with "failed" the remediation goes back into progress, and otherwise both stay; no other row
-- changes. (The evidence is none or known, and the next key is free, as keys only grow.)
pub verify_remediation_lem :
    (i : ℕ) (check : Check) (now later : ℕ) (s : FindingService) (row : Remediation) (f : Finding)
    → remediation i s ≡ some row
    → get row.finding_id s ≡ some f
    → valid_verify_result check.result ≡ true
    → refers check.evidence_id s.evidence ≡ true
    → find? (is_verification s.next_verification) s.verification_rows ≡ none
    → verify_remediation i check now later s ≡ (
      returned (verification_of s.next_verification i check now),
      propagated i row check.result later (recorded i check now s),
    )
unfolding verify_remediation get remediation
verify_remediation_lem i check now later s row f found there fine known free =
    rw
      (
        found,
        fine,
        known,
        propagate-returned i row check.result later (recorded i check now s) f found there,
        verification_rows-propagated i row check.result later (recorded i check now s),
        find?-fresh s.next_verification s.verification_rows
            (verification_of s.next_verification i check now) free (ground arith),
      )
      refl

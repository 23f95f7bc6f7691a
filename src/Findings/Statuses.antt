-- ===== src/Findings/Statuses.antt =====
-- What every request to the findings service keeps true of the rows.
use ksec.Prelude.{
  ℕ, String, ◌≡◌, refl, true, ◌&&◌, some, List, [], ◌∷◌, str_eq, any, All, Bool-cases, Option-cases,
  inl, inr,
}
use ksec.Prelude.Keeps.{
  Keeps, keeps_continue, keeps_or_raise, keeps_assert_some, All-append, All-update_where,
}
use ksec.Findings.{
  Finding, Remediation, RemediationVerification, FindingService, RiskResult, NewFinding,
  valid_severity, valid_confidence, valid_status, valid_priority, valid_remediation_status,
  valid_verify_result, is_blank, refers, has_id, set_row, new_finding, create, update_status,
  set_risk, get,
}
use ksec.Findings.Remediations.{
  NewRemediation, Check, is_remediation, set_remediation, add_remediation,
  update_remediation_status, propagate, verify_remediation, remediation,
}

pub record IsSound (f : Finding) : Type 0 where
  pub severity : valid_severity f.severity ≡ true
  pub confidence : valid_confidence f.confidence ≡ true
  pub status : valid_status f.status ≡ true

pub record IsSoundRemediation (r : Remediation) : Type 0 where
  pub priority : valid_priority r.priority ≡ true
  pub status : valid_remediation_status r.status ≡ true

abbrev pub IsSoundVerification : RemediationVerification → Type 0
IsSoundVerification v = valid_verify_result v.result ≡ true

-- Every row has one of the values that its columns allow.
pub record IsValid (s : FindingService) : Type 0 where
  pub findings : All IsSound s.rows
  pub remediations : All IsSoundRemediation s.remediation_rows
  pub verifications : All IsSoundVerification s.verification_rows

-- The requests that write, with their arguments.
pub data Request : Type 0 where
  create_finding : NewFinding → ℕ → Request
  change_status : ℕ → String → ℕ → Request
  assess_risk : ℕ → RiskResult → ℕ → Request
  plan_remediation : ℕ → NewRemediation → ℕ → Request
  change_remediation : ℕ → String → ℕ → Request
  check_remediation : ℕ → Check → ℕ → ℕ → Request

-- The tables after a request, whether it returns or raises.
unfoldable pub after : Request → FindingService → FindingService
after (create_finding f now) s = (create f now s).1
after (change_status i status now) s = (update_status i status now s).1
after (assess_risk i risk now) s = (set_risk i risk now s).1
after (plan_remediation i r now) s = (add_remediation i r now s).1
after (change_remediation i status now) s = (update_remediation_status i status now s).1
after (check_remediation i check now later) s = (verify_remediation i check now later s).1

unfoldable pub after_all : List Request → FindingService → FindingService
after_all [] s = s
after_all (r ∷ rs) s = after_all rs (after r s)

open_is_valid : valid_status "open" ≡ true
unfolding any
open_is_valid = refl

open_is_valid_remediation : valid_remediation_status "open" ≡ true
unfolding any
open_is_valid_remediation = refl

create-IsValid : (f : NewFinding) (now : ℕ) → Keeps IsValid (create f now)
unfolding create
create-IsValid f now s v = elim (Bool-cases (is_blank f.title)) [
  | inl blank ↦ rw blank v
  | inr named ↦ rw named (elim (Bool-cases (valid_severity f.severity)) [
    | inr bad ↦ rw bad v
    | inl severe ↦ rw severe (elim (Bool-cases (valid_confidence f.confidence)) [
      | inr bad ↦ rw bad v
      | inl confident ↦
          rw confident
            (elim (Bool-cases
              (refers f.engagement_id s.engagements && refers f.asset_id s.assets)) [
                | inr bad ↦ rw bad v
                | inl known ↦ rw known (record {
                  findings =
                      All-append IsSound s.rows (new_finding s.next_finding f now) v.findings
                        (record {
                          severity = severe;
                          confidence = confident;
                          status = open_is_valid;
                        });
                  remediations = v.remediations;
                  verifications = v.verifications;
                })
              ])
    ])
  ])
]

update_status-IsValid :
    (i : ℕ) (status : String) (now : ℕ) → Keeps IsValid (update_status i status now)
unfolding update_status
update_status-IsValid i status now s v = elim (Bool-cases (valid_status status)) [
  | inr bad ↦ rw bad v
  | inl known ↦ rw known (
      keeps_or_raise IsValid _ _ _ (record {
        findings =
            All-update_where IsSound (has_id i) (set_row status now) s.rows
              (λ f h. record { severity = h.severity; confidence = h.confidence; status = known })
              v.findings;
        remediations = v.remediations;
        verifications = v.verifications;
      }))
]

set_risk-IsValid : (i : ℕ) (risk : RiskResult) (now : ℕ) → Keeps IsValid (set_risk i risk now)
unfolding set_risk
set_risk-IsValid i risk now s v = record {
  findings =
      All-update_where IsSound (has_id i) (λ f. record f { risk = some risk; updated_at = now })
        s.rows
        (λ f h. record { severity = h.severity; confidence = h.confidence; status = h.status })
        v.findings;
  remediations = v.remediations;
  verifications = v.verifications;
}

add_remediation-IsValid :
    (i : ℕ) (r : NewRemediation) (now : ℕ) → Keeps IsValid (add_remediation i r now)
unfolding add_remediation
add_remediation-IsValid i r now s v = elim (Option-cases (get i s)) [
  | inl gone ↦ rw gone v
  | inr (f, found) ↦ rw found (elim (Bool-cases (valid_priority r.priority)) [
    | inr bad ↦ rw bad v
    | inl ranked ↦ rw ranked (
        keeps_assert_some IsValid _ _ (record {
          findings = v.findings;
          remediations =
              All-append IsSoundRemediation s.remediation_rows _ v.remediations
                (record { priority = ranked; status = open_is_valid_remediation });
          verifications = v.verifications;
        }))
  ])
]

update_remediation_status-IsValid :
    (i : ℕ) (status : String) (now : ℕ) → Keeps IsValid (update_remediation_status i status now)
unfolding update_remediation_status
update_remediation_status-IsValid i status now s v =
    elim (Bool-cases (valid_remediation_status status)) [
      | inr bad ↦ rw bad v
      | inl known ↦ rw known (
          keeps_or_raise IsValid _ _ _ (record {
            findings = v.findings;
            remediations =
                All-update_where IsSoundRemediation (is_remediation i) (set_remediation status now)
                  s.remediation_rows (λ r h. record { priority = h.priority; status = known })
                  v.remediations;
            verifications = v.verifications;
          }))
    ]

propagate-IsValid :
    (i : ℕ) (row : Remediation) (result : String) (now : ℕ)
    → Keeps IsValid (propagate i row result now)
unfolding propagate
propagate-IsValid i row result now s v = elim (Bool-cases (str_eq result "verified")) [
  | inl verified ↦ rw verified (
      keeps_continue IsValid (update_remediation_status i "verified" now s).0 _ _
        (update_remediation_status-IsValid i "verified" now s v)
        (λ _ t w.
          keeps_continue IsValid (update_status row.finding_id "verified" now t).0 _ _
            (update_status-IsValid row.finding_id "verified" now t w) (λ _ u x. x)))
  | inr other ↦ elim (Bool-cases (str_eq result "failed")) [
    | inl failed ↦
        rw (other, failed)
          (keeps_continue IsValid (update_remediation_status i "in_progress" now s).0 _ _
            (update_remediation_status-IsValid i "in_progress" now s v) (λ _ t w. w))
    | inr unclear ↦ rw (other, unclear) v
  ]
]

verify_remediation-IsValid :
    (i : ℕ) (check : Check) (now later : ℕ) → Keeps IsValid (verify_remediation i check now later)
unfolding verify_remediation
verify_remediation-IsValid i check now later s v = elim (Option-cases (remediation i s)) [
  | inl gone ↦ rw gone v
  | inr (row, found) ↦ rw found (elim (Bool-cases (valid_verify_result check.result)) [
    | inr bad ↦ rw bad v
    | inl fine ↦ rw fine (elim (Bool-cases (refers check.evidence_id s.evidence)) [
      | inr bad ↦ rw bad v
      | inl known ↦ rw known (
          keeps_continue IsValid (propagate i row check.result later _).0 _ _
            (propagate-IsValid i row check.result later _ (record {
              findings = v.findings;
              remediations = v.remediations;
              verifications =
                  All-append IsSoundVerification s.verification_rows _ v.verifications fine;
            }))
            (λ _ t w. keeps_assert_some IsValid _ t w))
    ])
  ])
]

after-IsValid : (r : Request) (s : FindingService) → IsValid s → IsValid (after r s)
unfolding after
after-IsValid (create_finding f now) s v = create-IsValid f now s v
after-IsValid (change_status i status now) s v = update_status-IsValid i status now s v
after-IsValid (assess_risk i risk now) s v = set_risk-IsValid i risk now s v
after-IsValid (plan_remediation i r now) s v = add_remediation-IsValid i r now s v
after-IsValid (change_remediation i status now) s v =
    update_remediation_status-IsValid i status now s v
after-IsValid (check_remediation i check now later) s v =
    verify_remediation-IsValid i check now later s v

-- Whatever requests are made, and whether they return or raise, every finding keeps a known
-- severity, confidence and state, every remediation a known priority and state, and every
-- verification a known result.
pub after_all-IsValid :
    (rs : List Request) (s : FindingService) → IsValid s → IsValid (after_all rs s)
unfolding after_all
after_all-IsValid [] s v = v
after_all-IsValid (r ∷ rs) s v = after_all-IsValid rs (after r s) (after-IsValid r s v)

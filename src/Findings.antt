-- ===== src/Findings.antt =====
-- findings/service.py: findings with their remediations and the verifications of these.
pub mod Remediations
pub mod Statuses
pub mod Verification
use ksec.Prelude.{
  ℕ, suc, String, Bool, true, false, not, ◌&&◌, ◌||◌, Option, none, some, List, [], ◌∷◌, ◌++◌, ◌==◌,
  str_eq, opt_eq, any, select, find?, update_where, if◌then◌else◌,
}
use ksec.Prelude.Exec.{
  Exec, pure, raise_if, or_raise, modify, gets, assert_some, value_error, integrity_error, ◌>>=◌,
  ◌>>◌,
}
use ksec.Prelude.Dict.{opt_beq}
use ksec.Prelude.Strings.{strip}
use ksec.Prelude.Strings.Decimal.{show}
use mathlib.Core.List.{reverse}

-- `text in texts`
abbrev pub one_of : List String → String → Bool
one_of texts text = any (λ name. str_eq name text) texts

-- `VALID_SEVERITY`
abbrev pub valid_severity : String → Bool
valid_severity = one_of ("info" ∷ "low" ∷ "medium" ∷ "high" ∷ "critical" ∷ [])

-- `VALID_CONFIDENCE`
abbrev pub valid_confidence : String → Bool
valid_confidence = one_of ("low" ∷ "medium" ∷ "high" ∷ [])

-- `VALID_STATUS`
abbrev pub valid_status : String → Bool
valid_status =
    one_of
      ("open" ∷ "confirmed" ∷ "false_positive" ∷ "accepted_risk" ∷ "remediated" ∷ "verified" ∷ [])

-- `VALID_PRIORITY`
abbrev pub valid_priority : String → Bool
valid_priority = one_of ("low" ∷ "medium" ∷ "high" ∷ "critical" ∷ [])

-- `VALID_REMEDIATION_STATUS`
abbrev pub valid_remediation_status : String → Bool
valid_remediation_status =
    one_of ("open" ∷ "in_progress" ∷ "completed" ∷ "verified" ∷ "rejected" ∷ [])

-- `VALID_VERIFY_RESULT`
abbrev pub valid_verify_result : String → Bool
valid_verify_result = one_of ("verified" ∷ "failed" ∷ "inconclusive" ∷ [])

-- The score of a risk is a number in decimal notation that is only passed on.
pub record RiskResult : Type 0 where
  pub score : String
  pub level : String

-- `risk_score` and `risk_level` are written together: `risk` is `none` for two nulls.
pub record Finding : Type 0 where
  pub id : ℕ
  pub engagement_id : Option ℕ
  pub asset_id : Option ℕ
  pub title : String
  pub description : String
  pub severity : String
  pub confidence : String
  pub recommendation : String
  pub status : String
  pub risk : Option RiskResult
  pub source : String
  pub created_at : ℕ
  pub updated_at : ℕ

pub record Remediation : Type 0 where
  pub id : ℕ
  pub finding_id : ℕ
  pub description : String
  pub owner : String
  pub priority : String
  pub status : String
  pub due_date : Option String
  pub created_at : ℕ
  pub updated_at : ℕ

pub record RemediationVerification : Type 0 where
  pub id : ℕ
  pub remediation_id : ℕ
  pub method : String
  pub result : String
  pub evidence_id : Option ℕ
  pub verified_by : String
  pub details : String
  pub created_at : ℕ

-- The tables of the service with their next keys, and the keys of the tables to which they refer.
pub record FindingService : Type 0 where
  pub rows : List Finding
  pub remediation_rows : List Remediation
  pub verification_rows : List RemediationVerification
  pub next_finding : ℕ
  pub next_remediation : ℕ
  pub next_verification : ℕ
  pub engagements : List ℕ
  pub assets : List ℕ
  pub evidence : List ℕ

abbrev pub Service : Type 0 → Type 0
Service A = Exec FindingService A

abbrev pub has_id : ℕ → Finding → Bool
has_id finding_id f = f.id == finding_id

unfoldable pub get : ℕ → FindingService → Option Finding
get finding_id s = find? (has_id finding_id) s.rows

-- A reference of a row to another table.
abbrev pub refers : Option ℕ → List ℕ → Bool
refers none keys = true
refers (some key) keys = any (λ k. k == key) keys

abbrev pub is_blank : String → Bool
is_blank text = str_eq text "" || str_eq (strip text) ""

-- The arguments of `create` by name.
pub record NewFinding : Type 0 where
  pub title : String
  pub description : String
  pub severity : String
  pub confidence : String
  pub recommendation : String
  pub asset_id : Option ℕ
  pub engagement_id : Option ℕ
  pub source : String
  pub risk : Option RiskResult

abbrev pub new_finding : ℕ → NewFinding → ℕ → Finding
new_finding key f now = record {
  id = key;
  engagement_id = f.engagement_id;
  asset_id = f.asset_id;
  title = strip f.title;
  description = f.description;
  severity = f.severity;
  confidence = f.confidence;
  recommendation = f.recommendation;
  status = "open";
  risk = f.risk;
  source = f.source;
  created_at = now;
  updated_at = now;
}

-- As the query after the insertion, an answer that may be missing.
unfoldable pub create : NewFinding → ℕ → Service (Option Finding)
create f now = do
  raise_if (is_blank f.title) (value_error ("Finding title must not be empty" ∷ []))
  raise_if (not (valid_severity f.severity)) (value_error ("Invalid severity: " ∷ f.severity ∷ []))
  raise_if (not (valid_confidence f.confidence))
      (value_error ("Invalid confidence: " ∷ f.confidence ∷ []))
  known ← gets (λ s. refers f.engagement_id s.engagements && refers f.asset_id s.assets)
  raise_if (not known) integrity_error
  key ← gets (λ s. s.next_finding)
  modify (λ s. record s { rows = s.rows ++ new_finding key f now ∷ []; next_finding = suc key })
  gets (get key)

-- A filter of `list`: an absent or empty one lets every row through.
abbrev pub passes : Option String → String → Bool
passes none value = true
passes (some wanted) value = if str_eq wanted "" then true else str_eq wanted value

abbrev pub in_engagement : Option ℕ → Option ℕ → Bool
in_engagement none value = true
in_engagement wanted value = opt_beq wanted value

-- `ORDER BY id DESC`: the rows are in the order of their keys.
unfoldable pub list : Option ℕ → Option String → Option String → FindingService → List Finding
list engagement_id status severity s =
    select
      (λ (f : Finding).
        in_engagement engagement_id f.engagement_id
        && passes status f.status
        && passes severity f.severity)
      (reverse s.rows)

abbrev pub set_row : String → ℕ → Finding → Finding
set_row status now f = record f { status = status; updated_at = now }

unfoldable pub update_status : ℕ → String → ℕ → Service Finding
update_status finding_id status now = do
  raise_if (not (valid_status status)) (value_error ("Invalid status: " ∷ status ∷ []))
  modify (λ s. record s { rows = update_where (has_id finding_id) (set_row status now) s.rows })
  found ← gets (get finding_id)
  or_raise found (value_error ("Unknown finding: " ∷ show finding_id ∷ []))

unfoldable pub set_risk : ℕ → RiskResult → ℕ → Service (Option Finding)
set_risk finding_id risk now = do
  modify (λ s. record s {
    rows =
        update_where (has_id finding_id) (λ f. record f { risk = some risk; updated_at = now })
          s.rows;
  })
  gets (get finding_id)

-- ===== src/Alerts.antt =====
-- soc/alerts.py: alerts with their states and the times of their acknowledgement and resolution.
pub mod Times
use ksec.Prelude.{
  ℕ, suc, String, Bool, true, false, not, ◌&&◌, ◌||◌, Option, none, some, List, [], ◌∷◌, ◌++◌, ◌==◌,
  length, str_eq, any, select, find?, update_where, take, if◌then◌else◌,
}
use ksec.Prelude.Exec.{
  Exec, pure, raise_if, or_raise, modify, gets, assert_some, ksec_error, integrity_error,
  database_error, ◌>>=◌, ◌>>◌,
}
use ksec.Prelude.Json.{Fields}
use ksec.Prelude.Strings.{◌<>◌}
use ksec.Prelude.Strings.Decimal.{show}
use ksec.Audit.{AuditEvent, event, record_event}
use mathlib.Core.List.{reverse}

-- `VALID_STATUS`
abbrev pub valid_status : String → Bool
valid_status status =
    any (λ name. str_eq name status) ("open" ∷ "acknowledged" ∷ "resolved" ∷ "closed" ∷ [])

-- The score of a risk is a number in decimal notation that is only passed on.
pub record Alert : Type 0 where
  pub id : ℕ
  pub alert_id : String
  pub source : String
  pub type_name : String
  pub severity : String
  pub risk_score : String
  pub status : String
  pub rule_id : Option ℕ
  pub event_id : Option ℕ
  pub asset_id : Option ℕ
  pub finding_id : Option ℕ
  pub case_id : Option ℕ
  pub ioc_id : Option ℕ
  pub summary : String
  pub details : Fields
  pub created_at : ℕ
  pub acknowledged_at : Option ℕ
  pub resolved_at : Option ℕ

-- The table with its next key, and the log. `refers` says whether the keys of a row to other tables
-- are there.
pub record AlertService : Type 0 where
  pub rows : List Alert
  pub next_alert : ℕ
  pub refers : Alert → Bool
  pub audit_log : List AuditEvent

abbrev pub Service : Type 0 → Type 0
Service A = Exec AlertService A

abbrev pub has_id : ℕ → Alert → Bool
has_id alert_id a = a.id == alert_id

unfoldable pub get : ℕ → AlertService → Option Alert
get alert_id s = find? (has_id alert_id) s.rows

abbrev pub alert_target : ℕ → String
alert_target alert_id = "alert:" <> show alert_id

abbrev pub alert_event : String → Option String → ℕ → AuditEvent
alert_event name actor alert_id = record (event name) {
  actor = actor;
  workspace = some "BLUE_TEAM";
  action = some name;
  target = some (alert_target alert_id);
}

unfoldable pub audit : Bool → AuditEvent → Service (Unit {0})
audit audit_on e = modify (λ s. record s { audit_log = record_event audit_on e s.audit_log })

-- The arguments of `create` by name.
pub record NewAlert : Type 0 where
  pub source : String
  pub type_name : String
  pub severity : String
  pub risk_score : String
  pub summary : String
  pub details : Fields
  pub rule_id : Option ℕ
  pub event_id : Option ℕ
  pub asset_id : Option ℕ
  pub finding_id : Option ℕ
  pub case_id : Option ℕ
  pub ioc_id : Option ℕ

abbrev pub new_alert : ℕ → String → NewAlert → ℕ → Alert
new_alert key uuid a now = record {
  id = key;
  alert_id = uuid;
  source = a.source;
  type_name = a.type_name;
  severity = a.severity;
  risk_score = a.risk_score;
  status = "open";
  rule_id = a.rule_id;
  event_id = a.event_id;
  asset_id = a.asset_id;
  finding_id = a.finding_id;
  case_id = a.case_id;
  ioc_id = a.ioc_id;
  summary = a.summary;
  details = a.details;
  created_at = now;
  acknowledged_at = none;
  resolved_at = none;
}

unfoldable pub create : Bool → String → NewAlert → ℕ → Service Alert
create audit_on uuid a now = do
  key ← gets (λ s. s.next_alert)
  known ← gets (λ s. s.refers (new_alert key uuid a now))
  raise_if (not known) integrity_error
  modify (λ s. record s { rows = s.rows ++ new_alert key uuid a now ∷ []; next_alert = suc key })
  found ← gets (get key)
  row ← assert_some found
  audit audit_on (alert_event "alert.create" none row.id)
  pure row

-- A filter of `list`: an absent or empty one lets every row through.
abbrev pub passes : Option String → String → Bool
passes none value = true
passes (some wanted) value = if str_eq wanted "" then true else str_eq wanted value

-- `ORDER BY id DESC LIMIT ?`: the rows are in the order of their keys.
unfoldable pub list : ℕ → Option String → Option String → AlertService → List Alert
list limit status severity s =
    take limit (
      select (λ (a : Alert). passes status a.status && passes severity a.severity) (reverse s.rows))

unfoldable pub count : Option String → AlertService → ℕ
count status s = length (select (λ (a : Alert). passes status a.status) s.rows)

-- A time that is written once.
abbrev pub first_time : Bool → Option ℕ → ℕ → Option ℕ
first_time due (some time) now = some time
first_time due none now = if due then some now else none

abbrev pub moved : String → ℕ → Alert → Alert → Alert
moved status now alert row = record row {
  status = status;
  acknowledged_at = first_time (str_eq status "acknowledged") alert.acknowledged_at now;
  resolved_at =
      first_time (str_eq status "resolved" || str_eq status "closed") alert.resolved_at now;
}

unfoldable pub set_status : Bool → ℕ → String → Option String → ℕ → Service Alert
set_status audit_on i status actor now = do
  raise_if (not (valid_status status)) (ksec_error ("invalid alert status: " ∷ status ∷ []))
  found ← gets (get i)
  alert ← or_raise found (ksec_error ("unknown alert: " ∷ show i ∷ []))
  modify (λ s. record s { rows = update_where (has_id i) (moved status now alert) s.rows })
  updated ← gets (get i)
  row ← assert_some updated
  audit audit_on (alert_event ("alert." <> status) actor i)
  pure row

unfoldable pub acknowledge : Bool → ℕ → Option String → ℕ → Service Alert
acknowledge audit_on i actor now = set_status audit_on i "acknowledged" actor now

-- The link of an alert to a case.
unfoldable pub link_case : ℕ → Option ℕ → Alert → Service Alert
link_case i none alert = pure alert
link_case i (some case_id) alert = do
  known ← gets (λ s. s.refers (record alert { case_id = some case_id }))
  raise_if (not known) database_error
  modify (λ s. record s {
    rows = update_where (has_id i) (λ a. record a { case_id = some case_id }) s.rows;
  })
  linked ← gets (get i)
  assert_some linked

unfoldable pub resolve : Bool → ℕ → Option ℕ → Option String → ℕ → Service Alert
resolve audit_on i case_id actor now = do
  alert ← set_status audit_on i "resolved" actor now
  link_case alert.id case_id alert

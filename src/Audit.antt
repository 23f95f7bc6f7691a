-- ===== src/Audit.antt =====
-- audit/service.py: the audit log, to which `record` appends. An event id and the time of a record
-- are not modelled; nothing reads them back.
use ksec.Prelude.{
  ℕ, String, Bool, true, Option, none, some, List, [], ◌∷◌, ◌++◌, opt_eq, ◌&&◌, select, take,
  length, str_eq, if◌then◌else◌,
}
use ksec.Prelude.Json.{Fields, end}
use mathlib.Core.List.{reverse}

pub record AuditEvent : Type 0 where
  pub event_type : String
  pub actor : Option String
  pub session_id : Option String
  pub workspace : Option String
  pub action : Option String
  pub target : Option String
  pub outcome : String
  pub payload : Fields

-- An event with the default arguments of `record`.
abbrev pub event : String → AuditEvent
event event_type = record {
  event_type = event_type;
  actor = none;
  session_id = none;
  workspace = none;
  action = none;
  target = none;
  outcome = "success";
  payload = end;
}

-- `config.audit_enabled` switches the log off.
unfoldable pub record_event : Bool → AuditEvent → List AuditEvent → List AuditEvent
record_event enabled e log = if enabled then log ++ e ∷ [] else log

-- A filter of `list`: an absent or empty one lets every row through.
abbrev passes : Option String → Option String → Bool
passes none value = true
passes (some wanted) value = if str_eq wanted "" then true else opt_eq (some wanted) value

unfoldable pub list : ℕ → Option String → Option String → List AuditEvent → List AuditEvent
list limit event_type actor log =
    take limit
      (select (λ e. passes event_type (some e.event_type) && passes actor e.actor) (reverse log))

unfoldable pub count : List AuditEvent → ℕ
count log = length log

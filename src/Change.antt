-- ===== src/Change.antt =====
-- change/service.py: baselines of the state of the platform and the scans against them.
pub mod Diff
pub mod Quiet
pub mod Clean
pub mod Snapshot
pub mod Scans
use ksec.Prelude.{
  ℕ, suc, String, Bool, true, false, not, ◌&&◌, Option, none, some, List, [], ◌∷◌, ◌++◌, ◌==◌,
  length, str_eq, any, select, find?, if◌then◌else◌,
}
use ksec.Prelude.Exec.{
  Exec, pure, raise_if, or_raise, modify, gets, assert_some, value_error, ◌>>=◌, ◌>>◌,
}
use ksec.Prelude.Int.{pos}
use ksec.Prelude.Json.{Json, Fields, end, field}
use ksec.Prelude.Strings.{strip, ◌<>◌}
use ksec.Prelude.Strings.Decimal.{show}
use ksec.Audit.{AuditEvent, event, record_event}
use ksec.Change.Diff.{DriftItem, diff}
use ksec.Change.Snapshot.{Platform, snapshot}
use mathlib.Core.List.{reverse}

-- `SCOPES`
abbrev pub valid_scope : String → Bool
valid_scope scope = any (λ name. str_eq name scope) ("assets" ∷ "findings" ∷ "jobs" ∷ "config" ∷ [])

pub record ChangeBaseline : Type 0 where
  pub id : ℕ
  pub name : String
  pub scope : String
  pub target : String
  pub snapshot : Json
  pub created_by : String
  pub created_at : ℕ

pub record ChangeScan : Type 0 where
  pub id : ℕ
  pub baseline_id : ℕ
  pub status : String
  pub drift : List DriftItem
  pub created_at : ℕ

pub record Notification : Type 0 where
  pub event_type : String
  pub title : String
  pub body : String

-- The tables of the service with their next keys, the platform that it reads, and the logs.
pub record ChangeService : Type 0 where
  pub baselines : List ChangeBaseline
  pub scans : List ChangeScan
  pub next_baseline : ℕ
  pub next_scan : ℕ
  pub platform : Platform
  pub notifications : List Notification
  pub audit_log : List AuditEvent

-- Python's `==` on values, and whether there are notifications and an audit log.
pub record Env : Type 0 where
  pub equal : Json → Json → Bool
  pub notifies : Bool
  pub audit_on : Bool

abbrev pub Service : Type 0 → Type 0
Service A = Exec ChangeService A

abbrev pub is_baseline : ℕ → ChangeBaseline → Bool
is_baseline baseline_id b = b.id == baseline_id

unfoldable pub get_baseline : ℕ → ChangeService → Option ChangeBaseline
get_baseline baseline_id s = find? (is_baseline baseline_id) s.baselines

-- `ORDER BY id DESC`: the rows are in the order of their keys.
unfoldable pub list_baselines : ChangeService → List ChangeBaseline
list_baselines s = reverse s.baselines

-- `actor or None`
abbrev pub actor_or_none : String → Option String
actor_or_none actor = if str_eq actor "" then none else some actor

unfoldable pub audit : Env → String → String → String → Fields → Service (Unit {0})
audit env event_type actor target payload = modify (λ s. record s {
  audit_log =
      record_event env.audit_on
        (record (event event_type) {
          actor = actor_or_none actor;
          action = some event_type;
          target = some target;
          payload = payload;
        })
        s.audit_log;
})

-- The arguments of `create_baseline` by name.
pub record NewBaseline : Type 0 where
  pub name : String
  pub scope : String
  pub target : String
  pub created_by : String

unfoldable pub create_baseline : Env → NewBaseline → ℕ → Service ChangeBaseline
create_baseline env b now = do
  raise_if (not (valid_scope b.scope)) (value_error ("invalid scope: " ∷ b.scope ∷ []))
  raise_if (str_eq (strip b.name) "") (value_error ("name is required" ∷ []))
  state ← gets (λ s. snapshot b.scope b.target s.platform)
  key ← gets (λ s. s.next_baseline)
  modify (λ s. record s {
    baselines =
        s.baselines
        ++ record {
          id = key;
          name = strip b.name;
          scope = b.scope;
          target = if str_eq b.target "" then "*" else b.target;
          snapshot = state;
          created_by = b.created_by;
          created_at = now;
        }
          ∷ [];
    next_baseline = suc key;
  })
  found ← gets (get_baseline key)
  baseline ← assert_some found
  audit env "change.baseline.create" b.created_by (show baseline.id) end
  pure baseline

-- The scans of a baseline go with it.
unfoldable pub remove_baseline : Env → ℕ → Service Bool
remove_baseline env baseline_id = do
  known ← gets (λ s. any (is_baseline baseline_id) s.baselines)
  modify (λ s. record s {
    baselines = select (λ b. not (is_baseline baseline_id b)) s.baselines;
    scans = select (λ (c : ChangeScan). not (c.baseline_id == baseline_id)) s.scans;
  })
  (if known then audit env "change.baseline.delete" "" (show baseline_id) end else pure tt)
  pure known

abbrev pub is_scan : ℕ → ChangeScan → Bool
is_scan scan_id c = c.id == scan_id

unfoldable pub get_scan : ℕ → ChangeService → Option ChangeScan
get_scan scan_id s = find? (is_scan scan_id) s.scans

unfoldable pub list_scans : Option ℕ → ChangeService → List ChangeScan
list_scans none s = reverse s.scans
list_scans (some baseline_id) s =
    select (λ (c : ChangeScan). c.baseline_id == baseline_id) (reverse s.scans)

abbrev pub is_clean : List DriftItem → Bool
is_clean [] = true
is_clean (item ∷ drift) = false

abbrev pub status_of : List DriftItem → String
status_of drift = if is_clean drift then "clean" else "drift"

abbrev pub drift_notice : ChangeBaseline → List DriftItem → Notification
drift_notice b drift = record {
  event_type = "change.drift";
  title = "Change detected on baseline " <> b.name;
  body = show (length drift) <> " difference(s) on scope " <> b.scope;
}

abbrev pub new_scan : ℕ → ℕ → List DriftItem → ℕ → ChangeScan
new_scan key baseline_id drift now = record {
  id = key;
  baseline_id = baseline_id;
  status = status_of drift;
  drift = drift;
  created_at = now;
}

unfoldable pub notify : Env → ChangeBaseline → List DriftItem → Service (Unit {0})
notify env b drift = modify (λ s. record s {
  notifications =
      if not (is_clean drift) && env.notifies
      then s.notifications ++ drift_notice b drift ∷ []
      else s.notifications;
})

unfoldable pub scan : Env → ℕ → String → ℕ → Service ChangeScan
scan env baseline_id actor now = do
  found ← gets (get_baseline baseline_id)
  baseline ← or_raise found (value_error ("unknown baseline: " ∷ show baseline_id ∷ []))
  current ← gets (λ s. snapshot baseline.scope baseline.target s.platform)
  let drift = diff env.equal baseline.snapshot current
  key ← gets (λ s. s.next_scan)
  modify (λ s. record s {
    scans = s.scans ++ new_scan key baseline_id drift now ∷ [];
    next_scan = suc key;
  })
  notify env baseline drift
  audit env "change.scan" (if str_eq actor "" then "change" else actor) (show baseline_id) (
      field "status" (Json.str (status_of drift))
        (field "drift_count" (Json.int (pos (length drift))) end))
  row ← gets (get_scan key)
  assert_some row

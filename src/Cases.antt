-- ===== src/Cases.antt =====
-- cases/service.py: cases with their notes, their findings and their timeline.
pub mod Records
use ksec.Prelude.{
  ℕ, suc, String, Bool, true, false, not, ◌&&◌, ◌||◌, Option, none, some, List, [], ◌∷◌, ◌++◌, ◌==◌,
  str_eq, any, select, find?, update_where, if◌then◌else◌,
}
use ksec.Prelude.Exec.{
  Exec, pure, raise_if, or_raise, modify, gets, assert_some, value_error, integrity_error,
  database_error, ◌>>=◌, ◌>>◌,
}
use ksec.Prelude.Json.{Json, field, end}
use ksec.Prelude.Strings.{strip, ◌<>◌}
use ksec.Prelude.Strings.Decimal.{show}
use ksec.Audit.{AuditEvent, event, record_event}
use mathlib.Core.List.{reverse}

-- `VALID_STATUS`
abbrev pub valid_status : String → Bool
valid_status status =
    any (λ name. str_eq name status) ("open" ∷ "in_progress" ∷ "resolved" ∷ "closed" ∷ [])

-- `VALID_SEVERITY`
abbrev pub valid_severity : String → Bool
valid_severity severity =
    any (λ name. str_eq name severity) ("info" ∷ "low" ∷ "medium" ∷ "high" ∷ "critical" ∷ [])

pub record Case : Type 0 where
  pub id : ℕ
  pub engagement_id : Option ℕ
  pub title : String
  pub description : String
  pub severity : String
  pub status : String
  pub owner : String
  pub created_at : ℕ
  pub updated_at : ℕ

pub record CaseNote : Type 0 where
  pub id : ℕ
  pub case_id : ℕ
  pub author : String
  pub content : String
  pub created_at : ℕ

pub record CaseEvent : Type 0 where
  pub id : ℕ
  pub case_id : ℕ
  pub event_type : String
  pub details : String
  pub actor : String
  pub created_at : ℕ

pub record CaseFinding : Type 0 where
  pub case_id : ℕ
  pub finding_id : ℕ

-- The tables of the service with their next keys; `engagements` and `finding_ids` are the keys of
-- the tables to which the rows refer.
pub record Cases : Type 0 where
  pub rows : List Case
  pub note_rows : List CaseNote
  pub event_rows : List CaseEvent
  pub links : List CaseFinding
  pub next_case : ℕ
  pub next_note : ℕ
  pub next_event : ℕ
  pub engagements : List ℕ
  pub finding_ids : List ℕ
  pub audit_log : List AuditEvent

abbrev pub has_id : ℕ → Case → Bool
has_id case_id c = c.id == case_id

unfoldable pub get : ℕ → Cases → Option Case
get case_id s = find? (has_id case_id) s.rows

-- `ORDER BY id DESC`: the rows are in the order of their keys.
unfoldable pub list : Cases → List Case
list s = reverse s.rows

unfoldable pub notes : ℕ → Cases → List CaseNote
notes case_id s = select (λ (n : CaseNote). n.case_id == case_id) s.note_rows

unfoldable pub events : ℕ → Cases → List CaseEvent
events case_id s = select (λ (e : CaseEvent). e.case_id == case_id) s.event_rows

unfoldable pub findings : ℕ → Cases → List CaseFinding
findings case_id s = select (λ (l : CaseFinding). l.case_id == case_id) s.links

-- `_record_event`, for a case that is there.
unfoldable pub note_event : ℕ → String → String → String → ℕ → Exec Cases (Unit {0})
note_event case_id event_type details actor now = modify (λ s. record s {
  event_rows =
      s.event_rows
      ++ record {
        id = s.next_event;
        case_id = case_id;
        event_type = event_type;
        details = details;
        actor = actor;
        created_at = now;
      }
        ∷ [];
  next_event = suc s.next_event;
})

unfoldable pub audit : Bool → AuditEvent → Exec Cases (Unit {0})
audit audit_on e = modify (λ s. record s { audit_log = record_event audit_on e s.audit_log })

abbrev pub case_audit : String → String → Option String → String → AuditEvent
case_audit event_type action actor target = record (event event_type) {
  actor = actor;
  workspace = some "BLUE_TEAM";
  action = some action;
  target = some target;
}

-- `text or None`
abbrev pub or_none : String → Option String
or_none text = if str_eq text "" then none else some text

-- `actor or ""`
abbrev pub or_empty : Option String → String
or_empty none = ""
or_empty (some text) = text

abbrev pub is_blank : String → Bool
is_blank text = str_eq text "" || str_eq (strip text) ""

abbrev pub known_engagement : Option ℕ → List ℕ → Bool
known_engagement none keys = true
known_engagement (some engagement_id) keys = any (λ key. key == engagement_id) keys

-- The arguments of `create` by name.
pub record NewCase : Type 0 where
  pub title : String
  pub description : String
  pub severity : String
  pub owner : String
  pub engagement_id : Option ℕ

abbrev pub new_case : ℕ → NewCase → ℕ → Case
new_case key c now = record {
  id = key;
  engagement_id = c.engagement_id;
  title = strip c.title;
  description = c.description;
  severity = c.severity;
  status = "open";
  owner = c.owner;
  created_at = now;
  updated_at = now;
}

-- Here and below `now` is the time of the row and `later` that of the event.
unfoldable pub create : Bool → NewCase → ℕ → ℕ → Exec Cases Case
create audit_on c now later = do
  raise_if (is_blank c.title) (value_error ("Case title must not be empty" ∷ []))
  raise_if (not (valid_severity c.severity)) (value_error ("Invalid severity: " ∷ c.severity ∷ []))
  known ← gets (λ s. known_engagement c.engagement_id s.engagements)
  raise_if (not known) integrity_error
  key ← gets (λ s. s.next_case)
  modify (λ s. record s { rows = s.rows ++ new_case key c now ∷ []; next_case = suc key })
  found ← gets (get key)
  row ← assert_some found
  note_event row.id "created" ("case created (" <> row.title <> ")") c.owner later
  audit audit_on (case_audit "case.create" "case.create" (or_none c.owner) ("case:" <> show row.id))
  pure row

abbrev pub unknown_case : ℕ → List String
unknown_case case_id = "Unknown case: " ∷ show case_id ∷ []

abbrev pub links_to : ℕ → ℕ → CaseFinding → Bool
links_to case_id finding_id l = l.case_id == case_id && l.finding_id == finding_id

unfoldable pub add_finding : Bool → ℕ → ℕ → Option String → ℕ → Exec Cases (Unit {0})
add_finding audit_on case_id finding_id actor later = do
  found ← gets (get case_id)
  or_raise found (value_error (unknown_case case_id))
  known ← gets (λ s. any (λ key. key == finding_id) s.finding_ids)
  raise_if (not known) database_error
  modify (λ s. record s {
    links =
        if any (links_to case_id finding_id) s.links
        then s.links
        else s.links ++ record { case_id = case_id; finding_id = finding_id } ∷ [];
  })
  note_event case_id "finding_linked" ("finding " <> show finding_id <> " linked") (or_empty actor)
      later
  audit audit_on (
      case_audit "case.add_finding" "case.add_finding" actor
        ("case:" <> show case_id <> " finding:" <> show finding_id))

abbrev pub set_row : String → ℕ → Case → Case
set_row status now c = record c { status = status; updated_at = now }

unfoldable pub set_status : Bool → ℕ → String → Option String → ℕ → ℕ → Exec Cases Case
set_status audit_on case_id status actor now later = do
  raise_if (not (valid_status status)) (value_error ("Invalid status: " ∷ status ∷ []))
  modify (λ s. record s { rows = update_where (has_id case_id) (set_row status now) s.rows })
  found ← gets (get case_id)
  row ← or_raise found (value_error (unknown_case case_id))
  note_event case_id "status" ("status -> " <> status) (or_empty actor) later
  audit audit_on
      (case_audit "case.status" ("case.status:" <> status) actor ("case:" <> show case_id))
  pure row

unfoldable pub close : Bool → ℕ → Option String → ℕ → ℕ → Exec Cases Case
close audit_on case_id actor now later = set_status audit_on case_id "closed" actor now later

abbrev pub or_text : String → String → String
or_text a b = if str_eq a "" then b else a

unfoldable pub reopen : Bool → ℕ → String → Option String → ℕ → ℕ → Exec Cases Case
reopen audit_on case_id reason actor now later = do
  found ← gets (get case_id)
  or_raise found (value_error (unknown_case case_id))
  modify (λ s. record s { rows = update_where (has_id case_id) (set_row "open" now) s.rows })
  note_event case_id "reopen" (or_text reason "reopened") (or_empty actor) later
  audit audit_on (record (case_audit "case.reopen" "case.reopen" actor ("case:" <> show case_id)) {
    payload = field "reason" (Json.str reason) end;
  })
  updated ← gets (get case_id)
  assert_some updated

unfoldable pub get_note : ℕ → Exec Cases CaseNote
get_note note_id = do
  found ← gets (λ s. find? (λ (n : CaseNote). n.id == note_id) s.note_rows)
  assert_some found

unfoldable pub add_note : Bool → ℕ → String → String → ℕ → ℕ → Exec Cases CaseNote
add_note audit_on case_id content author now later = do
  found ← gets (get case_id)
  or_raise found (value_error (unknown_case case_id))
  raise_if (is_blank content) (value_error ("Note content must not be empty" ∷ []))
  key ← gets (λ s. s.next_note)
  modify (λ s. record s {
    note_rows =
        s.note_rows
        ++ record {
          id = key;
          case_id = case_id;
          author = author;
          content = strip content;
          created_at = now;
        }
          ∷ [];
    next_note = suc key;
  })
  note_event case_id "note" "note added" author later
  audit audit_on (case_audit "case.note" "case.note" (or_none author) ("case:" <> show case_id))
  get_note key

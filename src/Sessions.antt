-- ===== src/Sessions.antt =====
-- sessions/manager.py: the life of a session. A session row is joined with its user, workspace and
-- role when it is read; here it carries those names from the start.
pub mod Lifecycle
use ksec.Prelude.{
  ℕ, String, Bool, true, false, not, ◌&&◌, ◌||◌, Option, none, some, List, [], ◌∷◌, ◌++◌, ltb, ◌==◌,
  str_eq, any, select, find?, update_where, if◌then◌else◌,
}
use ksec.Prelude.Exec.{
  Exec, pure, raise, raise_if, modify, gets, or_raise, assert_some, session_error, database_error,
  ◌>>=◌, ◌>>◌,
}
use ksec.Prelude.Sort.{sort_by}
use ksec.Prelude.Strings.{◌<>◌}
use ksec.Rbac.{Tables, Role, workspace_id, user_roles, role_named}
use ksec.Audit.{AuditEvent, event, record_event}

-- `SESSION_STATES`
pub data SessionState : Type 0 where
  created active paused closed failed : SessionState

abbrev pub state_text : SessionState → String
state_text created = "CREATED"
state_text active = "ACTIVE"
state_text paused = "PAUSED"
state_text closed = "CLOSED"
state_text failed = "FAILED"

-- `new_state.lower()`
abbrev pub lower_text : SessionState → String
lower_text created = "created"
lower_text active = "active"
lower_text paused = "paused"
lower_text closed = "closed"
lower_text failed = "failed"

-- `new_state not in SESSION_STATES`: `none` for a text that names no state.
abbrev pub read_state : String → Option SessionState
read_state text =
    if str_eq text "CREATED"
    then some created
    else if str_eq text "ACTIVE"
    then some active
    else if str_eq text "PAUSED"
    then some paused
    else if str_eq text "CLOSED"
    then some closed
    else if str_eq text "FAILED"
    then some failed
    else none

-- `_ALLOWED_TRANSITIONS`
abbrev pub allowed : SessionState → SessionState → Bool
allowed created active = true
allowed created failed = true
allowed created closed = true
allowed active paused = true
allowed active closed = true
allowed active failed = true
allowed paused active = true
allowed paused closed = true
allowed _ _ = false

pub record User : Type 0 where
  pub id : ℕ
  pub username : String
  pub status : String

pub record Session : Type 0 where
  pub id : String
  pub user_id : ℕ
  pub username : String
  pub workspace_id : ℕ
  pub workspace : String
  pub role_id : ℕ
  pub role : String
  pub state : SessionState
  pub created_at : ℕ
  pub closed_at : Option ℕ

pub record Sessions : Type 0 where
  pub rows : List Session
  pub audit_log : List AuditEvent

abbrev pub has_id : String → Session → Bool
has_id session_id session = str_eq session.id session_id

unfoldable pub get : String → Sessions → Option Session
get session_id s = find? (has_id session_id) s.rows

abbrev newer : Session → Session → Bool
newer a b = ltb b.created_at a.created_at

abbrev pub owned_by : ℕ → Session → Bool
owned_by user_id session = session.user_id == user_id

unfoldable pub list : Option ℕ → Sessions → List Session
list none s = sort_by newer s.rows
list (some user_id) s = sort_by newer (select (owned_by user_id) s.rows)

abbrev pub session_event : String → Session → AuditEvent
session_event name session = record (event name) {
  actor = some session.username;
  session_id = some session.id;
  workspace = some session.workspace;
  action = some name;
}

unfoldable pub note : Bool → AuditEvent → Exec Sessions (Unit {0})
note audit_on e = modify (λ s. record s { audit_log = record_event audit_on e s.audit_log })

abbrev pub closing_time : SessionState → ℕ → Option ℕ
closing_time closed now = some now
closing_time _ now = none

abbrev pub set_row : SessionState → ℕ → Session → Session
set_row state now session = record session { state = state; closed_at = closing_time state now }

-- `transition` to a state of the table; `now` is the time of the row.
unfoldable pub move_to : Bool → String → SessionState → ℕ → Exec Sessions Session
move_to audit_on session_id state now = do
  entry ← gets (get session_id)
  session ← or_raise entry (session_error ("Unknown session: " ∷ session_id ∷ []))
  raise_if (not (allowed session.state state)) (
      session_error
        ("Cannot move session from " ∷ state_text session.state ∷ " to " ∷ state_text state ∷ []))
  modify (λ s. record s { rows = update_where (has_id session_id) (set_row state now) s.rows })
  note audit_on (session_event ("session." <> lower_text state) session)
  updated ← gets (get session_id)
  assert_some updated

unfoldable pub transition : Bool → String → String → ℕ → Exec Sessions Session
transition audit_on session_id new_state now = elim (read_state new_state) [
  | none ↦ raise (session_error ("Unknown session state: " ∷ new_state ∷ []))
  | some state ↦ move_to audit_on session_id state now
]

unfoldable pub close : Bool → String → ℕ → Exec Sessions Session
close audit_on session_id now = transition audit_on session_id "CLOSED" now

unfoldable pub pause : Bool → String → ℕ → Exec Sessions Session
pause audit_on session_id now = transition audit_on session_id "PAUSED" now

unfoldable pub resume : Bool → String → ℕ → Exec Sessions Session
resume audit_on session_id now = transition audit_on session_id "ACTIVE" now

-- The role of a new session: the named one of the user's roles, or the first.
abbrev pub choose_role : Option String → List Role → Option Role
choose_role none [] = none
choose_role none (role ∷ roles) = some role
choose_role (some name) roles = find? (role_named name) roles

abbrev pub new_session : String → ℕ → User → ℕ → String → Role → Session
new_session session_id now user workspace name role = record {
  id = session_id;
  user_id = user.id;
  username = user.username;
  workspace_id = workspace;
  workspace = name;
  role_id = role.id;
  role = role.name;
  state = active;
  created_at = now;
  closed_at = none;
}

-- `role_name` is `none` for an absent or empty name; `session_id` is the value of `uuid4().hex`.
unfoldable pub open_session :
    Bool → Tables → User → String → Option String → String → ℕ → Exec Sessions Session
open_session audit_on tables user workspace_name role_name session_id now = do
  workspace ←
      or_raise (workspace_id workspace_name tables)
        (session_error ("Unknown workspace: " ∷ workspace_name ∷ []))
  role ← elim (user_roles user.id tables) [
    | [] ↦ raise (session_error ("User " ∷ user.username ∷ " has no roles assigned" ∷ []))
    | first ∷ rest ↦ or_raise (choose_role role_name (first ∷ rest)) (
        session_error (
          "User "
          ∷ user.username
          ∷ " does not have role "
          ∷ (elim role_name [ none ↦ "" | some n ↦ n ])
          ∷ []))
  ]
  taken ← gets (λ s. any (has_id session_id) s.rows)
  raise_if taken database_error
  modify (λ s. record s {
    rows = s.rows ++ new_session session_id now user workspace workspace_name role ∷ [];
  })
  note audit_on
      (session_event "session.open" (new_session session_id now user workspace workspace_name role))
  session ← gets (get session_id)
  assert_some session

abbrev pub is_active : SessionState → Bool
is_active active = true
is_active _ = false

-- The session of an id, if the user owns it.
unfoldable pub owned : String → ℕ → Exec Sessions Session
owned session_id user_id = do
  entry ← gets (get session_id)
  target ← or_raise entry (session_error ("Unknown session: " ∷ session_id ∷ []))
  raise_if (not (owned_by user_id target))
      (session_error ("Session belongs to a different user" ∷ []))
  pure target

-- One round of the loop of `switch`.
unfoldable pub pause_other : Bool → String → (String → ℕ) → Session → Exec Sessions (Unit {0})
pause_other audit_on session_id now session =
    if not (has_id session_id session) && is_active session.state
    then (do transition audit_on session.id "PAUSED" (now session.id); pure tt)
    else pure tt

-- The loop of `switch` over the user's sessions.
unfoldable pub pause_others : Bool → String → (String → ℕ) → List Session → Exec Sessions (Unit {0})
pause_others audit_on session_id now [] = pure tt
pause_others audit_on session_id now (session ∷ rest) = do
  pause_other audit_on session_id now session
  pause_others audit_on session_id now rest

unfoldable pub switch : Bool → User → String → (String → ℕ) → Exec Sessions Session
switch audit_on user session_id now = do
  target ← owned session_id user.id
  sessions ← gets (list (some user.id))
  pause_others audit_on session_id now sessions
  if is_active target.state
      then pure target
      else transition audit_on session_id "ACTIVE" (now session_id)

unfoldable pub reconnect : Bool → User → String → ℕ → Exec Sessions Session
reconnect audit_on user session_id now = do
  target ← owned session_id user.id
  if is_active target.state then pure target else transition audit_on session_id "ACTIVE" now

unfoldable pub require_active : String → ℕ → Exec Sessions Session
require_active session_id user_id = do
  session ← owned session_id user_id
  raise_if (not (is_active session.state))
      (session_error ("Session is " ∷ state_text session.state ∷ ", expected ACTIVE" ∷ []))
  pure session

-- ===== src/Policies.antt =====
-- policies/engine.py: the decision on an action.
pub mod Decisions
use ksec.Prelude.{
  ℕ, String, Bool, true, false, not, ◌&&◌, ◌||◌, Option, none, some, List, [], ◌∷◌, ◌++◌, ◌==◌,
  str_eq, any, if◌then◌else◌,
}
use ksec.Prelude.Exec.{Message}
use ksec.Prelude.Strings.{strip, lower, ends_with, contains}
use ksec.Rbac.{Tables, user_has_permission}
use ksec.Sessions.{User, Session, state_text, is_active}
use ksec.Authorization.{Library, Authorizations, is_target_authorized, strip_port, nonempty}

pub data Decision : Type 0 where
  allow deny require_confirmation require_privilege require_authorization : Decision

pub record PolicyResult : Type 0 where
  pub decision : Decision
  pub reason : Message

-- config/loader.py: the settings that the engine reads.
pub record Settings : Type 0 where
  pub require_authorization : Bool
  pub lab_mode : Bool
  pub read_only : Bool
  pub safe_mode : Bool

abbrev pub lab_networks : List String
lab_networks =
    "127.0.0.0/8" ∷ "10.0.0.0/8" ∷ "172.16.0.0/12" ∷ "192.168.0.0/16" ∷ "169.254.0.0/16" ∷ "::1/128"
    ∷ "fc00::/7" ∷ []

abbrev pub lab_tlds : List String
lab_tlds = ".test" ∷ ".local" ∷ ".lab" ∷ ".ctf" ∷ ".lan" ∷ ".internal" ∷ ".example" ∷ []

abbrev pub lab_markers : List String
lab_markers = "lab" ∷ "ctf" ∷ "target" ∷ "sandbox" ∷ "training" ∷ "localhost" ∷ []

abbrev pub inside : Option Bool → Bool
inside none = false
inside (some b) = b

-- The host of a URL, else the text without a port.
unfoldable pub lab_host : Library → String → String
lab_host lib t = elim (lib.split_url t) [
  | none ↦ strip_port t
  | some url ↦ elim url.hostname [
    | none ↦ strip_port t
    | some hostname ↦ strip_port (if nonempty url.scheme && nonempty hostname then hostname else t)
  ]
]

unfoldable pub is_lab_host : Library → String → Bool
is_lab_host lib t =
    if lib.is_address t
    then any (λ net. inside (lib.in_network t net)) lab_networks
    else any (λ tld. ends_with tld t) lab_tlds || any (λ marker. contains marker t) lab_markers

-- `_is_lab_target`
unfoldable pub is_lab_target : Library → String → Bool
is_lab_target lib target =
    if str_eq target "" then false else is_lab_host lib (lab_host lib (lower (strip target)))

abbrev pub mutating_actions : List String
mutating_actions =
    "tools.install" ∷ "findings.manage" ∷ "evidence.manage" ∷ "cases.manage" ∷ "users.manage"
    ∷ "roles.manage" ∷ "config.manage" ∷ []

abbrev pub is_mutating : String → Bool
is_mutating action = any (λ name. str_eq name action) mutating_actions

-- The tables that the engine reads, the clock and the settings.
pub record Engine : Type 0 where
  pub settings : Settings
  pub library : Library
  pub tables : Tables
  pub authorizations : Authorizations
  pub now : ℕ

pub record Query : Type 0 where
  pub user : User
  pub action : String
  pub session : Option Session
  pub target : Option String
  pub engagement_id : Option ℕ

abbrev pub refuse : Message → Option PolicyResult
refuse reason = some (record { decision = deny; reason = reason })

-- 1. Account status.
unfoldable pub check_account : Query → Option PolicyResult
check_account q =
    if str_eq q.user.status "active" then none else refuse ("User account is " ∷ q.user.status ∷ [])

-- 2. Session validity and ownership.
unfoldable pub session_answer : User → Option Session → Option PolicyResult
session_answer user none = none
session_answer user (some session) =
    if not (is_active session.state)
    then refuse ("Session is " ∷ state_text session.state ∷ ", expected ACTIVE" ∷ [])
    else if not (session.user_id == user.id)
    then refuse ("Session belongs to a different user" ∷ [])
    else none

abbrev pub check_session : Query → Option PolicyResult
check_session q = session_answer q.user q.session

-- 3. Role permission.
unfoldable pub check_permission : Engine → Query → Option PolicyResult
check_permission e q =
    if user_has_permission q.user.id q.action e.tables
    then none
    else refuse ("User " ∷ q.user.username ∷ " lacks permission " ∷ q.action ∷ [])

abbrev pub scope_result : String → String → Bool × Message → Option PolicyResult
scope_result target action (true, reason) = none
scope_result target action (false, reason) = some (record {
  decision = require_authorization;
  reason = "Target " ∷ target ∷ " not authorized for " ∷ action ∷ ": " ∷ reason;
})

-- 4. Authorization and scope, where an authorization is required.
unfoldable pub scope_answer : Engine → String → Option String → Option ℕ → Option PolicyResult
scope_answer e action none engagement_id = none
scope_answer e action (some target) none = some (record {
  decision = require_authorization;
  reason = "Action on a target requires an engagement authorization" ∷ [];
})
scope_answer e action (some target) (some engagement_id) =
    scope_result target action
      (is_target_authorized e.library e.now engagement_id target action e.authorizations)

abbrev pub check_scope : Engine → Query → Option PolicyResult
check_scope e q =
    if e.settings.require_authorization
    then scope_answer e q.action q.target q.engagement_id
    else none

-- 5. Lab mode, where it is on.
unfoldable pub lab_answer : Engine → Option String → Option PolicyResult
lab_answer e none = none
lab_answer e (some target) =
    if is_lab_target e.library target
    then none
    else refuse
        ("Lab/CTF mode active: target " ∷ target ∷ " is not a lab-range/lab-labelled host" ∷ [])

abbrev pub check_lab : Engine → Query → Option PolicyResult
check_lab e q = if e.settings.lab_mode then lab_answer e q.target else none

-- 6. Safety settings.
unfoldable pub check_safety : Engine → Query → Option PolicyResult
check_safety e q =
    if e.settings.read_only && is_mutating q.action
    then refuse ("Platform is in read-only mode" ∷ [])
    else if e.settings.safe_mode && str_eq q.action "tools.install"
    then some (record {
      decision = require_confirmation;
      reason = "Safe mode requires confirmation for tool installation" ∷ [];
    })
    else none

-- The first check that answers decides.
abbrev pub first_answer : List (Option PolicyResult) → PolicyResult
first_answer [] = record { decision = allow; reason = "Permitted by policy" ∷ [] }
first_answer (none ∷ rest) = first_answer rest
first_answer (some result ∷ rest) = result

unfoldable pub evaluate : Engine → Query → PolicyResult
evaluate e q = first_answer (
    check_account q
    ∷ check_session q
    ∷ check_permission e q
    ∷ check_scope e q
    ∷ check_lab e q
    ∷ check_safety e q
    ∷ [])

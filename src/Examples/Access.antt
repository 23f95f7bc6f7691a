-- ===== src/Examples/Access.antt =====
-- Roles, sessions, scope, policy, evidence, cases and schedules on small data.
use ksec.Prelude.{
  String, ◌≡◌, ◌↔◌, refl, true, false, ◌&&◌, ◌||◌, none, some, [], ◌∷◌, ◌++◌, ◌==◌, find?, any,
  if◌then◌else◌,
}
use ksec.Prelude.Exec.{returned, raised, database_error}
use ksec.Rbac.{
  Tables, Role, role_named, assigned, is_user, assign_role, role_has_permission,
  user_has_permission,
}
use ksec.Rbac.Grants.{assign_role-user_has_permission}
use ksec.Sessions.{Session, Sessions, closed, get, transition}
use ksec.Sessions.Lifecycle.{transition-final}
use ksec.Authorization.{Library, Authorizations, is_target_authorized}
use ksec.Authorization.Scope.{Covered, is_target_authorized_iff}
use ksec.Policies.{allow, Engine, Query, evaluate}
use ksec.Policies.Decisions.{Permitted, evaluate-allow_iff}
use ksec.Schedules.Cron.{When, cron_matches}
use ksec.Schedules.Cron.Meaning.{current_cron_minute, current_cron_minute_iff}
use ksec.Evidence.{
  EvidenceTables, Evidence, Collected, add, verify, custody_log, custody_event, captured, verified,
  known_engagement,
}
use ksec.Evidence
use ksec.Evidence.Custody.{IsFresh, verdict, entry_of, verify_lem, add-verify}
use ksec.Cases.{Cases}
use ksec.Cases.Records.{Request, after, Keeps, after-Keeps}

abbrev analyst : Role
analyst = record { id = 3; name = "analyst" }

abbrev tables : Tables
tables = record {
  users = 1 ∷ 2 ∷ [];
  workspaces = [];
  roles = analyst ∷ [];
  permissions = record { id = 5; name = "recon.run" } ∷ [];
  role_permissions = record { role_id = 3; permission_id = 5 } ∷ [];
  user_roles = record { user_id = 1; role_id = 3 } ∷ [];
}

analyst_found : find? (role_named "analyst") tables.roles ≡ some analyst
unfolding find?
analyst_found = refl

assign_role-user_has_permission_example :
    ((assign_role 2 "analyst" tables).0 ≡ (
      if any (assigned 2 3) tables.user_roles || is_user 2 tables
      then returned tt
      else raised database_error))
    × (user_has_permission 2 "recon.run" (assign_role 2 "analyst" tables).1 ≡ (
        user_has_permission 2 "recon.run" tables
        || ((any (assigned 2 3) tables.user_roles || is_user 2 tables)
            && ((2 == 2) && role_has_permission 3 "recon.run" tables))))
assign_role-user_has_permission_example =
    assign_role-user_has_permission 2 "analyst" tables analyst 2 "recon.run" analyst_found

abbrev past : Session
past = record {
  id = "s";
  user_id = 1;
  username = "ada";
  workspace_id = 1;
  workspace = "RED_TEAM";
  role_id = 3;
  role = "analyst";
  state = closed;
  created_at = 1;
  closed_at = some 2;
}

abbrev sessions : Sessions
sessions = record { rows = past ∷ []; audit_log = [] }

past_found : get "s" sessions ≡ some past
unfolding get find?
past_found = refl

transition-final_example : get "s" (transition true "s" "ACTIVE" 9 sessions).1 ≡ some past
transition-final_example = transition-final true "s" "ACTIVE" 9 sessions "s" past past_found refl

abbrev plain_library : Library
plain_library = record {
  split_url = λ t. none;
  is_address = λ t. false;
  in_network = λ target pattern. none;
  from_iso = λ t. none;
}

abbrev authorizations : Authorizations
authorizations = record {
  engagements =
      record {
        id = 1;
        name = "lab";
        description = "";
        status = "open";
        created_at = 1;
        valid_from = none;
        valid_until = none;
      }
      ∷ [];
  rules =
      record { id = 1; engagement_id = 1; target = "lab.test"; action = "*"; effect = "allow" }
      ∷ [];
  next_engagement = 2;
  next_rule = 2;
  audit_log = [];
}

is_target_authorized_iff_example :
    ((is_target_authorized plain_library 9 1 "web.lab.test" "recon.run" authorizations).0 ≡ true)
    ↔ Covered plain_library 9 1 "web.lab.test" "recon.run" authorizations
is_target_authorized_iff_example =
    is_target_authorized_iff plain_library 9 1 "web.lab.test" "recon.run" authorizations

abbrev engine : Engine
engine = record {
  settings = record {
    require_authorization = true;
    lab_mode = true;
    read_only = false;
    safe_mode = true;
  };
  library = plain_library;
  tables = tables;
  authorizations = authorizations;
  now = 9;
}

abbrev query : Query
query = record {
  user = record { id = 1; username = "ada"; status = "active" };
  action = "recon.run";
  session = none;
  target = some "web.lab.test";
  engagement_id = some 1;
}

evaluate-allow_iff_example : ((evaluate engine query).decision ≡ allow) ↔ Permitted engine query
evaluate-allow_iff_example = evaluate-allow_iff engine query

abbrev noon : When
noon = record { minute = 0; hour = 12; day = 31; month = 5; weekday = 7 }

current_cron_minute_iff_example : (cron_matches (current_cron_minute noon) noon ≡ true) ↔ (
    (noon.minute ≡ noon.minute)
    × (noon.hour ≡ noon.hour)
    × (noon.day ≡ noon.day)
    × (noon.month ≡ noon.month))
current_cron_minute_iff_example = current_cron_minute_iff noon noon

abbrev hash : String → String
hash content = content

abbrev log_file : Collected
log_file = record {
  content = "GET /";
  tool = "tail";
  tool_version = "";
  operator = "";
  collection_method = "";
  source = "web1";
  session_id = none;
  engagement_id = some 1;
}

abbrev no_evidence : EvidenceTables
no_evidence = record {
  rows = [];
  custody = [];
  next_evidence = 1;
  next_event = 1;
  engagements = 1 ∷ [];
}

IsFresh-tables : IsFresh no_evidence
IsFresh-tables = record { rows = tt; custody = tt }

engagement_known : known_engagement (some 1) (1 ∷ []) ≡ true
unfolding any
engagement_known = refl

add-verify_example :
    ((verify hash 1 8 (add hash log_file 5 6 no_evidence).1).0
      ≡ returned (true, "integrity verified"))
    × (custody_log 1 (verify hash 1 8 (add hash log_file 5 6 no_evidence).1).1
        ≡ custody_event 1 1 (captured log_file) 6 ∷ custody_event 2 1 verified 8 ∷ [])
add-verify_example = add-verify hash log_file 5 6 8 no_evidence IsFresh-tables engagement_known

abbrev altered : Evidence
altered = record {
  id = 1;
  engagement_id = none;
  session_id = none;
  tool = "";
  tool_version = "";
  operator = "";
  collection_method = "";
  source = "";
  sha256 = "GET /";
  content = "GET /admin";
  created_at = 5;
}

abbrev altered_tables : EvidenceTables
altered_tables = record {
  rows = altered ∷ [];
  custody = [];
  next_evidence = 2;
  next_event = 1;
  engagements = [];
}

altered_found : Evidence.get 1 altered_tables ≡ some altered
unfolding Evidence.get find?
altered_found = refl

verify_lem_example :
    ((verify hash 1 8 altered_tables).0 ≡ returned (verdict false))
    × ((verify hash 1 8 altered_tables).1.rows ≡ altered_tables.rows)
    × (custody_log 1 (verify hash 1 8 altered_tables).1
        ≡ custody_log 1 altered_tables ++ custody_event 1 1 (entry_of false) 8 ∷ [])
verify_lem_example = verify_lem hash 1 8 altered_tables altered 1 altered_found

abbrev cases : Cases
cases = record {
  rows = [];
  note_rows = [];
  event_rows = [];
  links = [];
  next_case = 1;
  next_note = 1;
  next_event = 1;
  engagements = [];
  finding_ids = [];
  audit_log = [];
}

abbrev open_a_case : Request
open_a_case =
    Request.create_case
      (record {
        title = "phish";
        description = "";
        severity = "low";
        owner = "ada";
        engagement_id = none;
      })
      3 4

after-Keeps_example : Keeps cases (after true open_a_case cases)
after-Keeps_example = after-Keeps true open_a_case cases

-- ===== src/Authorization.antt =====
-- authorization/service.py: engagements, their scope rules, and whether a target is authorised.
pub mod Targets
pub mod Scope
unfoldable pub use Targets.*
use Prim.Native.Char.{code}
use ksec.Prelude.{
  ℕ, suc, String, Bool, true, false, not, ◌&&◌, ◌||◌, Option, none, some, List, [], ◌∷◌, ◌++◌, ltb,
  ◌==◌, is_missing, str_eq, any, find?, select, chars, if◌then◌else◌,
}
use ksec.Prelude.Exec.{
  Exec, Message, pure, raise, raise_if, modify, gets, or_raise, assert_some, authorization_error,
  integrity_error, ◌>>=◌, ◌>>◌,
}
use ksec.Prelude.Json.{Json, field, end}
use ksec.Prelude.Strings.{
  strip, lower, count_char, before_char, after_char, after_prefix, ends_with, isdigit, replace_char,
  ◌<>◌,
}
use ksec.Prelude.Strings.Decimal.{show}
use ksec.Audit.{AuditEvent, event, record_event}

pub record Engagement : Type 0 where
  pub id : ℕ
  pub name : String
  pub description : String
  pub status : String
  pub created_at : ℕ
  pub valid_from : Option String
  pub valid_until : Option String

-- `not value`
abbrev pub given : Option String → Bool
given none = false
given (some value) = nonempty value

-- `text[k] == "-"`
unfoldable pub dash_at : ℕ → String → Bool
dash_at k String.[] = false
dash_at ℕ.zero (String.◌∷◌ c s) = code c == b'-'
dash_at (suc k) (String.◌∷◌ c s) = dash_at k s

-- The text of a date alone gets midnight.
abbrev pub with_time : String → String
with_time text =
    if chars text == 10 && dash_at 4 text && dash_at 7 text then text <> "T00:00:00+00:00" else text

-- `_parse_ts`; the library reads a text with no offset as UTC, as the code does.
unfoldable pub parse_ts : Library → Option String → Option ℕ
parse_ts lib none = none
parse_ts lib (some value) =
    if nonempty value
    then lib.from_iso (replace_char b'Z' "+00:00" (with_time (strip value)))
    else none

pub data WindowStatus : Type 0 where
  no_window not_yet_valid expired active : WindowStatus

abbrev pub starts_later : Option ℕ → ℕ → Bool
starts_later none now = false
starts_later (some start) now = ltb now start

abbrev pub has_ended : Option ℕ → ℕ → Bool
has_ended none now = false
has_ended (some finish) now = ltb finish now

unfoldable pub window_status : Library → ℕ → Engagement → WindowStatus
window_status lib now e =
    if not (given e.valid_from) && not (given e.valid_until)
    then no_window
    else if starts_later (parse_ts lib e.valid_from) now
    then not_yet_valid
    else if has_ended (parse_ts lib e.valid_until) now
    then expired
    else active

pub record Rule : Type 0 where
  pub id : ℕ
  pub engagement_id : ℕ
  pub target : String
  pub action : String
  pub effect : String

-- The tables of the service, with the next values of their keys.
pub record Authorizations : Type 0 where
  pub engagements : List Engagement
  pub rules : List Rule
  pub next_engagement : ℕ
  pub next_rule : ℕ
  pub audit_log : List AuditEvent

unfoldable pub get_engagement : ℕ → Authorizations → Option Engagement
get_engagement engagement_id s = find? (λ (e : Engagement). e.id == engagement_id) s.engagements

-- The rows are in the order of their keys.
unfoldable pub list_engagements : Authorizations → List Engagement
list_engagements s = s.engagements

abbrev pub bad_time : Library → Option String → Bool
bad_time lib value = given value && (elim (parse_ts lib value) [ none ↦ true | some _ ↦ false ])

abbrev pub text_or_empty : Option String → String
text_or_empty none = ""
text_or_empty (some t) = t

abbrev pub json_text : Option String → Json
json_text none = Json.null
json_text (some t) = Json.str t

abbrev pub actor_name : (ℕ → Option String) → Option ℕ → Option String
actor_name usernames none = none
actor_name usernames (some user_id) = usernames user_id

-- What the service is given: the library, the names of the users, and whether it audits.
pub record Context : Type 0 where
  pub library : Library
  pub usernames : ℕ → Option String
  pub audit_on : Bool

-- Whether the table `users` has a row of the id.
abbrev pub has_name : Context → ℕ → Bool
has_name ctx user_id = elim (ctx.usernames user_id) [ none ↦ false | some name ↦ true ]

unfoldable pub create_engagement :
    Context
    → ℕ
    → String
    → String
    → Option ℕ
    → Option String
    → Option String
    → Exec Authorizations Engagement
create_engagement ctx now name description created_by valid_from valid_until = do
  raise_if (str_eq (strip name) "") (authorization_error ("Engagement name must not be empty" ∷ []))
  raise_if (bad_time ctx.library valid_until) (
      authorization_error
        ("invalid valid_until timestamp: " ∷ text_or_empty valid_until ∷ " (use ISO-8601)" ∷ []))
  raise_if (bad_time ctx.library valid_from) (
      authorization_error
        ("invalid valid_from timestamp: " ∷ text_or_empty valid_from ∷ " (use ISO-8601)" ∷ []))
  raise_if (is_missing (has_name ctx) created_by) integrity_error
  key ← gets (λ s. s.next_engagement)
  modify (λ s. record s {
    engagements =
        s.engagements
        ++ record {
          id = key;
          name = strip name;
          description = description;
          status = "open";
          created_at = now;
          valid_from = valid_from;
          valid_until = valid_until;
        }
          ∷ [];
    next_engagement = suc key;
  })
  entry ← gets (get_engagement key)
  engagement ← assert_some entry
  modify (λ s. record s {
    audit_log =
        record_event ctx.audit_on
          (record (event "authz.engagement.create") {
            actor = actor_name ctx.usernames created_by;
            action = some "authz.engagement.create";
            target = some ("engagement:" <> show key <> ":" <> engagement.name);
            payload =
                field "valid_from" (json_text valid_from)
                  (field "valid_until" (json_text valid_until) end);
          })
          s.audit_log;
  })
  pure engagement

abbrev pub valid_effect : String → Bool
valid_effect effect = str_eq effect "allow" || str_eq effect "deny"

unfoldable pub add_authorization :
    Context → ℕ → String → String → String → Option ℕ → Exec Authorizations ℕ
add_authorization ctx engagement_id target action effect created_by = do
  raise_if (not (valid_effect effect)) (authorization_error ("Invalid effect: " ∷ effect ∷ []))
  entry ← gets (get_engagement engagement_id)
  or_raise entry (authorization_error ("Unknown engagement: " ∷ show engagement_id ∷ []))
  raise_if (is_missing (has_name ctx) created_by) integrity_error
  key ← gets (λ s. s.next_rule)
  modify (λ s. record s {
    rules =
        s.rules
        ++ record {
          id = key;
          engagement_id = engagement_id;
          target = strip target;
          action = action;
          effect = effect;
        }
          ∷ [];
    next_rule = suc key;
  })
  modify (λ s. record s {
    audit_log =
        record_event ctx.audit_on
          (record (event "authz.scope.add") {
            actor = actor_name ctx.usernames created_by;
            action = some ("authz.scope.add:" <> effect);
            target = some ("engagement:" <> show engagement_id);
            payload =
                field "target" (Json.str (strip target))
                  (field "action" (Json.str action) (field "effect" (Json.str effect) end));
          })
          s.audit_log;
  })
  pure key

abbrev pub rules_of : ℕ → Authorizations → List Rule
rules_of engagement_id s = select (λ (r : Rule). r.engagement_id == engagement_id) s.rules

unfoldable pub list_authorizations : ℕ → Authorizations → List Rule
list_authorizations engagement_id s = rules_of engagement_id s

-- A rule with the effect that covers the action and the target.
abbrev pub applies : Library → String → String → String → Rule → Bool
applies lib effect target action rule =
    str_eq rule.effect effect
    && (str_eq rule.action "*" || str_eq rule.action action)
    && target_matches lib target rule.target

-- The two loops over the rules: deny rules first.
unfoldable pub scope_verdict : Library → String → String → List Rule → Bool × Message
scope_verdict lib target action rules = elim (find? (applies lib "deny" target action) rules) [
  | some rule ↦ (false, "denied by rule " ∷ rule.target ∷ [])
  | none ↦
      if any (applies lib "allow" target action) rules
      then (true, "authorized" ∷ [])
      else (false, "no matching authorization record" ∷ [])
]

-- The answer for an engagement that is there: `verdict` is that of its rules.
abbrev pub in_window : Engagement → WindowStatus → Bool × Message → Bool × Message
in_window engagement expired verdict =
    (false, "engagement expired on " ∷ text_or_empty engagement.valid_until ∷ [])
in_window engagement not_yet_valid verdict =
    (false, "engagement not valid until " ∷ text_or_empty engagement.valid_from ∷ [])
in_window engagement no_window verdict = verdict
in_window engagement active verdict = verdict

unfoldable pub is_target_authorized :
    Library → ℕ → ℕ → String → String → Authorizations → Bool × Message
is_target_authorized lib now engagement_id target action s = elim (get_engagement engagement_id s) [
  | none ↦ (false, "unknown engagement" ∷ [])
  | some engagement ↦
      in_window engagement (window_status lib now engagement)
        (scope_verdict lib target action (rules_of engagement_id s))
]

-- ===== src/Policies/Decisions.antt =====
-- When the policy engine allows an action.
use ksec.Prelude.{
  ℕ, String, ◌≡◌, ◌≢◌, All, ◌↔◌, inl, inr, refl, Bool, true, false, ◌&&◌, Option, none, some, List,
  [], ◌∷◌, arith, ◌==◌, str_eq, eq_iff, Bool-cases, if◌then◌else◌,
}
use ksec.Prelude.Exec.{Message}
use ksec.Rbac.{user_has_permission}
use ksec.Sessions.{User, Session, SessionState, active, is_active}
use ksec.Authorization.{is_target_authorized}
use ksec.Policies.{
  allow, PolicyResult, Engine, Query, check_account, check_session, check_permission, check_scope,
  check_lab, check_safety, session_answer, scope_answer, lab_answer, evaluate, first_answer,
  is_lab_target, is_mutating, scope_result,
}

-- The session, if the query has one, is active and is the user's.
abbrev pub SessionFits : User → Option Session → Type 0
SessionFits user none = Unit
SessionFits user (some session) = (session.state ≡ active) × (session.user_id ≡ user.id)

-- The target, if there is one, is authorised by the engagement that the query names.
abbrev pub InScope : Engine → Query → Option String → Option ℕ → Type 0
InScope e q none engagement_id = Unit
InScope e q (some target) none = ⊥
InScope e q (some target) (some engagement_id) =
    (is_target_authorized e.library e.now engagement_id target q.action e.authorizations).0 ≡ true

abbrev pub InLab : Engine → Option String → Type 0
InLab e none = Unit
InLab e (some target) = is_lab_target e.library target ≡ true

-- What a setting asks for when it is on.
abbrev pub When : Bool → Type 0 → Type 0
When true P = P
When false P = Unit

-- What the specification of the engine asks of an action.
pub record Permitted (e : Engine) (q : Query) : Type 0 where
  pub account : q.user.status ≡ "active"
  pub session : SessionFits q.user q.session
  pub permission : user_has_permission q.user.id q.action e.tables ≡ true
  pub scope : When e.settings.require_authorization (InScope e q q.target q.engagement_id)
  pub lab : When e.settings.lab_mode (InLab e q.target)
  pub writable : (e.settings.read_only && is_mutating q.action) ≡ false
  pub confirmed : (e.settings.safe_mode && str_eq q.action "tools.install") ≡ false

scope_result_iff :
    (target action : String) (v : Bool × Message)
    → (scope_result target action v ≡ none) ↔ (v.0 ≡ true)
scope_result_iff target action (true, reason) = ground arith
scope_result_iff target action (false, reason) = ground arith

account_iff : (q : Query) → (check_account q ≡ none) ↔ (q.user.status ≡ "active")
unfolding check_account
account_iff q = ground (arith, eq_iff q.user.status "active")

active_iff : (st : SessionState) → (is_active st ≡ true) ↔ (st ≡ active)
active_iff st = ground arith

session_iff :
    (user : User) (o : Option Session) → (session_answer user o ≡ none) ↔ SessionFits user o
unfolding session_answer
session_iff user none = ground arith
session_iff user (some session) = ground (arith, active_iff session.state)

scope_iff :
    (e : Engine) (q : Query) (target : Option String) (engagement_id : Option ℕ)
    → (scope_answer e q.action target engagement_id ≡ none) ↔ InScope e q target engagement_id
unfolding scope_answer
scope_iff e q none engagement_id = ground arith
scope_iff e q (some target) none = ground arith
scope_iff e q (some target) (some engagement_id) =
    scope_result_iff target q.action
      (is_target_authorized e.library e.now engagement_id target q.action e.authorizations)

lab_iff : (e : Engine) (target : Option String) → (lab_answer e target ≡ none) ↔ InLab e target
unfolding lab_answer
lab_iff e none = ground arith
lab_iff e (some target) = ground arith

safety_iff :
    (e : Engine) (q : Query)
    → (check_safety e q ≡ none) ↔ (
        ((e.settings.read_only && is_mutating q.action) ≡ false)
        × ((e.settings.safe_mode && str_eq q.action "tools.install") ≡ false))
unfolding check_safety
safety_iff e q = ground arith

permission_iff :
    (e : Engine) (q : Query)
    → (check_permission e q ≡ none) ↔ (user_has_permission q.user.id q.action e.tables ≡ true)
unfolding check_permission
permission_iff e q = ground arith

-- An answer of a check is never "allow".
abbrev Refuses : Option PolicyResult → Type 0
Refuses none = Unit
Refuses (some r) = r.decision ≢ allow

account-Refuses : (q : Query) → Refuses (check_account q)
unfolding check_account
account-Refuses q = elim (Bool-cases (str_eq q.user.status "active")) [
  | inl good ↦ rw good tt
  | inr bad ↦ rw bad (λ h. cc)
]

session-Refuses : (user : User) (o : Option Session) → Refuses (session_answer user o)
unfolding session_answer
session-Refuses user none = tt
session-Refuses user (some session) = elim (Bool-cases (is_active session.state)) [
  | inr bad ↦ rw bad (λ h. cc)
  | inl good ↦ rw good (elim (Bool-cases (session.user_id == user.id)) [
    | inl own ↦ rw own tt
    | inr other ↦ rw other (λ h. cc)
  ])
]

permission-Refuses : (e : Engine) (q : Query) → Refuses (check_permission e q)
unfolding check_permission
permission-Refuses e q = elim (Bool-cases (user_has_permission q.user.id q.action e.tables)) [
  | inl good ↦ rw good tt
  | inr bad ↦ rw bad (λ h. cc)
]

scope_result-Refuses :
    (target action : String) (v : Bool × Message) → Refuses (scope_result target action v)
scope_result-Refuses target action (true, reason) = tt
scope_result-Refuses target action (false, reason) = λ h. cc

scope-Refuses :
    (e : Engine) (action : String) (target : Option String) (engagement_id : Option ℕ)
    → Refuses (scope_answer e action target engagement_id)
unfolding scope_answer
scope-Refuses e action none engagement_id = tt
scope-Refuses e action (some target) none = λ h. cc
scope-Refuses e action (some target) (some engagement_id) =
    scope_result-Refuses target action
      (is_target_authorized e.library e.now engagement_id target action e.authorizations)

lab-Refuses : (e : Engine) (target : Option String) → Refuses (lab_answer e target)
unfolding lab_answer
lab-Refuses e none = tt
lab-Refuses e (some target) = elim (Bool-cases (is_lab_target e.library target)) [
  | inl good ↦ rw good tt
  | inr bad ↦ rw bad (λ h. cc)
]

safety-Refuses : (e : Engine) (q : Query) → Refuses (check_safety e q)
unfolding check_safety
safety-Refuses e q = elim (Bool-cases (e.settings.read_only && is_mutating q.action)) [
  | inl bad ↦ rw bad (λ h. cc)
  | inr good ↦
      rw good (elim (Bool-cases (e.settings.safe_mode && str_eq q.action "tools.install")) [
        | inl bad ↦ rw bad (λ h. cc)
        | inr fine ↦ rw fine tt
      ])
]

when-Refuses : (b : Bool) (o : Option PolicyResult) → Refuses o → Refuses (if b then o else none)
when-Refuses true o h = h
when-Refuses false o h = tt

first_answer-allow :
    (os : List (Option PolicyResult))
    → All Refuses os
    → (first_answer os).decision ≡ allow
    → All (λ o. o ≡ none) os
first_answer-allow [] h e = tt
first_answer-allow (none ∷ os) h e = (refl, first_answer-allow os h.1 e)
first_answer-allow (some r ∷ os) h e = absurd (h.0 e)

first_answer-none :
    (os : List (Option PolicyResult)) → All (λ o. o ≡ none) os → (first_answer os).decision ≡ allow
first_answer-none [] h = refl
first_answer-none (o ∷ os) h = rw h.0 (first_answer-none os h.1)

when_iff :
    {P : Type 0} (b : Bool) (o : Option PolicyResult)
    → ((o ≡ none) ↔ P)
    → ((if b then o else none) ≡ none) ↔ When b P
when_iff true o h = h
when_iff false o h = ((λ e. tt), (λ k. refl))

abbrev answers : Engine → Query → List (Option PolicyResult)
answers e q =
    check_account q
    ∷ check_session q
    ∷ check_permission e q
    ∷ check_scope e q
    ∷ check_lab e q
    ∷ check_safety e q
    ∷ []

-- The engine allows an action exactly if the account is active, the session fits, the user's
-- roles permit the action, the target is authorised where that is required and a lab target in
-- lab mode, and neither the read-only nor the safe mode stands against the action.
pub evaluate-allow_iff :
    (e : Engine) (q : Query) → ((evaluate e q).decision ≡ allow) ↔ Permitted e q
unfolding evaluate
evaluate-allow_iff e q =
    let scope =
      when_iff e.settings.require_authorization (scope_answer e q.action q.target q.engagement_id)
        (scope_iff e q q.target q.engagement_id) in
    let lab = when_iff e.settings.lab_mode (lab_answer e q.target) (lab_iff e q.target) in
    (
      (λ h.
          let (a, (s, (p, (c, (l, (f, _)))))) =
            first_answer-allow (answers e q)
              (
                account-Refuses q,
                (
                  session-Refuses q.user q.session,
                  (
                    permission-Refuses e q,
                    (
                      when-Refuses e.settings.require_authorization
                          (scope_answer e q.action q.target q.engagement_id)
                          (scope-Refuses e q.action q.target q.engagement_id),
                      (
                        when-Refuses e.settings.lab_mode (lab_answer e q.target)
                            (lab-Refuses e q.target),
                        (safety-Refuses e q, tt),
                      ),
                    ),
                  ),
                ),
              )
              h in
          record {
            account = (account_iff q).0 a;
            session = (session_iff q.user q.session).0 s;
            permission = (permission_iff e q).0 p;
            scope = scope.0 c;
            lab = lab.0 l;
            writable = ((safety_iff e q).0 f).0;
            confirmed = ((safety_iff e q).0 f).1;
          }),
      (λ r. first_answer-none (answers e q) (
        (account_iff q).1 r.account,
        (
          (session_iff q.user q.session).1 r.session,
          (
            (permission_iff e q).1 r.permission,
            (scope.1 r.scope, (lab.1 r.lab, ((safety_iff e q).1 (r.writable, r.confirmed), tt))),
          ),
        ),
      )),
    )

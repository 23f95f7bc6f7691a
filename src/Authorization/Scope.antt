-- ===== src/Authorization/Scope.antt =====
-- When a target is authorised for an action.
use mathlib.Core.Path.{subst}
use ksec.Prelude.{
  ℕ, String, ◌≡◌, ◌↔◌, Bool, true, false, ◌&&◌, ◌||◌, none, some, List, [], ◌∷◌, arith, any, refl,
  ◌⊎◌, sym, ◌∙◌, and_left, and_right, inl, inr, Option-cases, find?, Bool-cases,
}
use ksec.Authorization.{
  Library, Rule, Engagement, Authorizations, WindowStatus, no_window, not_yet_valid, expired,
  active, given, parse_ts, starts_later, has_ended, window_status, get_engagement, applies,
  rules_of, in_window, scope_verdict, is_target_authorized,
}

-- The window has begun and not ended, where the engagement has one.
abbrev pub Opened : Library → ℕ → Engagement → Type 0
Opened lib now e =
    ((given e.valid_from || given e.valid_until) ≡ false)
    ⊎ ((starts_later (parse_ts lib e.valid_from) now ≡ false)
        × (has_ended (parse_ts lib e.valid_until) now ≡ false))

-- The engagement is there and its window is open, no deny rule covers the action on the target,
-- and some allow rule does.
pub record Covered (lib : Library) (now engagement_id : ℕ) (target action : String)
    (s : Authorizations) : Type 0 where
  pub engagement : Engagement
  pub known : get_engagement engagement_id s ≡ some engagement
  pub opened : Opened lib now engagement
  pub not_denied : any (applies lib "deny" target action) (rules_of engagement_id s) ≡ false
  pub allowed : any (applies lib "allow" target action) (rules_of engagement_id s) ≡ true

abbrev is_open : WindowStatus → Bool
is_open no_window = true
is_open active = true
is_open _ = false

same : (a b : Engagement) → some a ≡ some b → a ≡ b
same a b h = cc

window_iff :
    (lib : Library) (now : ℕ) (e : Engagement)
    → (is_open (window_status lib now e) ≡ true) ↔ Opened lib now e
unfolding window_status
window_iff lib now e = ground arith

find?-any {ℓ} :
    {A : Type ℓ} (p : A → Bool) (xs : List A) (x : A) → find? p xs ≡ some x → any p xs ≡ true
unfolding find? any
find?-any p [] x e = ground arith
find?-any p (y ∷ ys) x e = ground (arith, find?-any p ys x)

any-find? {ℓ} : {A : Type ℓ} (p : A → Bool) (xs : List A) → find? p xs ≡ none → any p xs ≡ false
unfolding find? any
any-find? p [] e = ground arith
any-find? p (y ∷ ys) e = ground (arith, any-find? p ys)

verdict_iff :
    (lib : Library) (target action : String) (rules : List Rule)
    → ((scope_verdict lib target action rules).0 ≡ true) ↔ (
        (any (applies lib "deny" target action) rules ≡ false)
        × (any (applies lib "allow" target action) rules ≡ true))
unfolding scope_verdict
verdict_iff lib target action rules =
    elim (Option-cases (find? (applies lib "deny" target action) rules)) [
      | inl free ↦
          rw (scope_verdict, free)
            (rw (any-find? (applies lib "deny" target action) rules free)
              (elim (Bool-cases (any (applies lib "allow" target action) rules)) [
                | inl good ↦ rw good ((λ _. (refl, refl)), (λ _. refl))
                | inr bad ↦ rw bad ((λ h. cc), (λ h. cc))
              ]))
      | inr (rule, found) ↦
          rw (scope_verdict, found)
            (rw (find?-any (applies lib "deny" target action) rules rule found)
              ((λ h. cc), (λ h. cc)))
    ]

unknown_lem :
    (lib : Library) (now engagement_id : ℕ) (target action : String) (s : Authorizations)
    → get_engagement engagement_id s ≡ none
    → (is_target_authorized lib now engagement_id target action s).0 ≡ false
unfolding is_target_authorized
unknown_lem lib now engagement_id target action s h = rw (is_target_authorized, h) refl

known_lem :
    (lib : Library) (now engagement_id : ℕ) (target action : String) (s : Authorizations)
    (e : Engagement)
    → get_engagement engagement_id s ≡ some e
    → (is_target_authorized lib now engagement_id target action s).0 ≡ (
        is_open (window_status lib now e)
        && (scope_verdict lib target action (rules_of engagement_id s)).0)
unfolding is_target_authorized
known_lem lib now engagement_id target action s e h =
    rw (is_target_authorized, h) (answer (window_status lib now e))
  where
    answer :
        (w : WindowStatus)
        → (in_window e w (scope_verdict lib target action (rules_of engagement_id s))).0
          ≡ (is_open w && (scope_verdict lib target action (rules_of engagement_id s)).0)
    answer no_window = refl
    answer not_yet_valid = refl
    answer expired = refl
    answer active = refl

both_iff :
    {P Q R : Type 0} (a b : Bool)
    → ((a ≡ true) ↔ P)
    → ((b ≡ true) ↔ Q)
    → (P × Q → R)
    → (R → P × Q)
    → ((a && b) ≡ true) ↔ R
both_iff a b p q f g = (
  (λ h. f (p.0 (and_left a b h), q.0 (and_right a b h))),
  (λ r. let (x, y) = g r in rw (p.1 x) (q.1 y)),
)

-- A target is authorised for an action exactly if the engagement is there and now is inside its
-- window (where it has one), no deny rule of the engagement covers the action on the target, and
-- some allow rule of the engagement does.
pub is_target_authorized_iff :
    (lib : Library) (now engagement_id : ℕ) (target action : String) (s : Authorizations)
    → ((is_target_authorized lib now engagement_id target action s).0 ≡ true)
      ↔ Covered lib now engagement_id target action s
is_target_authorized_iff lib now engagement_id target action s =
    elim (Option-cases (get_engagement engagement_id s)) [
      | inl gone ↦
          rw (unknown_lem lib now engagement_id target action s gone)
            ((λ h. cc), (λ c. let k = c.known in cc))
      | inr (e, known) ↦ rw (known_lem lib now engagement_id target action s e known) (
          both_iff (is_open (window_status lib now e))
            (scope_verdict lib target action (rules_of engagement_id s)).0 (window_iff lib now e)
            (verdict_iff lib target action (rules_of engagement_id s))
            (λ (o, (d, a)). record {
              engagement = e;
              known = known;
              opened = o;
              not_denied = d;
              allowed = a;
            })
            (λ c. (
              subst (Opened lib now) (same c.engagement e (sym c.known ∙ known)) c.opened,
              (c.not_denied, c.allowed),
            )))
    ]

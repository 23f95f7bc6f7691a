-- ===== src/Rbac/Grants.antt =====
-- What an assignment of a role permits.
use ksec.Prelude.{
  ℕ, String, ◌≡◌, refl, Bool, true, ◌&&◌, ◌||◌, some, List, [], ◌∷◌, ◌++◌, arith, ap, ◌∙◌, ◌==◌,
  any, find?, if◌then◌else◌, Bool-cases, inl, inr,
}
use ksec.Prelude.Exec.{returned, raised, database_error}
use ksec.Rbac.{
  Tables, Role, UserRole, role_named, assigned, grants, assign_role, is_user, role_has_permission,
  user_has_permission,
}

any-append {ℓ} :
    {A : Type ℓ} (p : A → Bool) (xs ys : List A) → any p (xs ++ ys) ≡ (any p xs || any p ys)
unfolding any
any-append p [] ys = refl
any-append p (x ∷ xs) ys = ground (arith, any-append p xs ys)

any-single {ℓ} : {A : Type ℓ} (p : A → Bool) (x : A) → any p (x ∷ []) ≡ p x
unfolding any
any-single p x = ground arith

-- A row of `user_roles` that lets a user do what a permission covers.
abbrev permits : ℕ → (ℕ → Bool) → UserRole → Bool
permits user_id granted ur = ur.user_id == user_id && granted ur.role_id

-- A row that is there lets its user do what its role may.
any-permits :
    (user_id role_id u : ℕ) (granted : ℕ → Bool) (rows : List UserRole)
    → any (assigned user_id role_id) rows ≡ true
    → any (permits u granted) rows
      ≡ (any (permits u granted) rows || ((user_id == u) && granted role_id))
unfolding any
any-permits user_id role_id u granted [] h = ground arith
any-permits user_id role_id u granted (row ∷ rows) h =
    elim (Bool-cases (assigned user_id role_id row)) [
      | inl here ↦ ground (arith, here)
      | inr other ↦ ground (arith, h, other, any-permits user_id role_id u granted rows)
    ]

-- An assignment of a role whose name is known returns if the user has the role or exists, and else
-- raises the error of the foreign key. Afterwards a user may do what he could do before, the
-- assigned user may also do what the role may if the assignment returned, and nobody may do anything
-- else.
pub assign_role-user_has_permission :
    (user_id : ℕ) (name : String) (t : Tables) (role : Role) (u : ℕ) (permission : String)
    → find? (role_named name) t.roles ≡ some role
    → ((assign_role user_id name t).0 ≡ (
        if any (assigned user_id role.id) t.user_roles || is_user user_id t
        then returned tt
        else raised database_error))
      × (user_has_permission u permission (assign_role user_id name t).1 ≡ (
          user_has_permission u permission t
          || ((any (assigned user_id role.id) t.user_roles || is_user user_id t)
              && ((user_id == u) && role_has_permission role.id permission t))))
unfolding assign_role user_has_permission role_has_permission
assign_role-user_has_permission user_id name t role u permission h =
    let granted = λ (r : ℕ). any (grants permission r t) t.role_permissions in
    elim (Bool-cases (any (assigned user_id role.id) t.user_roles)) [
      | inl there ↦
          rw (assign_role, h, there)
            (refl, any-permits user_id role.id u granted t.user_roles there)
      | inr missing ↦ elim (Bool-cases (is_user user_id t)) [
        | inl known ↦
            rw (assign_role, h, missing, known)
              (
                refl,
                any-append (permits u granted) t.user_roles
                      (record { user_id = user_id; role_id = role.id } ∷ [])
                    ∙ ap (λ b. user_has_permission u permission t || b)
                        (any-single (permits u granted)
                          (record { user_id = user_id; role_id = role.id })),
              )
        | inr unknown ↦ rw (assign_role, h, missing, unknown) (refl, ground arith)
      ]
    ]

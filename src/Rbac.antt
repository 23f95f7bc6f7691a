-- ===== src/Rbac.antt =====
-- rbac/roles.py: roles, permissions and their assignment to users, over four tables. The seeds of
-- the tables are data, which `seed` inserts; `RbacService` here is the tables that it leaves.
pub mod Grants
use ksec.Prelude.{
  ℕ, String, Bool, true, false, not, ◌&&◌, ◌||◌, Option, none, some, List, [], ◌∷◌, ◌++◌, length,
  ltb, leb, ◌==◌, str_eq, any, select, find?, if◌then◌else◌,
}
use ksec.Prelude.Exec.{
  Exec, pure, raise, raise_if, modify, gets, or_raise, authorization_error, database_error, ◌>>=◌,
  ◌>>◌,
}
use ksec.Prelude.Sort.{sort_by}
use ksec.Prelude.Strings.Decimal.{show}

pub record Role : Type 0 where
  pub id : ℕ
  pub name : String

pub record Permission : Type 0 where
  pub id : ℕ
  pub name : String

pub record Workspace : Type 0 where
  pub id : ℕ
  pub name : String

pub record UserRole : Type 0 where
  pub user_id : ℕ
  pub role_id : ℕ

pub record RolePermission : Type 0 where
  pub role_id : ℕ
  pub permission_id : ℕ

-- Of the table `users`, the ids.
pub record Tables : Type 0 where
  pub users : List ℕ
  pub workspaces : List Workspace
  pub roles : List Role
  pub permissions : List Permission
  pub role_permissions : List RolePermission
  pub user_roles : List UserRole

abbrev pub role_named : String → Role → Bool
role_named name role = str_eq role.name name

unfoldable pub workspace_id : String → Tables → Option ℕ
workspace_id name t = elim (find? (λ (w : Workspace). str_eq w.name name) t.workspaces) [
  | none ↦ none
  | some w ↦ some w.id
]

unfoldable pub role_id : String → Tables → Option ℕ
role_id name t = elim (find? (role_named name) t.roles) [ none ↦ none | some r ↦ some r.id ]

abbrev pub assigned : ℕ → ℕ → UserRole → Bool
assigned user_id role_id ur = ur.user_id == user_id && ur.role_id == role_id

abbrev by_role_id : Role → Role → Bool
by_role_id a b = ltb a.id b.id

unfoldable pub list_roles : Tables → List Role
list_roles t = sort_by by_role_id t.roles

abbrev by_workspace_id : Workspace → Workspace → Bool
by_workspace_id a b = ltb a.id b.id

unfoldable pub list_workspaces : Tables → List Workspace
list_workspaces t = sort_by by_workspace_id t.workspaces

-- The join of `user_roles`: the roles that are assigned to the user, by id.
unfoldable pub user_roles : ℕ → Tables → List Role
user_roles user_id t =
    sort_by by_role_id (select (λ (r : Role). any (assigned user_id r.id) t.user_roles) t.roles)

abbrev pub is_user : ℕ → Tables → Bool
is_user user_id t = any (λ key. key == user_id) t.users

-- `INSERT OR IGNORE INTO user_roles`: a row that is there is left alone, and a new one must meet the
-- foreign key of `user_id`.
unfoldable pub assign_role : ℕ → String → Exec Tables (Unit {0})
assign_role user_id role_name = do
  role ← gets (λ t. find? (role_named role_name) t.roles)
  found ← or_raise role (authorization_error ("Unknown role: " ∷ role_name ∷ []))
  there ← gets (λ t. any (assigned user_id found.id) t.user_roles)
  elim there [
    | true ↦ pure tt
    | false ↦ do
      known ← gets (is_user user_id)
      raise_if (not known) database_error
      modify (λ t. record t {
        user_roles = t.user_roles ++ record { user_id = user_id; role_id = found.id } ∷ [];
      })
  ]

abbrev pub last_role_message : ℕ → String → List String
last_role_message user_id role_name =
    "User " ∷ show user_id ∷ " has only role " ∷ role_name ∷ "; a user needs at least one role" ∷ []

unfoldable pub drop_role : ℕ → String → Exec Tables Bool
drop_role user_id role_name = do
  role ← gets (λ t. find? (role_named role_name) t.roles)
  found ← or_raise role (authorization_error ("Unknown role: " ∷ role_name ∷ []))
  modify (λ t. record t {
    user_roles = select (λ ur. not (assigned user_id found.id ur)) t.user_roles;
  })
  pure true

unfoldable pub remove_role : ℕ → String → Exec Tables Bool
remove_role user_id role_name t =
    let roles = user_roles user_id t in
    if not (any (role_named role_name) roles)
    then pure false t
    else if leb (length roles) 1
    then raise (authorization_error (last_role_message user_id role_name)) t
    else drop_role user_id role_name t

abbrev pub permission_named : String → ℕ → Permission → Bool
permission_named name id p = p.id == id && str_eq p.name name

-- A row of `role_permissions` that grants a permission to a role.
abbrev pub grants : String → ℕ → Tables → RolePermission → Bool
grants permission role_id t rp =
    rp.role_id == role_id && any (permission_named permission rp.permission_id) t.permissions

unfoldable pub role_has_permission : ℕ → String → Tables → Bool
role_has_permission role_id permission t = any (grants permission role_id t) t.role_permissions

-- The join of three tables.
unfoldable pub user_has_permission : ℕ → String → Tables → Bool
user_has_permission user_id permission t =
    any
      (λ (ur : UserRole).
        ur.user_id == user_id && any (grants permission ur.role_id t) t.role_permissions)
      t.user_roles

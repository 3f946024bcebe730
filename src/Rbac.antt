-- ===== src/Rbac.antt =====
-- internal/rbac: roles, permissions, the actor of a request and the authorizer.
pub mod Laws
use golang_restapi.Base.{
  ℕ, String, Bool, true, false, ◌||◌, Option, none, some, List, [], ◌∷◌, ◌==◌, nat_eq, string_eq,
  if◌then◌else◌,
}
use golang_restapi.Errors.{AppError, Err, forbidden_err}

abbrev pub Role : Type 0
Role = String

abbrev pub Permission : Type 0
Permission = String

abbrev pub role_admin : Role
role_admin = "admin"

abbrev pub role_user : Role
role_user = "user"

abbrev pub role_system : Role
role_system = "system"

-- Role.Valid
unfoldable pub is_valid_role : Role → Bool
is_valid_role r = r == role_admin || r == role_system || r == role_user

-- Actor and Context of actor.go. A user id is the number that the 16 bytes spell.
pub record Actor : Type 0 where
  pub user_id : Option ℕ
  pub role : Role

pub record Context : Type 0 where
  pub actor : Actor
  pub session_id : ℕ

abbrev pub err_ctx_not_found : Err
err_ctx_not_found = Err.plain "rbac context not found in context"

unfoldable pub err_unauthorized_permission : AppError
unfolding forbidden_err
err_unauthorized_permission = forbidden_err "unauthorized action" ("RBAC_UNAUTHORIZED_PERM" ∷ [])

-- A set of permissions is the list of its members, a table maps a role to its set.
abbrev pub PermissionTable : Type 0
PermissionTable = List (Role × List Permission)

unfoldable pub contains : List Permission → Permission → Bool
contains [] p = false
contains (q ∷ qs) p = q == p || contains qs p

unfoldable pub role_perms : PermissionTable → Role → Option (List Permission)
role_perms [] role = none
role_perms ((r, ps) ∷ t) role = if r == role then some ps else role_perms t role

-- `a.table[role][perm] = struct{}{}` for each permission of the set
unfoldable pub add_perms : List Permission → List Permission → List Permission
unfolding contains
add_perms held [] = held
add_perms held (p ∷ ps) = add_perms (if contains held p then held else p ∷ held) ps

-- one round of the outer loop of RegisterPermissions
unfoldable pub merge_role : PermissionTable → Role → List Permission → PermissionTable
unfolding add_perms
merge_role [] role ps = (role, add_perms [] ps) ∷ []
merge_role ((r, held) ∷ t) role ps =
    if r == role then (r, add_perms held ps) ∷ t else (r, held) ∷ merge_role t role ps

-- RegisterPermissions
unfoldable pub register_permissions : PermissionTable → PermissionTable → PermissionTable
unfolding merge_role
register_permissions table [] = table
register_permissions table ((role, ps) ∷ perms) =
    register_permissions (merge_role table role ps) perms

-- the loop of `can`, then `can`
unfoldable pub holds_all : List Permission → List Permission → Bool
unfolding contains
holds_all held [] = true
holds_all held (p ∷ ps) = if contains held p then holds_all held ps else false

-- `none` is a nil error
unfoldable pub can : PermissionTable → Role → List Permission → Option Err
unfolding holds_all role_perms
can table role perms = elim (role_perms table role) [
  | none ↦ some (Err.app err_unauthorized_permission)
  | some held ↦ if holds_all held perms then none else some (Err.app err_unauthorized_permission)
]

-- Require; the context of a request without authentication holds no rbac context
unfoldable pub require : PermissionTable → Option Context → List Permission → Option Err
unfolding can
require table none perms = some err_ctx_not_found
require table (some c) perms = can table c.actor.role perms

abbrev is_self : Option ℕ → ℕ → Bool
is_self none user_id = false
is_self (some u) user_id = u == user_id

-- RequireSelfOr
unfoldable pub require_self_or : PermissionTable → Option Context → ℕ → Permission → Option Err
unfolding can
require_self_or table none user_id perm = some err_ctx_not_found
require_self_or table (some c) user_id perm =
    if is_self c.actor.user_id user_id then none else can table c.actor.role (perm ∷ [])

-- ListPermission
unfoldable pub list_permission : PermissionTable → Option Context → Option (List Permission)
unfolding role_perms
list_permission table none = none
list_permission table (some c) = elim (role_perms table c.actor.role) [
  | none ↦ some []
  | some ps ↦ some ps
]

-- ===== src/Auth/Service/Deps.antt =====
-- type Service of internal/auth/service.go, its permission table and audit actions, and how its
-- methods turn one error into another.
use golang_restapi.Base.{ℕ, String, Bool, Option, none, some, List, [], ◌∷◌, if◌then◌else◌}
use golang_restapi.Base.Int.{ℤ}
use golang_restapi.Errors.{AppError, Err, app, is, err_not_found}
use golang_restapi.Nullable.{null, nat_zero}
use golang_restapi.Rbac.{Permission, PermissionTable, role_system, role_admin, role_user}
use golang_restapi.Auth.Crypto.{sign_access_token}
use golang_restapi.World.Platform.{Env}
use golang_restapi.World.State.{nothing, uuid, AuditEntry}
use golang_restapi.World.Action.{ok, err, Action}

-- the part of config.Config that the service reads
pub record Config : Type 0 where
  pub internal_mode : Bool
  pub jwt_secret : String
  pub jwt_ttl : ℤ
  pub session_ttl : ℤ
  pub password_recovery_token_ttl : ℤ
  pub registration_token_ttl : ℤ
  pub reset_password_form_endpoint : String
  pub complete_registration_form_endpoint : String

-- The repositories, the transactor, the producer, the throttler, the recorder and the revoker
-- are those of Postgres and Redis over `env`.
pub record Service (S : Type 0) : Type 0 where
  pub env : Env S
  pub cfg : Config
  pub table : PermissionTable

abbrev pub perm_change_password : Permission
perm_change_password = "auth.change-password"

abbrev pub perm_register_user : Permission
perm_register_user = "auth.register-user"

abbrev pub perm_revoke_user_sessions : Permission
perm_revoke_user_sessions = "auth.revoke-user-sessions"

abbrev pub perm_view_user_sessions : Permission
perm_view_user_sessions = "auth.view-user-sessions"

abbrev pub all_perms : List Permission
all_perms =
    perm_change_password ∷ perm_register_user ∷ perm_revoke_user_sessions ∷ perm_view_user_sessions
    ∷ []

abbrev pub perm_tables : PermissionTable
perm_tables = (role_system, all_perms) ∷ (role_admin, all_perms) ∷ (role_user, []) ∷ []

-- an audit.Entry of the user entity without payloads
abbrev pub user_entry : String → ℕ → AuditEntry
user_entry action user_id = record {
  actor_id = null;
  action = action;
  entity = "user";
  entity_id = uuid user_id;
  prev = nothing;
  next = nothing;
  meta = [];
}

module _ {S A : Type 0} where
  -- `if err != nil && !errors.Is(err, apperr.ErrNotFound)`: a missing user is nil
  unfoldable pub optional : (Err → Err) → Action S A → Action S (Option A)
  optional wrapped m w =
      let (r, w') = m w in
      elim r [
        | ok a ↦ (ok (some a), w')
        | err e ↦ (if is e err_not_found then ok none else err (wrapped e), w')
      ]

  -- `if errors.Is(err, apperr.ErrNotFound) { return … }; return err`
  unfoldable pub or_invalid : AppError → Action S A → Action S A
  or_invalid invalid m w =
      let (r, w') = m w in
      elim r [
        | ok a ↦ (ok a, w')
        | err e ↦ (err (if is e err_not_found then app invalid else e), w')
      ]

module _ {S : Type 0} (s : Service S) where
  -- Service.generateAccessToken
  unfoldable pub generate_access_token : ℕ → ℕ → String → Action S String
  unfolding sign_access_token
  generate_access_token user_id sess_id role =
      sign_access_token s.env s.cfg.jwt_secret s.cfg.jwt_ttl user_id sess_id role

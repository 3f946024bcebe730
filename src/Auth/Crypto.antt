-- ===== src/Auth/Crypto.antt =====
-- internal/auth/crypto.go, the signing side of access_token.go, and the functions of session.go,
-- registration_token.go and password_recovery_token.go that draw random values and read the clock.
use golang_restapi.Base.{
  ℕ, String, Option, none, some, [], ◌∷◌, ◌==◌, nat_eq, string_eq, concat, if◌then◌else◌,
}
use golang_restapi.Base.Int.{ℤ, is_below}
use golang_restapi.Errors.{AppError, Err, app, plain, fault, unauthorized_err}
use golang_restapi.Nullable.{null, nat_zero}
use golang_restapi.Auth.Model.{add_duration}
use golang_restapi.Auth.Session.{Session, err_session_empty_uid, err_session_invalid_ttl}
use golang_restapi.Auth.RegistrationToken.{RegistrationToken}
use golang_restapi.Auth.PasswordRecoveryToken.{PasswordRecoveryToken}
use golang_restapi.World.Platform.{Env}
use golang_restapi.World.Action.{
  Action, pure, ◌>>=◌, ◌>>◌, throw_if, or_throw, wrap_err, time_now, outside,
}
use golang_restapi.Postgres.Audit.{Ctx}

unfoldable pub err_wrong_credentials : AppError
unfolding unauthorized_err
err_wrong_credentials = unauthorized_err "check your credentials" ("AUTH_CREDENTIALS" ∷ [])

abbrev pub err_audit_ctx_not_found : Err
err_audit_ctx_not_found = plain "audit context not found"

abbrev pub add_prefix : String → String → String
add_prefix prefix token = if prefix == "" then token else concat prefix (concat "_" token)

module _ {S : Type 0} (env : Env S) where
  -- HashPassword
  unfoldable pub hash_password : String → Action S String
  hash_password plain_text = do
    n ← outside env
    or_throw (env.bcrypt_generate n plain_text) (fault n)

  -- VerifyPassword
  unfoldable pub verify_password : String → String → Option Err
  unfolding err_wrong_credentials
  verify_password plain_text hashed =
      if env.bcrypt_matches hashed plain_text then none else some (app err_wrong_credentials)

  -- GenerateOpaqueToken
  unfoldable pub generate_opaque_token : ℕ → String → Action S String
  generate_opaque_token size prefix = do
    throw_if (size == 0) (plain "invalid token size")
    n ← wrap_err "generate opaque token" (outside env)
    pure (add_prefix prefix (env.random_text n size))

  -- SignAccessToken
  unfoldable pub sign_access_token : String → ℤ → ℕ → ℕ → String → Action S String
  sign_access_token secret ttl user_id sess_id role = do
    now ← time_now env
    n ← outside env
    or_throw
        (env.sign_jwt secret (record {
          subject = some user_id;
          session_id = sess_id;
          role = role;
          issued_at = some (env.numeric_date now);
          expires_at = some (env.numeric_date (add_duration now ttl));
        }))
        (fault n)

  -- NewSession: the session and the raw refresh token
  unfoldable pub new_session : Ctx → ℕ → ℤ → Action S (Session × String)
  unfolding generate_opaque_token
  new_session ctx user_id ttl = do
    throw_if (is_below ttl 1) err_session_invalid_ttl
    throw_if (user_id == 0) err_session_empty_uid
    n ← outside env
    refresh_token ← generate_opaque_token 32 "rt"
    audit ← wrap_err "new session" (or_throw ctx.audit err_audit_ctx_not_found)
    now ← time_now env
    pure (
      record {
        id = env.uuid_v7 n;
        user_id = user_id;
        refresh_token_hash = env.sha256 refresh_token;
        ip_addr = audit.ip;
        user_agent = audit.user_agent;
        accessed_at = now;
        created_at = 0;
        expires_at = add_duration now ttl;
        revoked_at = null;
      },
      refresh_token,
    )

  -- Session.Rotate
  unfoldable pub rotate : Ctx → Session → Action S (Session × String)
  unfolding generate_opaque_token
  rotate ctx s = do
    new_token ← generate_opaque_token 32 "rt"
    audit ← wrap_err "rotate session" (or_throw ctx.audit err_audit_ctx_not_found)
    now ← time_now env
    pure (
      record s {
        refresh_token_hash = env.sha256 new_token;
        accessed_at = now;
        ip_addr = audit.ip;
        user_agent = audit.user_agent;
      },
      new_token,
    )

  -- NewRegistrationToken
  unfoldable pub new_registration_token :
      String → String → ℤ → Action S (RegistrationToken × String)
  unfolding generate_opaque_token
  new_registration_token name email ttl = do
    raw_token ← wrap_err "new registration token" (generate_opaque_token 32 "regt")
    now ← time_now env
    pure (
      record {
        id = 0;
        name = name;
        email = email;
        token_hash = env.sha256 raw_token;
        created_at = now;
        expires_at = add_duration now ttl;
        used_at = null;
        revoked_at = null;
      },
      raw_token,
    )

  -- NewPasswordRecoveryToken
  unfoldable pub new_password_recovery_token : ℕ → ℤ → Action S (PasswordRecoveryToken × String)
  unfolding generate_opaque_token
  new_password_recovery_token user_id ttl = do
    token ← generate_opaque_token 32 ""
    now ← time_now env
    pure (
      record {
        id = 0;
        user_id = user_id;
        token_hash = env.sha256 token;
        issued_at = now;
        expires_at = add_duration now ttl;
        used_at = null;
      },
      token,
    )

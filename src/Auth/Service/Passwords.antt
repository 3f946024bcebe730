-- ===== src/Auth/Service/Passwords.antt =====
-- RecoverPassword, GetPasswordRecoveryToken, ResetPassword and ChangePassword of
-- internal/auth/service.go.
use golang_restapi.Base.{ℕ, ◌*◌, ◌||◌, String, not, concat}
use golang_restapi.Base.Int.{ℤ, pos}
use golang_restapi.Errors.{app, with_details, throttle}
use golang_restapi.Rbac.{require_self_or}
use golang_restapi.User.{User}
use golang_restapi.Auth.Model.{Event, password_recovery, ResetPasswordInput, ChangePasswordInput}
use golang_restapi.Auth.PasswordRecoveryToken
use golang_restapi.Auth.PasswordRecoveryToken.{
  PasswordRecoveryToken, err_invalid_password_recovery_token, err_password_recovery_throttled,
}
use golang_restapi.Auth.Crypto.{hash_password, verify_password, new_password_recovery_token}
use golang_restapi.World.Action.{
  ⊤, Action, pure, ◌>>=◌, ◌>>◌, check, throw_if, time_now, ignore_err,
}
use golang_restapi.Postgres.Transact.{transact}
use golang_restapi.Postgres.Users.{get_user_by_email, get_user_by_id, update_user}
use golang_restapi.Postgres.Sessions.{revoke_user_sessions}
use golang_restapi.Postgres.Tokens.{
  get_password_recovery_token, store_password_recovery_token, update_password_recovery_token,
}
use golang_restapi.Postgres.Audit.{Ctx, record_entry}
use golang_restapi.Redis.Revocation.{revoke_all_for_user, second}
use golang_restapi.Redis.Throttler.{Throttle, try_acquire}
use golang_restapi.Redis.Producer.{produce}
use golang_restapi.Auth.Service.Deps.{Service, or_invalid, user_entry, perm_change_password}
use golang_restapi.Auth.Service.Register.{link}

abbrev pub password_recovery_throttled_ttl : ℤ
password_recovery_throttled_ttl = pos (30 * second)

abbrev pub with_password : String → User → User
with_password hash u = record u { password = hash }

module _ {S : Type 0} (s : Service S) (ctx : Ctx) where
  -- the function that RecoverPassword passes to Transact; its result is the message
  unfoldable pub recover_password_tx : String → Action S Event
  recover_password_tx email = do
    usr ← get_user_by_email s.env email
    (token, raw_token) ← new_password_recovery_token s.env usr.id s.cfg.password_recovery_token_ttl
    store_password_recovery_token s.env token
    record_entry s.env ctx (user_entry "auth.password-recovery-request" usr.id)
    pure (
        password_recovery usr.email usr.name (link s.cfg.reset_password_form_endpoint raw_token)
          s.cfg.password_recovery_token_ttl)

  -- RecoverPassword; on an error the Go method also returns the throttle result
  unfoldable pub recover_password : String → Action S Throttle
  unfolding recover_password_tx
  recover_password email = do
    th ← try_acquire s.env (concat "recover-password:" email) password_recovery_throttled_ttl
    throw_if (not th.allowed)
        (app (with_details err_password_recovery_throttled (throttle th.allowed th.retry_after)))
    msg ← transact s.env (recover_password_tx email)
    produce s.env msg
    pure th

  unfoldable pub lookup_password_recovery_token : String → Action S PasswordRecoveryToken
  lookup_password_recovery_token token = get_password_recovery_token s.env (s.env.sha256 token)

  -- the function that ResetPassword passes to Transact; its result is revokedUserID
  unfoldable pub reset_password_tx : ResetPasswordInput → Action S ℕ
  unfolding or_invalid PasswordRecoveryToken.is_expired PasswordRecoveryToken.is_used
      PasswordRecoveryToken.mark_used
  reset_password_tx inp = do
    token ←
        or_invalid err_invalid_password_recovery_token
          (get_password_recovery_token s.env (s.env.sha256 inp.token))
    now ← time_now s.env
    throw_if (PasswordRecoveryToken.is_expired now token || PasswordRecoveryToken.is_used token)
        (app err_invalid_password_recovery_token)
    user ← get_user_by_id s.env token.user_id
    hash ← hash_password s.env inp.new_password
    used ← time_now s.env
    update_password_recovery_token s.env (PasswordRecoveryToken.mark_used used token)
    update_user s.env (with_password hash user)
    revoke_user_sessions s.env user.id
    record_entry s.env ctx (user_entry "auth.reset-password" user.id)
    pure user.id

  -- ResetPassword: a failure to mark the access tokens is only logged
  unfoldable pub reset_password : ResetPasswordInput → Action S ⊤
  unfolding reset_password_tx
  reset_password inp = do
    user_id ← transact s.env (reset_password_tx inp)
    ignore_err (revoke_all_for_user s.env s.cfg.jwt_ttl user_id)

  unfoldable pub change_password_tx : ℕ → User → Action S ⊤
  change_password_tx user_id usr = do
    update_user s.env usr
    revoke_user_sessions s.env user_id
    record_entry s.env ctx (user_entry "auth.change-password" user_id)

  -- ChangePassword
  unfoldable pub change_password : ℕ → ChangePasswordInput → Action S ⊤
  unfolding change_password_tx
  change_password user_id inp = do
    check (require_self_or s.table ctx.rbac user_id perm_change_password)
    usr ← get_user_by_id s.env user_id
    check (verify_password s.env inp.password usr.password)
    hash ← hash_password s.env inp.new_password
    transact s.env (change_password_tx user_id (with_password hash usr))
    ignore_err (revoke_all_for_user s.env s.cfg.jwt_ttl user_id)

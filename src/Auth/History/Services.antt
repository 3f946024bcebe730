-- ===== src/Auth/History/Services.antt =====
-- `Later` through the methods of internal/auth/service.go.
pub mod Register
pub mod Login
pub mod Sessions
pub mod Passwords
pub mod Users
use golang_restapi.Base.{
  ℕ, String, Bool, true, false, not, ◌&&◌, ◌||◌, Option, none, some, ◌≡◌, refl, sym, ◌∙◌, arith, [],
  ◌∷◌, ap,
}
use golang_restapi.Nullable
use golang_restapi.Auth.Model.{
  RegisterInput, CompleteRegistrationInput, LoginInput, ResetPasswordInput, ChangePasswordInput,
}
use golang_restapi.Auth.Session
use golang_restapi.Auth.Session.{Session}
use golang_restapi.Auth.RegistrationToken
use golang_restapi.Auth.RegistrationToken.{RegistrationToken}
use golang_restapi.Auth.PasswordRecoveryToken
use golang_restapi.Auth.PasswordRecoveryToken.{PasswordRecoveryToken}
use golang_restapi.User.{User}
use golang_restapi.World.State.{AuditEntry, Db}
use golang_restapi.World.Logic.{
  Keeps, Any, Keeps-bind, Keeps-pure, Keeps-wrap_err, Keeps-throw_if, Keeps-check, Keeps-time_now,
  Keeps-outside, Keeps-or_throw, Keeps-forget, Keeps-weaken, Keeps-if, Keeps-ignore_err,
}
use golang_restapi.Postgres.Audit.{Ctx, record_entry}
use golang_restapi.Postgres.Keeps.{transact-Keeps}
use golang_restapi.Postgres.Keeps.Sessions.{
  update_session-Keeps, store_session-Keeps, revoke_user_sessions-Keeps, get_session_by_id-Keeps,
  get_session_by_refresh_token_hash-Keeps, list_sessions-Keeps,
}
use golang_restapi.Postgres.Keeps.Tokens.{
  get_password_recovery_token-Keeps, store_password_recovery_token-Keeps,
  update_password_recovery_token-Keeps, get_registration_token-Keeps,
  store_registration_token-Keeps, update_registration_token-Keeps, revoke_registration_tokens-Keeps,
}
use golang_restapi.Postgres.Keeps.Users.{
  get_user_by_id-Keeps, get_user_by_email-Keeps, store_user-Keeps, update_user-Keeps,
  record_entry-Keeps,
}
use golang_restapi.Auth.Keeps
use golang_restapi.Auth.Service.Deps.{Service}
use golang_restapi.Auth.Service.Register.{
  register_tx, register, new_user, complete_registration_tx, finish_registration,
}
use golang_restapi.Auth.Service.Login.{login_tx, login, refresh_tx, refresh_access_token}
use golang_restapi.Auth.Service.Sessions.{
  end_session, logout_tx, logout, revoke_all_tx, revoke_all, revoke_session_tx, revoke_session,
}
use golang_restapi.Auth.Service.Passwords.{
  recover_password_tx, recover_password, reset_password_tx, reset_password, change_password_tx,
  change_password,
}
use golang_restapi.Auth.History.Later.{Later, IsSpent, IsUsed, is_spent}
use golang_restapi.Auth.History.Later.Sessions.{
  Told, Told-get_one, Later-update_session, Later-revoke_sessions, Later-store_session,
}
use golang_restapi.Auth.History.Later.Tokens.{
  ToldSpent, ToldUsed, ToldSpent-get_one, ToldUsed-get_one, Later-update_registration,
  Later-revoke_registrations, Later-store_registration, Later-update_recovery, Later-store_recovery,
  Later-users, Later-log,
}

module _ {S : Type 0} (s : Service S) (ctx : Ctx) (start : Db) where
  abbrev P : Db → Type 0
  P = Later start

  pub logged : (e : AuditEntry) → Keeps P Any (record_entry s.env ctx e)
  logged e = record_entry-Keeps P s.env ctx e (Later-log start _)

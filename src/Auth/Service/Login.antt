-- ===== src/Auth/Service/Login.antt =====
-- Login and RefreshAccessToken of internal/auth/service.go. DummyVerify, which only spends time
-- when the email is unknown, and the log lines have no effect on the state.
use golang_restapi.Base.{ℕ, String, [], ◌∷◌}
use golang_restapi.Errors.{app}
use golang_restapi.Nullable
use golang_restapi.Auth.Model.{LoginInput, TokenPair}
use golang_restapi.Auth.Session
use golang_restapi.Auth.Session.{Session, err_session_invalid}
use golang_restapi.Auth.Crypto.{err_wrong_credentials, verify_password, new_session, rotate}
use golang_restapi.World.State.{MetaValue, AuditEntry}
use golang_restapi.World.Action.{⊤, Action, pure, ◌>>=◌, ◌>>◌, check, throw_if, or_throw, time_now}
use golang_restapi.Postgres.Transact.{transact}
use golang_restapi.Postgres.Users.{get_user_by_email, get_user_by_id}
use golang_restapi.Postgres.Sessions.{
  store_session, get_session_by_refresh_token_hash, update_session,
}
use golang_restapi.Postgres.Audit.{Ctx, record_entry}
use golang_restapi.Auth.Service.Deps.{
  Service, optional, or_invalid, user_entry, generate_access_token,
}

-- an entry of the user entity that names a session
abbrev pub session_entry : String → ℕ → ℕ → AuditEntry
session_entry action user_id session_id =
    let e = user_entry action user_id in
    record e { meta = ("session_id", MetaValue.id session_id) ∷ [] }

module _ {S : Type 0} (s : Service S) (ctx : Ctx) where
  unfoldable pub login_tx : Session → Action S ⊤
  login_tx sess = do
    store_session s.env sess
    record_entry s.env ctx (session_entry "auth.login" sess.user_id sess.id)

  unfoldable pub login : LoginInput → Action S TokenPair
  unfolding optional login_tx
  login inp = do
    found ← optional (λ e. e) (get_user_by_email s.env inp.email)
    usr ← or_throw found (app err_wrong_credentials)
    check (verify_password s.env inp.password usr.password)
    (sess, refresh_token) ← new_session s.env ctx usr.id s.cfg.session_ttl
    access_token ← generate_access_token s usr.id sess.id usr.role
    transact s.env (login_tx sess)
    pure (record { access_token = access_token; refresh_token = refresh_token })

  unfoldable pub refresh_tx : String → Action S TokenPair
  unfolding or_invalid Session.is_expired
  refresh_tx refresh_token = do
    sess ←
        or_invalid err_session_invalid
          (get_session_by_refresh_token_hash s.env (s.env.sha256 refresh_token))
    now ← time_now s.env
    throw_if (Session.is_expired now sess) (app err_session_invalid)
    throw_if (Nullable.not_null sess.revoked_at) (app err_session_invalid)
    u ← get_user_by_id s.env sess.user_id
    access_token ← generate_access_token s sess.user_id sess.id u.role
    (sess', new_refresh_token) ← rotate s.env ctx sess
    update_session s.env sess'
    pure (record { access_token = access_token; refresh_token = new_refresh_token })

  -- RefreshAccessToken
  unfoldable pub refresh_access_token : String → Action S TokenPair
  unfolding refresh_tx
  refresh_access_token refresh_token = transact s.env (refresh_tx refresh_token)

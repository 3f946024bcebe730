-- ===== src/Auth/Service/Sessions.antt =====
-- Logout, ListUserSessions, RevokeUserSessions, RevokeSession and ListPermission of
-- internal/auth/service.go.
use golang_restapi.Base.{ℕ, ◌||◌, List, [], ◌∷◌, if◌then◌else◌}
use golang_restapi.Nullable
use golang_restapi.Nullable.{null, nat_zero}
use golang_restapi.Rbac.{Permission, require, require_self_or, list_permission, err_ctx_not_found}
use golang_restapi.Auth.Session
use golang_restapi.Auth.Session.{Session}
use golang_restapi.World.State.{AuditEntry, nothing, uuid}
use golang_restapi.World.Action.{
  ⊤, Action, pure, ◌>>=◌, ◌>>◌, check, or_throw, time_now, ignore_err,
}
use golang_restapi.Postgres.Transact.{transact}
use golang_restapi.Postgres.Sessions.{
  get_session_by_id, update_session, revoke_user_sessions, list_sessions,
}
use golang_restapi.Postgres.Audit.{Ctx, record_entry}
use golang_restapi.Redis.Revocation
use golang_restapi.Auth.Service.Deps.{
  Service, user_entry, perm_revoke_user_sessions, perm_view_user_sessions,
}
use golang_restapi.Auth.Service.Login.{session_entry}

abbrev pub revoke_session_entry : ℕ → AuditEntry
revoke_session_entry session_id = record {
  actor_id = null;
  action = "auth.revoke-session";
  entity = "session";
  entity_id = uuid session_id;
  prev = nothing;
  next = nothing;
  meta = [];
}

module _ {S : Type 0} (s : Service S) (ctx : Ctx) where
  -- `session.Revoke()`, UpdateSession and the entry, for a session that is active at `now`
  unfoldable pub end_session : ℕ → Session → AuditEntry → Action S ⊤
  unfolding Session.is_expired Session.revoke
  end_session now sess entry =
      if Session.is_expired now sess || Nullable.not_null sess.revoked_at then pure tt else do
        revoked ← time_now s.env
        update_session s.env (Session.revoke revoked sess)
        record_entry s.env ctx entry

  unfoldable pub logout_tx : ℕ → Action S ⊤
  unfolding end_session
  logout_tx sess_id = do
    sess ← get_session_by_id s.env sess_id
    now ← time_now s.env
    end_session now sess (session_entry "auth.logout" sess.user_id sess_id)

  -- Logout: a failure to mark the access tokens is only logged
  unfoldable pub logout : ℕ → Action S ⊤
  unfolding logout_tx
  logout sess_id = do
    transact s.env (logout_tx sess_id)
    ignore_err (Revocation.revoke_session s.env s.cfg.jwt_ttl sess_id)

  unfoldable pub list_user_sessions : ℕ → Action S (List Session)
  list_user_sessions user_id = do
    check (require_self_or s.table ctx.rbac user_id perm_view_user_sessions)
    list_sessions s.env user_id

  unfoldable pub revoke_all_tx : ℕ → Action S ⊤
  revoke_all_tx user_id = do
    revoke_user_sessions s.env user_id
    record_entry s.env ctx (user_entry "auth.revoke-user-sessions" user_id)

  -- RevokeUserSessions
  unfoldable pub revoke_all : ℕ → Action S ⊤
  unfolding revoke_all_tx
  revoke_all user_id = do
    check (require s.table ctx.rbac (perm_revoke_user_sessions ∷ []))
    transact s.env (revoke_all_tx user_id)
    Revocation.revoke_all_for_user s.env s.cfg.jwt_ttl user_id

  unfoldable pub revoke_session_tx : ℕ → Action S ⊤
  unfolding end_session
  revoke_session_tx session_id = do
    sess ← get_session_by_id s.env session_id
    check (require_self_or s.table ctx.rbac sess.user_id perm_revoke_user_sessions)
    now ← time_now s.env
    end_session now sess (revoke_session_entry session_id)

  unfoldable pub revoke_session : ℕ → Action S ⊤
  unfolding revoke_session_tx
  revoke_session session_id = do
    transact s.env (revoke_session_tx session_id)
    Revocation.revoke_session s.env s.cfg.jwt_ttl session_id

  unfoldable pub permissions : Action S (List Permission)
  permissions = or_throw (list_permission s.table ctx.rbac) err_ctx_not_found

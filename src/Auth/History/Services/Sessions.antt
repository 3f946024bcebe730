-- ===== src/Auth/History/Services/Sessions.antt =====
-- `Later` through the methods that end sessions of internal/auth/service.go.
use golang_restapi.Base.{ℕ, true, false, ◌||◌, ◌≡◌, arith}
use golang_restapi.Nullable
use golang_restapi.Auth.Session
use golang_restapi.Auth.Session.{Session}
use golang_restapi.World.State.{AuditEntry, Db}
use golang_restapi.World.Logic.{
  Keeps, Any, Keeps-bind, Keeps-pure, Keeps-check, Keeps-time_now, Keeps-if, Keeps-ignore_err,
}
use golang_restapi.Postgres.Audit.{Ctx}
use golang_restapi.Postgres.Keeps.{transact-Keeps}
use golang_restapi.Postgres.Keeps.Sessions.{
  update_session-Keeps, revoke_user_sessions-Keeps, get_session_by_id-Keeps,
}
use golang_restapi.Auth.Keeps
use golang_restapi.Auth.Service.Deps.{Service}
use golang_restapi.Auth.Service.Sessions.{
  end_session, logout_tx, logout, revoke_all_tx, revoke_all, revoke_session_tx, revoke_session,
}
use golang_restapi.Auth.History.Later.{Later}
use golang_restapi.Auth.History.Later.Sessions.{
  Told, Told-get_one, Later-update_session, Later-revoke_sessions,
}
use golang_restapi.Auth.History.Services.{logged}

module _ {S : Type 0} (s : Service S) (ctx : Ctx) (start : Db) where
  -- A session that is written revoked tells no lie.
  told_of_ended :
      (now : ℕ) (sess : Session)
      → Told start sess
      → Session.is_expired now sess || Nullable.not_null sess.revoked_at ≡ false
      → (later : ℕ) → Told start (Session.revoke later sess)
  unfolding Session.revoke
  told_of_ended now sess told open' later id m e =
      let known : Nullable.not_null sess.revoked_at ≡ true = told id m e in ground arith

  end_session-Later :
      (now : ℕ) (sess : Session) (entry : AuditEntry)
      → Told start sess
      → Keeps (Later start) Any (end_session s ctx now sess entry)
  unfolding end_session
  end_session-Later now sess entry told =
      Keeps-if (Later start) (Session.is_expired now sess || Nullable.not_null sess.revoked_at)
        (λ _. Keeps-pure (Later start) _ tt)
        λ open'. Keeps-bind (Later start) (Keeps-time_now (Later start) s.env) λ at _.
          Keeps-bind (Later start)
            (update_session-Keeps (Later start) s.env (Session.revoke at sess) (
              Later-update_session start (Session.revoke at sess)
                (told_of_ended now sess told open' at)))
            λ _ _. logged s ctx start entry

  pub logout-Later : (id : ℕ) → Keeps (Later start) Any (logout s ctx id)
  unfolding logout logout_tx
  logout-Later id =
      Keeps-bind (Later start)
        (transact-Keeps (Later start) s.env (
          Keeps-bind (Later start) (get_session_by_id-Keeps (Later start) s.env id)
            λ sess (db, l, e).
              Keeps-bind (Later start) (Keeps-time_now (Later start) s.env)
                λ now _. end_session-Later now sess _ (Told-get_one start _ db sess l e)))
        λ _ _. Keeps-ignore_err (Later start) (Keeps.revoke_session-Keeps (Later start) s.env _ id)

  pub revoke_all-Later : (user_id : ℕ) → Keeps (Later start) Any (revoke_all s ctx user_id)
  unfolding revoke_all revoke_all_tx
  revoke_all-Later user_id = Keeps-bind (Later start) (Keeps-check (Later start) _) λ _ _.
      Keeps-bind (Later start)
        (transact-Keeps (Later start) s.env (
          Keeps-bind (Later start)
            (revoke_user_sessions-Keeps (Later start) s.env _
              (λ db now. Later-revoke_sessions start _ now db))
            λ _ _. logged s ctx start _))
        λ _ _. Keeps.revoke_all_for_user-Keeps (Later start) s.env _ user_id

  pub revoke_session-Later : (id : ℕ) → Keeps (Later start) Any (revoke_session s ctx id)
  unfolding revoke_session revoke_session_tx
  revoke_session-Later id =
      Keeps-bind (Later start)
        (transact-Keeps (Later start) s.env (
          Keeps-bind (Later start) (get_session_by_id-Keeps (Later start) s.env id)
            λ sess (db, l, e). Keeps-bind (Later start) (Keeps-check (Later start) _) λ _ _.
              Keeps-bind (Later start) (Keeps-time_now (Later start) s.env)
                λ now _. end_session-Later now sess _ (Told-get_one start _ db sess l e)))
        λ _ _. Keeps.revoke_session-Keeps (Later start) s.env _ id

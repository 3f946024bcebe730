-- ===== src/Auth/Outcomes/Sessions.antt =====
-- RevokeUserSessions of internal/auth/service.go: who is let through, and what it has done.
use golang_restapi.Base.{ℕ, none, ◌≡◌, ◌∙◌, ◌∷◌, []}
use golang_restapi.Base.Lists.{update_where}
use golang_restapi.Rbac.{require}
use golang_restapi.World.State.{World}
use golang_restapi.World.Action.{ok}
use golang_restapi.World.Logic.{>>=-ok, check-ok}
use golang_restapi.World.Runs.{Reads-ok}
use golang_restapi.Postgres.Audit.{Ctx, fill_actor_meta}
use golang_restapi.Postgres.Sessions.{is_live_of, revoke_at}
use golang_restapi.Postgres.Transact.Laws.{transact-ok}
use golang_restapi.Postgres.Writes.{revoke_user_sessions-ok, record_entry-ok}
use golang_restapi.Redis.Revocation.{revoke_all_for_user}
use golang_restapi.Auth.Keeps
use golang_restapi.Auth.Service.Deps.{Service, user_entry, perm_revoke_user_sessions}
use golang_restapi.Auth.Service.Sessions.{revoke_all_tx, revoke_all}
use golang_restapi.Auth.Outcomes.Passwords.{IsSignedOut, signed_out}

module _ {S : Type 0} (s : Service S) (ctx : Ctx) where
  revoke_all_tx-ok :
      (user_id : ℕ) (w : World S) {w' : World S}
      → revoke_all_tx s ctx user_id w ≡ (ok tt, w')
      → IsSignedOut user_id w'.db
        × (w'.db.audit_logs
            ≡ fill_actor_meta ctx (user_entry "auth.revoke-user-sessions" user_id)
              ∷ w.db.audit_logs)
  unfolding revoke_all_tx
  revoke_all_tx-ok user_id w {w'} h = >>=-ok _ _ h λ _ w1 e1 h1.
      let (now, d1) = revoke_user_sessions-ok s.env user_id w e1 in
      let d2 = record_entry-ok s.env ctx _ w1 h1 in
      let sessions : w'.db.sessions
          ≡ update_where (is_live_of user_id) (revoke_at now) w.db.sessions =
        cc in
      (rw sessions (signed_out user_id now w.db.sessions), cc)

  -- RevokeUserSessions succeeds only for a caller whose role holds its permission. Then every
  -- session of the user is revoked, and one audit entry is written.
  pub revoke_all-ok :
      (user_id : ℕ) (w w' : World S)
      → revoke_all s ctx user_id w ≡ (ok tt, w')
      → (require s.table ctx.rbac (perm_revoke_user_sessions ∷ []) ≡ none)
        × IsSignedOut user_id w'.db
        × (w'.db.audit_logs
            ≡ fill_actor_meta ctx (user_entry "auth.revoke-user-sessions" user_id)
              ∷ w.db.audit_logs)
  unfolding revoke_all
  revoke_all-ok user_id w w' h = check-ok _ _ h λ allowed h1. >>=-ok _ _ h1 λ _ w1 e1 h2.
      transact-ok s.env _ w e1 λ w2 w3 s2 ran s3.
        let (s4, _) =
          Reads-ok (revoke_all_for_user s.env s.cfg.jwt_ttl user_id) w1
            (λ d. Keeps.revoke_all_for_user-Keeps _ s.env _ _) h2 in
        let end : w'.db ≡ w3.db = s4 ∙ s3 in
        let (out, log) = revoke_all_tx-ok user_id w2 ran in (allowed, rw end out, cc (log, end, s2))

-- ===== src/Postgres/Writes.antt =====
-- What the statements of auth_repository.go and user_repository.go have written when they succeed.
use golang_restapi.Base.{ℕ, false, ◌≡◌, arith, ◌==◌, nat_eq, ◌∷◌, string_eq}
use golang_restapi.Base.Lists.{update_where}
use golang_restapi.Auth.Session.{Session}
use golang_restapi.Auth.RegistrationToken.{RegistrationToken}
use golang_restapi.Auth.PasswordRecoveryToken.{PasswordRecoveryToken}
use golang_restapi.User.{User}
use golang_restapi.Postgres.Users.{is_email_taken, write_user, update_user, store_user}
use golang_restapi.Nullable.{null, nat_zero}
use golang_restapi.World.Platform.{Env}
use golang_restapi.World.State.{World, AuditEntry}
use golang_restapi.World.Action.{ok, ◌>>=◌}
use golang_restapi.Postgres.Audit.{Ctx, record_entry, fill_actor_meta}
use golang_restapi.Postgres.Sessions.{
  rewrite, update_session, is_live_of, revoke_at, revoke_user_sessions,
}
use golang_restapi.Postgres.Tokens.{
  write_used, write_recovery_used, update_registration_token, update_password_recovery_token,
}

module _ {S : Type 0} (env : Env S) where
  pub update_session-ok :
      (s : Session) (w : World S) {w' : World S}
      → update_session env s w ≡ (ok tt, w')
      → w'.db
        ≡ record w.db { sessions = update_where (λ r. r.id == s.id) (rewrite s) w.db.sessions }
  unfolding update_session ◌>>=◌
  update_session-ok s w h = ground arith

  pub revoke_user_sessions-ok :
      (user_id : ℕ) (w : World S) {w' : World S}
      → revoke_user_sessions env user_id w ≡ (ok tt, w')
      → (now : ℕ) × (w'.db ≡ record w.db {
        sessions = update_where (is_live_of user_id) (revoke_at now) w.db.sessions;
      })
  unfolding revoke_user_sessions ◌>>=◌
  revoke_user_sessions-ok user_id w h = (env.clock w.calls, ground arith)

  pub record_entry-ok :
      (ctx : Ctx) (e : AuditEntry) (w : World S) {w' : World S}
      → record_entry env ctx e w ≡ (ok tt, w')
      → w'.db ≡ record w.db { audit_logs = fill_actor_meta ctx e ∷ w.db.audit_logs }
  unfolding record_entry ◌>>=◌
  record_entry-ok ctx e w h = ground arith

  pub update_user-ok :
      (u : User) (w : World S) {u' : User} {w' : World S}
      → update_user env u w ≡ (ok u', w')
      → (now : ℕ) × (u' ≡ record u { updated_at = now })
        × (w'.db ≡ record w.db {
          users = update_where (λ r. r.user.id == u.id) (write_user now u) w.db.users;
        })
  unfolding update_user ◌>>=◌
  update_user-ok u w h = (env.clock w.calls, ground arith, ground arith)

  pub store_user-ok :
      (u : User) (w : World S) {u' : User} {w' : World S}
      → store_user env u w ≡ (ok u', w')
      → (now : ℕ) × (u' ≡ record u { created_at = now; updated_at = now })
        × (is_email_taken u.email w.db.users ≡ false)
        × (w'.db ≡ record w.db {
          users =
              record { user = record u { created_at = now; updated_at = now }; deleted_at = null }
              ∷ w.db.users;
        })
  unfolding store_user ◌>>=◌
  store_user-ok u w h = (env.clock w.calls, ground arith, ground arith, ground arith)

  pub update_registration_token-ok :
      (t : RegistrationToken) (w : World S) {w' : World S}
      → update_registration_token env t w ≡ (ok tt, w')
      → w'.db ≡ record w.db {
        registration_tokens =
            update_where (λ r. r.id == t.id) (write_used t) w.db.registration_tokens;
      }
  unfolding update_registration_token ◌>>=◌
  update_registration_token-ok t w h = ground arith

  pub update_password_recovery_token-ok :
      (t : PasswordRecoveryToken) (w : World S) {w' : World S}
      → update_password_recovery_token env t w ≡ (ok tt, w')
      → w'.db ≡ record w.db {
        recovery_tokens =
            update_where (λ r. r.id == t.id) (write_recovery_used t) w.db.recovery_tokens;
      }
  unfolding update_password_recovery_token ◌>>=◌
  update_password_recovery_token-ok t w h = ground arith

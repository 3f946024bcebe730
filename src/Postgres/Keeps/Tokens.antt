-- ===== src/Postgres/Keeps/Tokens.antt =====
-- What the statements on the token tables keep of the tables.
use golang_restapi.Base.{ℕ, String, false, ◌≡◌, ◌∷◌, ◌==◌, nat_eq, string_eq}
use golang_restapi.Base.Lists.{update_where}
use golang_restapi.Nullable.{null, nat_zero}
use golang_restapi.World.Platform.{Env}
use golang_restapi.World.State.{Db}
use golang_restapi.World.Logic.{
  Keeps, Any, Keeps-bind, Keeps-throw_if, Keeps-pure, Keeps-get_db, Keeps-put_db, Keeps-weaken,
}
use golang_restapi.Postgres.Rows.{one, get_one}
use golang_restapi.Postgres.Keeps.{exec-Keeps, read_row-Keeps}
use golang_restapi.Auth.RegistrationToken.{RegistrationToken}
use golang_restapi.Auth.PasswordRecoveryToken.{PasswordRecoveryToken}
use golang_restapi.Postgres.Tokens.{
  is_registration_taken, is_recovery_taken, is_outstanding, revoke_token_at, write_used,
  write_recovery_used, get_password_recovery_token, store_password_recovery_token,
  update_password_recovery_token, get_registration_token, store_registration_token,
  update_registration_token, revoke_registration_tokens,
}

module _ {S : Type 0} (P : Db → Type 0) (env : Env S) where
  pub get_password_recovery_token-Keeps :
      (token_hash : ℕ)
      → Keeps P
          (λ s.
            (db : Db) × P db
            × (get_one (λ r. r.token_hash == token_hash) db.recovery_tokens ≡ one s))
          (get_password_recovery_token env token_hash)
  unfolding get_password_recovery_token
  get_password_recovery_token-Keeps token_hash = Keeps-bind P (exec-Keeps P env _) λ n _.
      Keeps-bind P (Keeps-get_db P)
        λ db p. Keeps-weaken P (read_row-Keeps P _ _ _ _) λ s e. (db, p, e)

  pub store_password_recovery_token-Keeps :
      (t : PasswordRecoveryToken)
      → ((db : Db) (id : ℕ)
          → P db
          → is_recovery_taken id t db.recovery_tokens ≡ false
          → P (record db {
            recovery_tokens = record t { id = id; used_at = null } ∷ db.recovery_tokens;
          }))
      → Keeps P Any (store_password_recovery_token env t)
  unfolding store_password_recovery_token
  store_password_recovery_token-Keeps t put = Keeps-bind P (exec-Keeps P env _) λ n _.
      Keeps-bind P (Keeps-get_db P) λ db p.
        Keeps-bind P (Keeps-throw_if P _ _) λ _ c. Keeps-put_db P _ (put db (env.identity n) p c)

  pub update_password_recovery_token-Keeps :
      (t : PasswordRecoveryToken)
      → ((db : Db)
          → P db
          → P (record db {
            recovery_tokens =
                update_where (λ r. r.id == t.id) (write_recovery_used t) db.recovery_tokens;
          }))
      → Keeps P Any (update_password_recovery_token env t)
  unfolding update_password_recovery_token
  update_password_recovery_token-Keeps t put =
      Keeps-bind P (exec-Keeps P env _)
        λ n _. Keeps-bind P (Keeps-get_db P) λ db p. Keeps-put_db P _ (put db p)

  pub get_registration_token-Keeps :
      (token_hash : ℕ)
      → Keeps P
          (λ s.
            (db : Db) × P db
            × (get_one (λ r. r.token_hash == token_hash) db.registration_tokens ≡ one s))
          (get_registration_token env token_hash)
  unfolding get_registration_token
  get_registration_token-Keeps token_hash = Keeps-bind P (exec-Keeps P env _) λ n _.
      Keeps-bind P (Keeps-get_db P)
        λ db p. Keeps-weaken P (read_row-Keeps P _ _ _ _) λ s e. (db, p, e)

  pub store_registration_token-Keeps :
      (t : RegistrationToken)
      → ((db : Db) (id : ℕ)
          → P db
          → is_registration_taken id t.token_hash db.registration_tokens ≡ false
          → P (record db {
            registration_tokens =
                record t { id = id; used_at = null; revoked_at = null } ∷ db.registration_tokens;
          }))
      → Keeps P Any (store_registration_token env t)
  unfolding store_registration_token
  store_registration_token-Keeps t put = Keeps-bind P (exec-Keeps P env _) λ n _.
      Keeps-bind P (Keeps-get_db P) λ db p. Keeps-bind P (Keeps-throw_if P _ _) λ _ c.
        Keeps-bind P (Keeps-put_db P _ (put db (env.identity n) p c)) λ _ _. Keeps-pure P _ tt

  pub update_registration_token-Keeps :
      (t : RegistrationToken)
      → ((db : Db)
          → P db
          → P (record db {
            registration_tokens =
                update_where (λ r. r.id == t.id) (write_used t) db.registration_tokens;
          }))
      → Keeps P Any (update_registration_token env t)
  unfolding update_registration_token
  update_registration_token-Keeps t put =
      Keeps-bind P (exec-Keeps P env _)
        λ n _. Keeps-bind P (Keeps-get_db P) λ db p. Keeps-put_db P _ (put db p)

  pub revoke_registration_tokens-Keeps :
      (email : String)
      → ((db : Db) (now : ℕ)
          → P db
          → P (record db {
            registration_tokens =
                update_where (is_outstanding email) (revoke_token_at now) db.registration_tokens;
          }))
      → Keeps P Any (revoke_registration_tokens env email)
  unfolding revoke_registration_tokens
  revoke_registration_tokens-Keeps email put =
      Keeps-bind P (exec-Keeps P env _)
        λ n _. Keeps-bind P (Keeps-get_db P) λ db p. Keeps-put_db P _ (put db (env.clock n) p)

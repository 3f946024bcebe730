-- ===== src/Postgres/Tokens.antt =====
-- internal/infrastructure/postgres/auth_repository.go: the token tables.
use golang_restapi.Base.{ℕ, String, Bool, true, not, ◌&&◌, ◌||◌, List, ◌∷◌, ◌==◌, nat_eq, string_eq}
use golang_restapi.Base.Lists.{any, update_where}
use golang_restapi.Errors.{app, fault, wrap, err_not_found}
use golang_restapi.Nullable
use golang_restapi.Nullable.{null, nat_zero}
use golang_restapi.Auth.RegistrationToken.{RegistrationToken}
use golang_restapi.Auth.PasswordRecoveryToken.{PasswordRecoveryToken}
use golang_restapi.World.Platform.{Env}
use golang_restapi.World.Action.{⊤, Action, pure, ◌>>=◌, ◌>>◌, throw_if, get_db, put_db}
use golang_restapi.Postgres.Rows.{get_one, exec, read_row}

-- PRIMARY KEY (id), UNIQUE (token_hash)
unfoldable pub is_registration_taken : ℕ → ℕ → List RegistrationToken → Bool
is_registration_taken id hash = any (λ r. r.id == id || r.token_hash == hash)

-- PRIMARY KEY (id), UNIQUE (user_id, token_hash)
unfoldable pub is_recovery_taken : ℕ → PasswordRecoveryToken → List PasswordRecoveryToken → Bool
is_recovery_taken id t =
    any (λ r. r.id == id || r.user_id == t.user_id && r.token_hash == t.token_hash)

-- WHERE email = $1 AND used_at IS NULL AND revoked_at IS NULL
abbrev pub is_outstanding : String → RegistrationToken → Bool
is_outstanding email r =
    r.email == email && not (Nullable.not_null r.used_at) && not (Nullable.not_null r.revoked_at)

abbrev pub revoke_token_at : ℕ → RegistrationToken → RegistrationToken
revoke_token_at now r = record r { revoked_at = record { val = now; valid = true } }

abbrev pub write_used : RegistrationToken → RegistrationToken → RegistrationToken
write_used t r = record r { used_at = t.used_at }

abbrev pub write_recovery_used :
    PasswordRecoveryToken → PasswordRecoveryToken → PasswordRecoveryToken
write_recovery_used t r = record r { used_at = t.used_at }

module _ {S : Type 0} (env : Env S) where
  unfoldable pub get_password_recovery_token : ℕ → Action S PasswordRecoveryToken
  unfolding get_one
  get_password_recovery_token token_hash = do
    n ← exec env "get password recovery token"
    db ← get_db
    read_row "get password recovery token" (app err_not_found) n
        (get_one (λ r. r.token_hash == token_hash) db.recovery_tokens)

  unfoldable pub store_password_recovery_token : PasswordRecoveryToken → Action S ⊤
  unfolding is_recovery_taken
  store_password_recovery_token t = do
    n ← exec env "store password recovery token"
    db ← get_db
    throw_if (is_recovery_taken (env.identity n) t db.recovery_tokens)
        (wrap "store password recovery token" (fault n))
    put_db (record db {
      recovery_tokens = record t { id = env.identity n; used_at = null } ∷ db.recovery_tokens;
    })

  unfoldable pub update_password_recovery_token : PasswordRecoveryToken → Action S ⊤
  unfolding update_where
  update_password_recovery_token t = do
    exec env "update password recovery token"
    db ← get_db
    put_db (record db {
      recovery_tokens = update_where (λ r. r.id == t.id) (write_recovery_used t) db.recovery_tokens;
    })

  unfoldable pub get_registration_token : ℕ → Action S RegistrationToken
  unfolding get_one
  get_registration_token token_hash = do
    n ← exec env "get registration token"
    db ← get_db
    read_row "get registration token" (wrap "get registration token" (app err_not_found)) n
        (get_one (λ r. r.token_hash == token_hash) db.registration_tokens)

  -- The result is the token with the id that the row was given.
  unfoldable pub store_registration_token : RegistrationToken → Action S RegistrationToken
  unfolding is_registration_taken
  store_registration_token t = do
    n ← exec env "store registration token"
    db ← get_db
    throw_if (is_registration_taken (env.identity n) t.token_hash db.registration_tokens)
        (wrap "store registration token" (fault n))
    let row = record t { id = env.identity n; used_at = null; revoked_at = null }
    put_db (record db { registration_tokens = row ∷ db.registration_tokens })
    pure (record t { id = env.identity n })

  unfoldable pub update_registration_token : RegistrationToken → Action S ⊤
  unfolding update_where
  update_registration_token t = do
    exec env "update registration token"
    db ← get_db
    put_db (record db {
      registration_tokens = update_where (λ r. r.id == t.id) (write_used t) db.registration_tokens;
    })

  unfoldable pub revoke_registration_tokens : String → Action S ⊤
  unfolding update_where
  revoke_registration_tokens email = do
    n ← exec env "revoke registration tokens"
    db ← get_db
    put_db (record db {
      registration_tokens =
          update_where (is_outstanding email) (revoke_token_at (env.clock n))
            db.registration_tokens;
    })

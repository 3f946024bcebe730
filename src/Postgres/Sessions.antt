-- ===== src/Postgres/Sessions.antt =====
-- internal/infrastructure/postgres/auth_repository.go: the sessions table.
use golang_restapi.Base.{
  ℕ, Bool, true, not, ◌&&◌, ◌||◌, List, [], ◌∷◌, map, ◌==◌, nat_eq, ltb, if◌then◌else◌,
}
use golang_restapi.Base.Lists.{any, select_all, update_where}
use golang_restapi.Errors.{app, fault, wrap, err_not_found}
use golang_restapi.Nullable
use golang_restapi.Nullable.{Nullable, null, nat_zero}
use golang_restapi.Auth.Session.{Session}
use golang_restapi.World.Platform.{Env}
use golang_restapi.World.Action.{⊤, Action, pure, ◌>>=◌, ◌>>◌, throw_if, get_db, put_db}
use golang_restapi.Postgres.Rows.{get_one, exec, read_row}

-- PRIMARY KEY (id), UNIQUE (refresh_token_hash)
unfoldable pub is_taken : Session → List Session → Bool
is_taken s = any (λ r. r.id == s.id || r.refresh_token_hash == s.refresh_token_hash)

-- the row that UpdateSession writes over `r`
abbrev pub rewrite : Session → Session → Session
rewrite s r = record r {
  refresh_token_hash = s.refresh_token_hash;
  ip_addr = s.ip_addr;
  user_agent = s.user_agent;
  revoked_at = s.revoked_at;
  accessed_at = s.accessed_at;
}

unfoldable pub is_hash_taken : Session → List Session → Bool
is_hash_taken s rows =
    any (λ r. r.id == s.id) rows
    && any (λ r. not (r.id == s.id) && r.refresh_token_hash == s.refresh_token_hash) rows

abbrev pub revoke_at : ℕ → Session → Session
revoke_at now r = record r { revoked_at = record { val = now; valid = true } }

-- WHERE user_id = @user_id AND revoked_at IS NULL
abbrev pub is_live_of : ℕ → Session → Bool
is_live_of user_id r = r.user_id == user_id && not (Nullable.not_null r.revoked_at)

-- WHERE user_id = $1 AND expires_at > NOW() AND revoked_at IS NULL
abbrev pub is_listed : ℕ → ℕ → Session → Bool
is_listed now user_id r =
    r.user_id == user_id && ltb now r.expires_at && not (Nullable.not_null r.revoked_at)

-- the selected columns: refresh_token_hash is not among them
abbrev pub without_hash : Session → Session
without_hash r = record r { refresh_token_hash = 0 }

-- ORDER BY accessed_at DESC
unfoldable pub insert_by_access : Session → List Session → List Session
insert_by_access s [] = s ∷ []
insert_by_access s (r ∷ rows) =
    if ltb s.accessed_at r.accessed_at then r ∷ insert_by_access s rows else s ∷ r ∷ rows

unfoldable pub order_by_access : List Session → List Session
unfolding insert_by_access
order_by_access [] = []
order_by_access (r ∷ rows) = insert_by_access r (order_by_access rows)

module _ {S : Type 0} (env : Env S) where
  unfoldable pub store_session : Session → Action S ⊤
  unfolding is_taken
  store_session s = do
    n ← exec env "store session"
    db ← get_db
    throw_if (is_taken s db.sessions) (wrap "store session" (fault n))
    put_db (record db {
      sessions = record s { created_at = env.clock n; revoked_at = null } ∷ db.sessions;
    })

  unfoldable pub update_session : Session → Action S ⊤
  unfolding is_hash_taken update_where
  update_session s = do
    n ← exec env "update session"
    db ← get_db
    throw_if (is_hash_taken s db.sessions) (wrap "update session" (fault n))
    put_db (record db { sessions = update_where (λ r. r.id == s.id) (rewrite s) db.sessions })

  unfoldable pub revoke_user_sessions : ℕ → Action S ⊤
  unfolding update_where
  revoke_user_sessions user_id = do
    n ← exec env "revoke user sessions"
    db ← get_db
    put_db (record db {
      sessions = update_where (is_live_of user_id) (revoke_at (env.clock n)) db.sessions;
    })

  unfoldable pub get_session_by_id : ℕ → Action S Session
  unfolding get_one
  get_session_by_id session_id = do
    n ← exec env "session by id"
    db ← get_db
    read_row "session by id" (app err_not_found) n (get_one (λ r. r.id == session_id) db.sessions)

  unfoldable pub get_session_by_refresh_token_hash : ℕ → Action S Session
  unfolding get_one
  get_session_by_refresh_token_hash token_hash = do
    n ← exec env "session by refresh_token_hash token hash"
    db ← get_db
    read_row "session by refresh_token_hash token hash" (app err_not_found) n
        (get_one (λ r. r.refresh_token_hash == token_hash) db.sessions)

  unfoldable pub list_sessions : ℕ → Action S (List Session)
  unfolding select_all order_by_access
  list_sessions user_id = do
    n ← exec env "list session"
    db ← get_db
    pure (
        map without_hash
          (order_by_access (select_all (is_listed (env.clock n) user_id) db.sessions)))

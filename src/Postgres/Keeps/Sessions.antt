-- ===== src/Postgres/Keeps/Sessions.antt =====
-- What the statements on the sessions table keep of the tables.
use golang_restapi.Base.{ℕ, false, ◌≡◌, ◌∷◌, ◌==◌, nat_eq, string_eq}
use golang_restapi.Base.Lists.{update_where}
use golang_restapi.Nullable.{null, nat_zero}
use golang_restapi.World.Platform.{Env}
use golang_restapi.World.State.{Db}
use golang_restapi.World.Logic.{
  Keeps, Any, Keeps-bind, Keeps-throw_if, Keeps-pure, Keeps-get_db, Keeps-put_db, Keeps-weaken,
}
use golang_restapi.Postgres.Rows.{one, get_one}
use golang_restapi.Postgres.Keeps.{exec-Keeps, read_row-Keeps}
use golang_restapi.Auth.Session.{Session}
use golang_restapi.Postgres.Sessions.{
  is_taken, rewrite, is_live_of, revoke_at, store_session, update_session, revoke_user_sessions,
  get_session_by_id, get_session_by_refresh_token_hash, list_sessions,
}

module _ {S : Type 0} (P : Db → Type 0) (env : Env S) where
  pub update_session-Keeps :
      (s : Session)
      → ((db : Db)
          → P db
          → P (record db { sessions = update_where (λ r. r.id == s.id) (rewrite s) db.sessions }))
      → Keeps P Any (update_session env s)
  unfolding update_session
  update_session-Keeps s put = Keeps-bind P (exec-Keeps P env _) λ n _.
      Keeps-bind P (Keeps-get_db P)
        λ db p. Keeps-bind P (Keeps-throw_if P _ _) λ _ _. Keeps-put_db P _ (put db p)

  pub store_session-Keeps :
      (s : Session)
      → ((db : Db) (now : ℕ)
          → P db
          → is_taken s db.sessions ≡ false
          → P (record db {
            sessions = record s { created_at = now; revoked_at = null } ∷ db.sessions;
          }))
      → Keeps P Any (store_session env s)
  unfolding store_session
  store_session-Keeps s put = Keeps-bind P (exec-Keeps P env _) λ n _.
      Keeps-bind P (Keeps-get_db P) λ db p.
        Keeps-bind P (Keeps-throw_if P _ _) λ _ c. Keeps-put_db P _ (put db (env.clock n) p c)

  pub revoke_user_sessions-Keeps :
      (user_id : ℕ)
      → ((db : Db) (now : ℕ)
          → P db
          → P (record db {
            sessions = update_where (is_live_of user_id) (revoke_at now) db.sessions;
          }))
      → Keeps P Any (revoke_user_sessions env user_id)
  unfolding revoke_user_sessions
  revoke_user_sessions-Keeps user_id put =
      Keeps-bind P (exec-Keeps P env _)
        λ n _. Keeps-bind P (Keeps-get_db P) λ db p. Keeps-put_db P _ (put db (env.clock n) p)

  -- A row that is read was found in tables of which P holds.
  pub get_session_by_id-Keeps :
      (id : ℕ)
      → Keeps P
          (λ s. (db : Db) × P db × (get_one (λ r. r.id == id) db.sessions ≡ one s))
          (get_session_by_id env id)
  unfolding get_session_by_id
  get_session_by_id-Keeps id = Keeps-bind P (exec-Keeps P env _) λ n _.
      Keeps-bind P (Keeps-get_db P)
        λ db p. Keeps-weaken P (read_row-Keeps P _ _ _ _) λ s e. (db, p, e)

  pub get_session_by_refresh_token_hash-Keeps :
      (token_hash : ℕ)
      → Keeps P
          (λ s.
            (db : Db) × P db
            × (get_one (λ r. r.refresh_token_hash == token_hash) db.sessions ≡ one s))
          (get_session_by_refresh_token_hash env token_hash)
  unfolding get_session_by_refresh_token_hash
  get_session_by_refresh_token_hash-Keeps token_hash = Keeps-bind P (exec-Keeps P env _) λ n _.
      Keeps-bind P (Keeps-get_db P)
        λ db p. Keeps-weaken P (read_row-Keeps P _ _ _ _) λ s e. (db, p, e)

  pub list_sessions-Keeps : (user_id : ℕ) → Keeps P Any (list_sessions env user_id)
  unfolding list_sessions
  list_sessions-Keeps user_id =
      Keeps-bind P (exec-Keeps P env _)
        λ n _. Keeps-bind P (Keeps-get_db P) λ db p. Keeps-pure P _ tt

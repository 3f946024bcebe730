-- ===== src/Postgres/Keeps/Users.antt =====
-- What the statements on the users table and the audit log keep of the tables.
use golang_restapi.Base.{ℕ, String, false, ◌≡◌, refl, List, ◌∷◌, ◌==◌, nat_eq, string_eq}
use golang_restapi.Base.Lists.{any}
use golang_restapi.Nullable.{null, nat_zero}
use golang_restapi.World.Platform.{Env}
use golang_restapi.World.State.{UserRow, Db}
use golang_restapi.World.Logic.{
  Keeps, Any, Keeps-bind, Keeps-throw_if, Keeps-pure, Keeps-get_db, Keeps-put_db,
}
use golang_restapi.Postgres.Rows.{one, get_one}
use golang_restapi.Postgres.Keeps.{exec-Keeps, read_row-Keeps}
use golang_restapi.User.{User}
use golang_restapi.World.State.{AuditEntry}
use golang_restapi.Postgres.Audit.{Ctx, fill_actor_meta, record_entry}
use golang_restapi.Postgres.Users.{
  is_live_id, is_live_email, is_email_taken, store_user, get_user_by_id, get_user_by_email,
  update_user, delete_user,
}

module _ {S : Type 0} (P : Db → Type 0) (env : Env S) where
  pub get_user_by_id-Keeps :
      (user_id : ℕ)
      → Keeps P
          (λ u.
            (db : Db) × (row : UserRow) × P db
            × (get_one (is_live_id user_id) db.users ≡ one row)
            × (row.user ≡ u))
          (get_user_by_id env user_id)
  unfolding get_user_by_id
  get_user_by_id-Keeps user_id = Keeps-bind P (exec-Keeps P env _) λ n _.
      Keeps-bind P (Keeps-get_db P) λ db p.
        Keeps-bind P (read_row-Keeps P _ _ _ _) λ row e. Keeps-pure P _ (db, row, p, e, refl)

  pub get_user_by_email-Keeps :
      (email : String)
      → Keeps P
          (λ u.
            (db : Db) × (row : UserRow) × P db
            × (get_one (is_live_email email) db.users ≡ one row)
            × (row.user ≡ u))
          (get_user_by_email env email)
  unfolding get_user_by_email
  get_user_by_email-Keeps email = Keeps-bind P (exec-Keeps P env _) λ n _.
      Keeps-bind P (Keeps-get_db P) λ db p.
        Keeps-bind P (read_row-Keeps P _ _ _ _) λ row e. Keeps-pure P _ (db, row, p, e, refl)

  pub store_user-Keeps :
      (u : User)
      → ((db : Db) (now : ℕ)
          → P db
          → any (λ r. r.user.id == u.id) db.users ≡ false
          → is_email_taken u.email db.users ≡ false
          → P (record db {
            users =
                record { user = record u { created_at = now; updated_at = now }; deleted_at = null }
                ∷ db.users;
          }))
      → Keeps P Any (store_user env u)
  unfolding store_user
  store_user-Keeps u put = Keeps-bind P (exec-Keeps P env _) λ n _.
      Keeps-bind P (Keeps-get_db P) λ db p. Keeps-bind P (Keeps-throw_if P _ _) λ _ c.
        Keeps-bind P (Keeps-throw_if P _ _) λ _ d.
          Keeps-bind P (Keeps-put_db P _ (put db (env.clock n) p c d)) λ _ _. Keeps-pure P _ tt

  -- a predicate that does not read the users
  pub update_user-Keeps :
      (u : User)
      → ((db : Db) (rows : List UserRow) → P db → P (record db { users = rows }))
      → Keeps P Any (update_user env u)
  unfolding update_user
  update_user-Keeps u put = Keeps-bind P (exec-Keeps P env _) λ n _.
      Keeps-bind P (Keeps-get_db P) λ db p. Keeps-bind P (Keeps-throw_if P _ _) λ _ _.
        Keeps-bind P (Keeps-throw_if P _ _)
          λ _ _. Keeps-bind P (Keeps-put_db P _ (put db _ p)) λ _ _. Keeps-pure P _ tt

  pub delete_user-Keeps :
      (u : User)
      → ((db : Db) (rows : List UserRow) → P db → P (record db { users = rows }))
      → Keeps P Any (delete_user env u)
  unfolding delete_user
  delete_user-Keeps u put =
      Keeps-bind P (exec-Keeps P env _)
        λ n _. Keeps-bind P (Keeps-get_db P) λ db p. Keeps-put_db P _ (put db _ p)

  pub record_entry-Keeps :
      (ctx : Ctx) (e : AuditEntry)
      → ((db : Db) → P db → P (record db { audit_logs = fill_actor_meta ctx e ∷ db.audit_logs }))
      → Keeps P Any (record_entry env ctx e)
  unfolding record_entry
  record_entry-Keeps ctx e put =
      Keeps-bind P (exec-Keeps P env _)
        λ n _. Keeps-bind P (Keeps-get_db P) λ db p. Keeps-put_db P _ (put db p)

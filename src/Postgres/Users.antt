-- ===== src/Postgres/Users.antt =====
-- internal/infrastructure/postgres/user_repository.go, but for List.
use golang_restapi.Base.{ℕ, String, Bool, true, not, ◌&&◌, List, ◌∷◌, [], ◌==◌, nat_eq, string_eq}
use golang_restapi.Base.Lists.{any, update_where}
use golang_restapi.Errors.{Err, app, fault, wrap, fields, identifier, err_not_found, with_details}
use golang_restapi.Nullable
use golang_restapi.Nullable.{null, nat_zero}
use golang_restapi.User.{User, err_email_conflict}
use golang_restapi.World.Platform.{Env}
use golang_restapi.World.State.{UserRow}
use golang_restapi.World.Action.{⊤, Action, pure, ◌>>=◌, ◌>>◌, throw_if, get_db, put_db}
use golang_restapi.Postgres.Rows.{get_one, exec, read_row}

-- the rows of the partial index users_email_key
abbrev pub is_live : UserRow → Bool
is_live r = not (Nullable.not_null r.deleted_at)

abbrev pub is_live_id : ℕ → UserRow → Bool
is_live_id id r = r.user.id == id && is_live r

abbrev pub is_live_email : String → UserRow → Bool
is_live_email email r = r.user.email == email && is_live r

-- UNIQUE users_email_key
unfoldable pub is_email_taken : String → List UserRow → Bool
is_email_taken email = any (is_live_email email)

-- the same for an update of the row `id`, if that row is live
unfoldable pub is_email_taken_by_other : ℕ → String → List UserRow → Bool
is_email_taken_by_other id email rows =
    any (is_live_id id) rows && any (λ r. not (r.user.id == id) && is_live_email email r) rows

abbrev pub email_conflict : String → Err
email_conflict email = app (with_details err_email_conflict (fields (("email", email) ∷ [])))

-- The columns that Update sets: role and created_at are not among them.
abbrev pub write_user : ℕ → User → UserRow → UserRow
write_user now u r = record r {
  user = record u { role = r.user.role; created_at = r.user.created_at; updated_at = now };
}

module _ {S : Type 0} (env : Env S) where
  -- Store and Update return the user with the times that the statement's RETURNING scans into it.
  unfoldable pub store_user : User → Action S User
  unfolding is_email_taken
  store_user u = do
    n ← exec env "store user"
    db ← get_db
    throw_if (any (λ r. r.user.id == u.id) db.users) (wrap "store user" (fault n))
    throw_if (is_email_taken u.email db.users) (email_conflict u.email)
    let row = record u { created_at = env.clock n; updated_at = env.clock n }
    put_db (record db { users = record { user = row; deleted_at = null } ∷ db.users })
    pure row

  -- GetByID and GetByEmail: getUserBy with a field
  unfoldable pub get_user_by_id : ℕ → Action S User
  unfolding get_one
  get_user_by_id user_id = do
    n ← exec env "query"
    db ← get_db
    row ←
        read_row "query" (app (with_details err_not_found (identifier "user_id" user_id))) n
          (get_one (is_live_id user_id) db.users)
    pure row.user

  unfoldable pub get_user_by_email : String → Action S User
  unfolding get_one
  get_user_by_email email = do
    n ← exec env "query"
    db ← get_db
    row ←
        read_row "query" (app (with_details err_not_found (fields (("user_email", email) ∷ [])))) n
          (get_one (is_live_email email) db.users)
    pure row.user

  unfoldable pub update_user : User → Action S User
  unfolding is_email_taken_by_other update_where
  update_user u = do
    n ← exec env "update user"
    db ← get_db
    throw_if (not (any (λ r. r.user.id == u.id) db.users)) (wrap "update user" (fault n))
    throw_if (is_email_taken_by_other u.id u.email db.users) (email_conflict u.email)
    put_db (record db {
      users = update_where (λ r. r.user.id == u.id) (write_user (env.clock n) u) db.users;
    })
    pure (record u { updated_at = env.clock n })

  unfoldable pub delete_user : User → Action S ⊤
  unfolding update_where
  delete_user u = do
    n ← exec env "delete user"
    db ← get_db
    put_db (record db {
      users =
          update_where (λ r. r.user.id == u.id)
            (λ r. record r { deleted_at = record { val = env.clock n; valid = true } }) db.users;
    })

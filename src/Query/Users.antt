-- ===== src/Query/Users.antt =====
-- internal/user/search.go, ParseGender and ParseRole, List of
-- internal/infrastructure/postgres/user_repository.go and ListUser of internal/user/service.go.
-- That a statement is evaluated, on its text and arguments, is the database's part.
use golang_restapi.Base.{ℕ, String, Option, none, some, List, [], ◌∷◌, map, if◌then◌else◌}
use golang_restapi.Errors.{plain}
use golang_restapi.Paging.{Pagination, apply_pagination, total_pages}
use golang_restapi.Query.{Value, QueryBuilder, select, where_in, where_null, sql, count_sql}
use golang_restapi.Query.Sorting.{Sorting, apply_sort}
use golang_restapi.Rbac.{is_valid_role, require}
use golang_restapi.User.{User, is_valid_gender}
use golang_restapi.User.Service.{UserService, perm_read}
use golang_restapi.World.Platform.{Env}
use golang_restapi.World.State.{Db}
use golang_restapi.World.Action.{Action, pure, throw, ◌>>=◌, ◌>>◌, check, get_db}
use golang_restapi.Postgres.Audit.{Ctx}
use golang_restapi.Postgres.Rows.{exec}

-- strings.TrimSpace, ToUpper and ToLower
pub record Letters : Type 0 where
  pub trim_space : String → String
  pub to_upper : String → String
  pub to_lower : String → String

-- type Search, with the fields of its Filter
pub record Search : Type 0 where
  pub gender : List String
  pub role : List String
  pub sorting : Sorting
  pub pagination : Pagination

-- what SetMeta takes over
pub record QueryMeta : Type 0 where
  pub search : Search
  pub total : ℕ
  pub total_pages : ℕ

abbrev pub user_sort_fields : List (String × String)
user_sort_fields = ("id", "id") ∷ ("created_at", "created_at") ∷ ("updated_at", "updated_at") ∷ []

module _ (letters : Letters) where
  -- ParseGender and ParseRole
  unfoldable pub parse_gender : String → Option String
  unfolding is_valid_gender
  parse_gender s =
      let g = letters.to_upper (letters.trim_space s) in if is_valid_gender g then some g else none

  unfoldable pub parse_role : String → Option String
  unfolding is_valid_role
  parse_role s =
      let r = letters.to_lower (letters.trim_space s) in if is_valid_role r then some r else none

  abbrev keep : Option String → List String → List String
  keep none kept = kept
  keep (some v) kept = v ∷ kept

  -- the loop that drops what the domain does not recognise
  unfoldable pub valid_values : (String → Option String) → List String → List String
  valid_values parse [] = []
  valid_values parse (v ∷ vs) = keep (parse v) (valid_values parse vs)

  -- Search.ApplyFilter
  unfoldable pub apply_filter : Search → QueryBuilder → Search × QueryBuilder
  unfolding parse_gender parse_role valid_values
  apply_filter s q =
      let genders = valid_values parse_gender s.gender in
      let roles = valid_values parse_role s.role in
      (
        record s { gender = genders; role = roles },
        where_in "role" (map Value.text roles) (where_in "gender" (map Value.text genders) q),
      )

  -- ApplyQuery of internal/ports/repository/query.go, for the search
  unfoldable pub apply_query : Search → QueryBuilder → Search × QueryBuilder
  unfolding apply_filter
  apply_query s q =
      let (s1, q1) = apply_filter s q in
      let (sorting, q2) = apply_sort letters.to_upper user_sort_fields s1.sorting q1 in
      let (pagination, window) = apply_pagination s1.pagination q2.window in
      (record s1 { sorting = sorting; pagination = pagination }, record q2 { window = window })

  abbrev pub user_columns : List String
  user_columns =
      "id" ∷ "name" ∷ "email" ∷ "email_verified_at" ∷ "phone" ∷ "gender" ∷ "role"
      ∷ "profile_picture" ∷ "created_at" ∷ "updated_at" ∷ []

  -- the query of List
  unfoldable pub user_query : Search → Search × QueryBuilder
  unfolding apply_query
  user_query s = apply_query s (where_null "deleted_at" (select "users" user_columns))

-- The database's evaluation of the two statements.
pub record Reader : Type 0 where
  pub show : ℕ → String
  pub users : String × List Value → Db → List User
  pub count : String × List Value → Db → ℕ

module _ {S : Type 0} (env : Env S) (letters : Letters) (reader : Reader) where
  -- userRepository.List
  unfoldable pub list_users : Option Search → Action S (List User × QueryMeta)
  unfolding user_query
  list_users none = throw (plain "filter is nil")
  list_users (some s) = do
    let (applied, q) = user_query letters s
    exec env "list user"
    db ← get_db
    exec env "count list user"
    db' ← get_db
    let total = reader.count (count_sql reader.show q) db'
    pure (
      reader.users (sql reader.show q) db,
      record {
        search = applied;
        total = total;
        total_pages = total_pages applied.pagination.limit total;
      },
    )

-- ListUser
unfoldable pub list_user :
    {S : Type 0}
    → UserService S
    → Letters
    → Reader
    → Ctx
    → Option Search
    → Action S (List User × QueryMeta)
unfolding list_users
list_user s letters reader ctx search = do
  check (require s.table ctx.rbac (perm_read ∷ []))
  list_users s.env letters reader search

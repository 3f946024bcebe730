-- ===== src/Query/Audit.antt =====
-- internal/audit/model.go and entity.go: the search of audit entries; toEntry and List of
-- internal/infrastructure/postgres/audit_repository.go; List of internal/audit/service.go.
use golang_restapi.Base.{
  ℕ, String, Bool, ◌||◌, Option, none, some, List, [], ◌∷◌, map, ◌==◌, nat_eq, string_eq, concat,
  if◌then◌else◌,
}
use golang_restapi.Paging.{Pagination, apply_pagination}
use golang_restapi.Query.{
  Value, QueryBuilder, select, left_join, where_in, where_ilike, where_between, sql, count_sql,
}
use golang_restapi.Query.Sorting.{Sorting, apply_sort}
use golang_restapi.Query.DateRange.{DateRange, Calendar, Interval, bounds}
use golang_restapi.Query.Users.{Letters, valid_values}
use golang_restapi.Rbac.{Permission, PermissionTable, role_system, role_admin, require}
use golang_restapi.World.Platform.{Env}
use golang_restapi.World.State.{Db}
use golang_restapi.World.Action.{Action, pure, ◌>>=◌, ◌>>◌, check, get_db}
use golang_restapi.Postgres.Audit.{Ctx}
use golang_restapi.Postgres.Rows.{exec}
use Prim.Native.Char.{code}

-- type Search, with the fields of its Filter
pub record AuditSearch : Type 0 where
  pub entity : List String
  pub actor : String
  pub dates : DateRange
  pub sorting : Sorting
  pub pagination : Pagination

abbrev pub audit_sort_fields : List (String × String)
audit_sort_fields = ("created_at", "e.created_at") ∷ []

-- validEntities
unfoldable pub is_valid_entity : String → Bool
is_valid_entity name = name == "registration_token" || name == "session" || name == "user"

abbrev pub is_special : ℕ → Bool
is_special c = c == 92 || c == 37 || c == 95

-- escapeLike: a backslash before a backslash, a percent sign or an underscore
unfoldable pub escape_like : String → String
escape_like String.[] = ""
escape_like (String.◌∷◌ c s) =
    let rest = escape_like s in
    if is_special (code c) then String.◌∷◌ "\\" (String.◌∷◌ c rest) else String.◌∷◌ c rest

module _ (letters : Letters) (cal : Calendar) (parse_uuid : String → Option ℕ) where
  -- ParseEntity
  unfoldable pub parse_entity : String → Option String
  unfolding is_valid_entity
  parse_entity value =
      let name = letters.to_lower (letters.trim_space value) in
      if is_valid_entity name then some name else none

  abbrev pub filter_dates : Interval → QueryBuilder → QueryBuilder
  filter_dates i q = if i.ok then where_between "e.created_at" i.from i.to q else q

  abbrev pub filter_name : Option ℕ → String → QueryBuilder → QueryBuilder
  filter_name (some id) actor q = where_in "e.actor_id" (Value.uuid id ∷ []) q
  filter_name none actor q =
      where_ilike "u.name" (Value.text (concat "%" (concat (escape_like actor) "%"))) q

  -- the actor's part of ApplyFilter, of the trimmed term
  unfoldable pub filter_actor : String → QueryBuilder → QueryBuilder
  unfolding escape_like
  filter_actor actor q = if actor == "" then q else filter_name (parse_uuid actor) actor q

  -- Search.ApplyFilter
  unfoldable pub apply_filter : AuditSearch → QueryBuilder → AuditSearch × QueryBuilder
  unfolding parse_entity filter_actor bounds
  apply_filter s q =
      let entities = valid_values letters parse_entity s.entity in
      let (dates, interval) = bounds cal s.dates in
      let actor = letters.trim_space s.actor in
      (
        record s { entity = entities; dates = dates; actor = actor },
        filter_actor actor
            (filter_dates interval (where_in "e.entity" (map Value.text entities) q)),
      )

  -- ApplyQuery of internal/ports/repository/query.go, for the search
  unfoldable pub apply_query : AuditSearch → QueryBuilder → AuditSearch × QueryBuilder
  unfolding apply_filter
  apply_query s q =
      let (s1, q1) = apply_filter s q in
      let (sorting, q2) = apply_sort letters.to_upper audit_sort_fields s1.sorting q1 in
      let (pagination, window) = apply_pagination s1.pagination q2.window in
      (record s1 { sorting = sorting; pagination = pagination }, record q2 { window = window })

  abbrev pub audit_columns : List String
  audit_columns =
      "e.id" ∷ "e.action" ∷ "e.entity" ∷ "e.entity_id" ∷ "e.prev" ∷ "e.next" ∷ "e.meta"
      ∷ "e.created_at" ∷ "e.actor_id" ∷ "u.name AS actor_name" ∷ []

  -- the query of List
  unfoldable pub audit_query : AuditSearch → AuditSearch × QueryBuilder
  unfolding apply_query
  audit_query s =
      apply_query s
        (left_join "users AS u" "e.actor_id=u.id" (select "audit_logs AS e" audit_columns))

-- The columns of auditRow that say who acted, and Actor of an entry.
pub record ActorColumns : Type 0 where
  pub actor_id : Option ℕ
  pub actor_name : Option String

pub record AuditActor : Type 0 where
  pub id : ℕ
  pub name : String

abbrev name_of : Option String → String
name_of none = ""
name_of (some name) = name

abbrev attributed : Option ℕ → Option String → Option AuditActor
attributed none name = none
attributed (some id) name = some (record { id = id; name = name_of name })

-- the actor that toEntry finds
unfoldable pub actor_of : ActorColumns → Option AuditActor
actor_of r = attributed r.actor_id r.actor_name

abbrev pub perm_read : Permission
perm_read = "audit.read"

abbrev pub perm_tables : PermissionTable
perm_tables = (role_system, perm_read ∷ []) ∷ (role_admin, perm_read ∷ []) ∷ []

-- What the statements give: the rows' actors and their number.
pub record AuditReader : Type 0 where
  pub show : ℕ → String
  pub rows : String × List Value → Db → List ActorColumns
  pub count : String × List Value → Db → ℕ

module _ {S : Type 0} (env : Env S) (table : PermissionTable) (letters : Letters) (cal : Calendar)
    (parse_uuid : String → Option ℕ) (reader : AuditReader) where
  -- Service.List, then auditRepository.List: the actors of the entries, and the total
  unfoldable pub list_entries :
      Ctx → AuditSearch → Action S (List (Option AuditActor) × AuditSearch × ℕ)
  unfolding audit_query actor_of
  list_entries ctx s = do
    check (require table ctx.rbac (perm_read ∷ []))
    let (applied, q) = audit_query letters cal parse_uuid s
    exec env "list audit"
    db ← get_db
    exec env "count list audit"
    db' ← get_db
    pure (
      map actor_of (reader.rows (sql reader.show q) db),
      applied,
      reader.count (count_sql reader.show q) db',
    )

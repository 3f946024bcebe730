-- ===== src/Query.antt =====
-- internal/infrastructure/postgres/query_builder.go: a SELECT with its conditions, whose values are
-- bound as arguments $1, $2, … and never stand in the text.
pub mod Laws
pub mod Sorting
pub mod DateRange
pub mod Users
pub mod Audit
pub mod Escaping
pub mod Searches
use golang_restapi.Base.{
  ℕ, suc, ◌+◌, String, Bool, not, List, [], ◌∷◌, ◌++◌, map, ◌==◌, nat_eq, string_eq, concat,
  if◌then◌else◌,
}
use golang_restapi.Base.Int.{ℤ, pos, pos_part, is_below}
use golang_restapi.Base.Lists.{length}
use golang_restapi.Paging
use golang_restapi.Paging.{Window}

-- A time: nanoseconds since Go's zero time, and the location that it is shown in.
pub record Time : Type 0 where
  pub nanos : ℕ
  pub zone : String

pub data Value : Type 0 where
  text : String → Value
  uuid : ℕ → Value
  time : Time → Value

-- A condition on a column, with the numbers of its arguments.
pub data Condition : Type 0 where
  is_in : String → List ℕ → Condition
  is_null is_not_null : String → Condition
  like ilike starts ends : String → ℕ → Condition

-- type QueryBuilder, with its limit and offset
pub record QueryBuilder : Type 0 where
  pub table : String
  pub columns : List String
  pub joins : List String
  pub wheres : List Condition
  pub args : List Value
  pub order_by : String
  pub window : Window

-- Select
abbrev pub select : String → List String → QueryBuilder
select table columns = record {
  table = table;
  columns = columns;
  joins = [];
  wheres = [];
  args = [];
  order_by = "";
  window = record { limit = pos 0; offset = 0 };
}

-- Join, LeftJoin and RightJoin, with the keyword
abbrev pub add_join : String → String → String → QueryBuilder → QueryBuilder
add_join keyword table on q = record q {
  joins = q.joins ++ (concat keyword (concat table (concat " ON " on)) ∷ []);
}

abbrev pub left_join : String → String → QueryBuilder → QueryBuilder
left_join = add_join "LEFT JOIN "

-- addArg: the argument's number
abbrev pub add_arg : Value → QueryBuilder → ℕ × QueryBuilder
add_arg v q = (length q.args + 1, record q { args = q.args ++ (v ∷ []) })

abbrev pub add_where : Condition → QueryBuilder → QueryBuilder
add_where c q = record q { wheres = q.wheres ++ (c ∷ []) }

-- the loop of WhereIn
unfoldable pub add_args : List Value → QueryBuilder → List ℕ × QueryBuilder
add_args [] q = ([], q)
add_args (v ∷ vs) q = let (n, q') = add_arg v q in let (ns, q'') = add_args vs q' in (n ∷ ns, q'')

-- WhereIn
unfoldable pub where_in : String → List Value → QueryBuilder → QueryBuilder
unfolding add_args
where_in column [] q = q
where_in column (v ∷ vs) q = let (ns, q') = add_args (v ∷ vs) q in add_where (is_in column ns) q'

-- WhereNull and WhereNotNull
unfoldable pub where_null : String → QueryBuilder → QueryBuilder
where_null column = add_where (is_null column)

unfoldable pub where_not_null : String → QueryBuilder → QueryBuilder
where_not_null column = add_where (is_not_null column)

-- a condition with one argument
unfoldable pub where_arg : (ℕ → Condition) → Value → QueryBuilder → QueryBuilder
where_arg condition v q = let (n, q') = add_arg v q in add_where (condition n) q'

-- WhereLike and WhereILike, of a value that is not nil
unfoldable pub where_like : String → Value → QueryBuilder → QueryBuilder
unfolding where_arg
where_like column = where_arg (like column)

unfoldable pub where_ilike : String → Value → QueryBuilder → QueryBuilder
unfolding where_arg
where_ilike column = where_arg (ilike column)

-- a bound of WhereBetween: Time.IsZero leaves its side open
unfoldable pub where_bound : (ℕ → Condition) → Time → QueryBuilder → QueryBuilder
unfolding where_arg
where_bound condition t q = if t.nanos == 0 then q else where_arg condition (time t) q

-- WhereBetween
unfoldable pub where_between : String → Time → Time → QueryBuilder → QueryBuilder
unfolding where_bound
where_between column from to q = where_bound (ends column) to (where_bound (starts column) from q)

-- OrderBy
unfoldable pub order_by : String → String → QueryBuilder → QueryBuilder
order_by column order q =
    if column == ""
    then q
    else record q { order_by = if order == "" then column else concat column (concat " " order) }

-- Paginate
abbrev pub paginate : ℤ → ℤ → QueryBuilder → QueryBuilder
paginate page limit q = record q { window = Paging.paginate page limit q.window }

-- strings.Join
unfoldable pub join_texts : String → List String → String
join_texts separator [] = ""
join_texts separator (s ∷ []) = s
join_texts separator (s ∷ t ∷ ts) = concat s (concat separator (join_texts separator (t ∷ ts)))

-- The text, with `show` for strconv.Itoa.
module _ (show : ℕ → String) where
  abbrev pub placeholder : ℕ → String
  placeholder n = concat "$" (show n)

  unfoldable pub condition_text : Condition → String
  unfolding join_texts
  condition_text (is_in column ns) =
      concat column (concat " IN (" (concat (join_texts ", " (map placeholder ns)) ")"))
  condition_text (is_null column) = concat column " IS NULL"
  condition_text (is_not_null column) = concat column " IS NOT NULL"
  condition_text (like column n) = concat column (concat " LIKE " (placeholder n))
  condition_text (ilike column n) = concat column (concat " ILIKE " (placeholder n))
  condition_text (starts column n) = concat column (concat " >= " (placeholder n))
  condition_text (ends column n) = concat column (concat " < " (placeholder n))

  -- " keyword a separator b", or nothing for no element
  unfoldable pub clause : String → String → List String → String
  unfolding join_texts
  clause keyword separator [] = ""
  clause keyword separator (s ∷ ss) = concat keyword (join_texts separator (s ∷ ss))

  -- what SQL and CountSQL share: the tables and the conditions
  unfoldable pub from_where : QueryBuilder → String
  unfolding condition_text clause
  from_where q = concat " FROM " (
      concat q.table
        (concat (clause " " " " q.joins) (clause " WHERE " " AND " (map condition_text q.wheres))))

  unfoldable pub limit_text : Window → String
  limit_text w =
      if is_below w.limit 1
      then ""
      else concat " LIMIT " (concat (show (pos_part w.limit)) (concat " OFFSET " (show w.offset)))

  -- SQL
  unfoldable pub sql : QueryBuilder → String × List Value
  unfolding from_where limit_text join_texts
  sql q = (
    concat "SELECT " (
        concat (join_texts ", " q.columns) (
          concat (from_where q) (
            concat (if q.order_by == "" then "" else concat " ORDER BY " q.order_by)
              (limit_text q.window)))),
    q.args,
  )

  -- CountSQL
  unfoldable pub count_sql : QueryBuilder → String × List Value
  unfolding from_where
  count_sql q = (concat "SELECT COUNT(*)" (from_where q), q.args)

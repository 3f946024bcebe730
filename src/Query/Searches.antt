-- ===== src/Query/Searches.antt =====
-- The queries of internal/user/search.go and internal/audit/model.go: their text and arguments.
use mathlib.Core.Path.{subst₂}
use golang_restapi.Base.{
  ℕ, suc, ◌+◌, String, concat, true, false, Option, none, some, List, [], ◌∷◌, ◌++◌, map, ◌≡◌, refl,
  ap, sym, ◌∙◌, arith, ◌==◌, string_eq, if◌then◌else◌,
}
use golang_restapi.Base.Lists.{length, length-append}
use golang_restapi.Query.{
  Value, is_in, ilike, QueryBuilder, select, where_in, where_null, where_between, where_ilike,
  order_by, sql,
}
use golang_restapi.Query.Laws.{
  IsNumbered, range, select-IsNumbered, where_in_lem, where_in-IsNumbered, where_arg-IsNumbered,
  where_null-IsNumbered, where_between-IsNumbered,
}
use golang_restapi.Query.Sorting.{Sorting, column_of, apply_column, apply_sort}
use golang_restapi.Query.DateRange.{Calendar, Interval, bounds}
use golang_restapi.Paging.{apply_pagination}
use golang_restapi.Query.Users
use golang_restapi.Query.Users.{
  Letters, user_columns, Search, user_sort_fields, valid_values, parse_gender, parse_role,
  user_query,
}
use golang_restapi.Query.Audit
use golang_restapi.Query.Audit.{
  AuditSearch, audit_columns, audit_sort_fields, filter_dates, filter_name, filter_actor,
  audit_query,
}

-- What the order of a query leaves alone.
order_by-IsNumbered :
    (column order : String) (q : QueryBuilder) → IsNumbered q → IsNumbered (order_by column order q)
unfolding order_by
order_by-IsNumbered column order q is =
    elim (column == "")
      as (λ b. IsNumbered (
        if b then q else record q {
          order_by = if order == "" then column else concat column (concat " " order);
        })) [ true ↦ is | false ↦ is ]

apply_sort-IsNumbered :
    (to_upper : String → String) (allowed : List (String × String)) (s : Sorting) (q : QueryBuilder)
    → IsNumbered q
    → IsNumbered (apply_sort to_upper allowed s q).1
unfolding apply_sort
apply_sort-IsNumbered to_upper allowed s q is = go (column_of allowed s.by)
  where
    go : (o : Option String) → IsNumbered (apply_column to_upper o s q).1
    go none = is
    go (some column) = order_by-IsNumbered column _ q is

module _ (letters : Letters) where
  user_query-IsNumbered : (s : Search) → IsNumbered (user_query letters s).1
  unfolding user_query Users.apply_query Users.apply_filter
  user_query-IsNumbered s = apply_sort-IsNumbered letters.to_upper user_sort_fields s.sorting _ (
      where_in-IsNumbered "role" _ _ (
        where_in-IsNumbered "gender" _ _ (
          where_null-IsNumbered "deleted_at" _ (select-IsNumbered "users" (user_columns letters)))))

  module _ (cal : Calendar) (parse_uuid : String → Option ℕ) where
    filter_dates-IsNumbered :
        (i : Interval) (q : QueryBuilder)
        → IsNumbered q
        → IsNumbered (filter_dates letters cal parse_uuid i q)
    filter_dates-IsNumbered i q is =
        elim i.ok
          as (λ b. IsNumbered (if b then where_between "e.created_at" i.from i.to q else q)) [
            | true ↦ where_between-IsNumbered "e.created_at" i.from i.to q is
            | false ↦ is
          ]

    filter_actor-IsNumbered :
        (actor : String) (q : QueryBuilder)
        → IsNumbered q
        → IsNumbered (filter_actor letters cal parse_uuid actor q)
    unfolding filter_actor where_ilike
    filter_actor-IsNumbered actor q is =
        elim (actor == "")
          as (λ b.
            IsNumbered
              (if b then q else filter_name letters cal parse_uuid (parse_uuid actor) actor q)) [
                | true ↦ is
                | false ↦ go (parse_uuid actor)
              ]
      where
        go : (o : Option ℕ) → IsNumbered (filter_name letters cal parse_uuid o actor q)
        go (some id) = where_in-IsNumbered "e.actor_id" _ q is
        go none = where_arg-IsNumbered (ilike "u.name") _ q (λ n. refl) is

    -- In the queries for users and for audit entries, whatever is searched for, the placeholders
    -- are $1, $2, … in the order in which they stand in the text, and there is exactly one for each
    -- argument.
    pub queries-IsNumbered :
        (s : Search) (t : AuditSearch)
        → IsNumbered (user_query letters s).1 × IsNumbered (audit_query letters cal parse_uuid t).1
    unfolding audit_query Audit.apply_query Audit.apply_filter
    queries-IsNumbered s t = (
      user_query-IsNumbered s,
      apply_sort-IsNumbered letters.to_upper audit_sort_fields t.sorting _ (
          filter_actor-IsNumbered (letters.trim_space t.actor) _ (
            filter_dates-IsNumbered (bounds cal t.dates).1 _ (
              where_in-IsNumbered "e.entity" _ _
                (select-IsNumbered "audit_logs AS e" (audit_columns letters cal parse_uuid))))),
    )

-- Two queries that differ in their arguments only, and have as many.
SameShape : QueryBuilder → QueryBuilder → Type 0
SameShape q q' =
    (record q { args = [] } ≡ record q' { args = [] }) × (length q.args ≡ length q'.args)

where_in_some-SameShape :
    (column : String) (v v' : Value) (vs vs' : List Value) (q q' : QueryBuilder)
    → length vs ≡ length vs'
    → SameShape q q'
    → SameShape (where_in column (v ∷ vs) q) (where_in column (v' ∷ vs') q')
unfolding SameShape
where_in_some-SameShape column v v' vs vs' q q' same (fields, count) =
    subst₂ SameShape (sym (where_in_lem column v vs q)) (sym (where_in_lem column v' vs' q')) (
      rw (count, same) (ap (grow (length q'.args) (suc (length vs'))) fields),
      omega (arith, count, same, length-append q.args (v ∷ vs), length-append q'.args (v' ∷ vs')),
    )
  where
    grow : ℕ → ℕ → QueryBuilder → QueryBuilder
    grow n k q = record q { wheres = q.wheres ++ (is_in column (range (n + 1) k) ∷ []); args = [] }

where_in-SameShape :
    (column : String) (vs vs' : List Value) (q q' : QueryBuilder)
    → length vs ≡ length vs'
    → SameShape q q'
    → SameShape (where_in column vs q) (where_in column vs' q')
unfolding where_in
where_in-SameShape column [] [] q q' same shape = shape
where_in-SameShape column [] (v ∷ vs) q q' same shape = absurd (ground (arith, same))
where_in-SameShape column (v ∷ vs) [] q q' same shape = absurd (ground (arith, same))
where_in-SameShape column (v ∷ vs) (v' ∷ vs') q q' same shape =
    where_in_some-SameShape column v v' vs vs' q q' (omega (arith, same)) shape

sql-SameShape :
    (show : ℕ → String) (q q' : QueryBuilder) → SameShape q q' → (sql show q).0 ≡ (sql show q').0
unfolding SameShape sql
sql-SameShape show q q' (fields, count) = ap (λ x. (sql show x).0) fields

order_by-SameShape :
    (column order : String) (q q' : QueryBuilder)
    → SameShape q q'
    → SameShape (order_by column order q) (order_by column order q')
unfolding SameShape order_by
order_by-SameShape column order q q' (fields, count) =
    elim (column == "") as (λ b. SameShape (if b then q else put q) (if b then q' else put q')) [
      | true ↦ (fields, count)
      | false ↦ (ap put fields, count)
    ]
  where
    put : QueryBuilder → QueryBuilder
    put x = record x { order_by = if order == "" then column else concat column (concat " " order) }

apply_sort-SameShape :
    (to_upper : String → String) (allowed : List (String × String)) (s : Sorting)
    (q q' : QueryBuilder)
    → SameShape q q'
    → SameShape (apply_sort to_upper allowed s q).1 (apply_sort to_upper allowed s q').1
unfolding apply_sort
apply_sort-SameShape to_upper allowed s q q' shape = go (column_of allowed s.by)
  where
    go :
        (o : Option String)
        → SameShape (apply_column to_upper o s q).1 (apply_column to_upper o s q').1
    go none = shape
    go (some column) = order_by-SameShape column _ q q' shape

length-map : {A B : Type 0} (f : A → B) (xs : List A) → length (map f xs) ≡ length xs
length-map f [] = refl
length-map f (x ∷ xs) = ap suc (length-map f xs)

-- The text of the query for users holds nothing that was searched for: two searches with the same
-- sorting and the same page, of which as many genders and as many roles are valid, have the same
-- text, and differ in the arguments only.
pub user_sql-same_text :
    (letters : Letters) (show : ℕ → String) (s t : Search)
    → length (valid_values letters (parse_gender letters) s.gender)
      ≡ length (valid_values letters (parse_gender letters) t.gender)
    → length (valid_values letters (parse_role letters) s.role)
      ≡ length (valid_values letters (parse_role letters) t.role)
    → s.sorting ≡ t.sorting
    → s.pagination ≡ t.pagination
    → (sql show (user_query letters s).1).0 ≡ (sql show (user_query letters t).1).0
unfolding user_query Users.apply_query Users.apply_filter SameShape
user_sql-same_text letters show s t genders roles sorting pagination =
    let of = λ (parse : String → Option String) (vs : List String).
      map Value.text (valid_values letters parse vs) in
    let base = where_null "deleted_at" (select "users" (user_columns letters)) in
    let counted = λ (vs : List String). length-map Value.text vs in
    let filtered =
      where_in-SameShape "role" (of (parse_role letters) s.role) (of (parse_role letters) t.role) _
        _ (counted _ ∙ roles ∙ sym (counted _))
        (where_in-SameShape "gender" (of (parse_gender letters) s.gender)
          (of (parse_gender letters) t.gender) base base (counted _ ∙ genders ∙ sym (counted _))
          (refl, refl)) in
    let sorted = apply_sort-SameShape letters.to_upper user_sort_fields s.sorting _ _ filtered in
    rw (← sorting, ← pagination)
      (sql-SameShape show _ _ (
        ap (λ (x : QueryBuilder). record x { window = (apply_pagination s.pagination x.window).1 })
            sorted.0,
        sorted.1,
      ))

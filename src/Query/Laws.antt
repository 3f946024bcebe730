-- ===== src/Query/Laws.antt =====
-- The arguments of a query of internal/infrastructure/postgres/query_builder.go.
use golang_restapi.Base.{
  ℕ, zero, suc, ◌+◌, String, true, false, List, [], ◌∷◌, ◌++◌, ◌≡◌, refl, ap, sym, ◌∙◌, arith, ◌==◌,
  nat_eq, if◌then◌else◌,
}
use mathlib.Core.Path.{subst}
use mathlib.Core.List.{append-nil, append_assoc}
use golang_restapi.Base.Lists.{length, length-append}
use golang_restapi.Query.{
  Value, Condition, is_in, is_null, is_not_null, like, ilike, starts, ends, QueryBuilder, Time,
  select, add_where, add_args, where_in, where_null, where_arg, where_bound, where_between,
}

-- `count` numbers from `first` on.
unfoldable pub range : ℕ → ℕ → List ℕ
range first zero = []
range first (suc count) = first ∷ range (suc first) count

-- The numbers of a condition's arguments, and those of several, in the text's order.
abbrev pub numbers_of : Condition → List ℕ
numbers_of (is_in _ ns) = ns
numbers_of (is_null _) = []
numbers_of (is_not_null _) = []
numbers_of (like _ n) = n ∷ []
numbers_of (ilike _ n) = n ∷ []
numbers_of (starts _ n) = n ∷ []
numbers_of (ends _ n) = n ∷ []

unfoldable pub numbers : List Condition → List ℕ
numbers [] = []
numbers (c ∷ cs) = numbers_of c ++ numbers cs

-- The text's placeholders are $1, $2, … in order, one for each argument.
abbrev pub IsNumbered : QueryBuilder → Type 0
IsNumbered q = numbers q.wheres ≡ range 1 (length q.args)

range-append : (first a b : ℕ) → range first a ++ range (first + a) b ≡ range first (a + b)
unfolding range
range-append first zero b =
    let start : first + 0 ≡ first = omega arith in
    let all : 0 + b ≡ b = omega arith in rw (start, all) refl
range-append first (suc a) b =
    let start : first + suc a ≡ suc first + a = omega arith in
    let all : suc a + b ≡ suc (a + b) = omega arith in
    rw (start, all) (ap (λ l. first ∷ l) (range-append (suc first) a b))

numbers-append : (cs ds : List Condition) → numbers (cs ++ ds) ≡ numbers cs ++ numbers ds
unfolding numbers
numbers-append [] ds = refl
numbers-append (c ∷ cs) ds =
    ap (λ l. numbers_of c ++ l) (numbers-append cs ds)
    ∙ sym (append_assoc (numbers_of c) (numbers cs) (numbers ds))

add_args_lem :
    (vs : List Value) (q : QueryBuilder)
    → add_args vs q ≡ (range (length q.args + 1) (length vs), record q { args = q.args ++ vs })
unfolding add_args range
add_args_lem [] q = ap (λ l. ([], record q { args = l })) (sym (append-nil q.args))
add_args_lem (v ∷ vs) q =
    let next : length (q.args ++ (v ∷ [])) + 1 ≡ suc (length q.args + 1) =
      omega (arith, length-append q.args (v ∷ [])) in
    rw (add_args_lem vs (record q { args = q.args ++ (v ∷ []) }), next)
      (ap (λ l. (range (length q.args + 1) (suc (length vs)), record q { args = l }))
        (append_assoc q.args (v ∷ []) vs))

pub select-IsNumbered : (table : String) (columns : List String) → IsNumbered (select table columns)
unfolding numbers range
select-IsNumbered table columns = refl

-- A condition whose numbers follow those of the query, added with its arguments.
add_where-IsNumbered :
    (q : QueryBuilder) (c : Condition) (vs : List Value)
    → IsNumbered q
    → numbers_of c ≡ range (length q.args + 1) (length vs)
    → IsNumbered (add_where c (record q { args = q.args ++ vs }))
unfolding numbers
add_where-IsNumbered q c vs is new =
    let first : length q.args + 1 ≡ 1 + length q.args = omega arith in
    rw
      (
        numbers-append q.wheres (c ∷ []),
        append-nil (numbers_of c),
        is,
        new,
        length-append q.args vs,
        first,
      )
      (range-append 1 (length q.args) (length vs))

-- The condition and the arguments that WhereIn adds, for values.
pub where_in_lem :
    (column : String) (v : Value) (vs : List Value) (q : QueryBuilder)
    → where_in column (v ∷ vs) q
      ≡ add_where
          (is_in column (range (length q.args + 1) (suc (length vs))))
          (record q { args = q.args ++ (v ∷ vs) })
unfolding where_in
where_in_lem column v vs q =
    ap (λ (r : List ℕ × QueryBuilder). add_where (is_in column r.0) r.1) (add_args_lem (v ∷ vs) q)

pub where_in-IsNumbered :
    (column : String) (vs : List Value) (q : QueryBuilder)
    → IsNumbered q
    → IsNumbered (where_in column vs q)
unfolding where_in
where_in-IsNumbered column [] q is = is
where_in-IsNumbered column (v ∷ vs) q is = subst IsNumbered (sym (where_in_lem column v vs q)) (
    add_where-IsNumbered q (is_in column (range (length q.args + 1) (suc (length vs)))) (v ∷ vs) is
      refl)

pub where_arg-IsNumbered :
    (condition : ℕ → Condition) (v : Value) (q : QueryBuilder)
    → ((n : ℕ) → numbers_of (condition n) ≡ n ∷ [])
    → IsNumbered q
    → IsNumbered (where_arg condition v q)
unfolding where_arg range
where_arg-IsNumbered condition v q one is =
    add_where-IsNumbered q (condition (length q.args + 1)) (v ∷ []) is (one (length q.args + 1))

-- a condition without arguments
pub where_null-IsNumbered :
    (column : String) (q : QueryBuilder) → IsNumbered q → IsNumbered (where_null column q)
unfolding where_null numbers
where_null-IsNumbered column q is =
    rw (numbers-append q.wheres (is_null column ∷ []), append-nil (numbers q.wheres)) is

where_bound-IsNumbered :
    (condition : ℕ → Condition) (t : Time) (q : QueryBuilder)
    → ((n : ℕ) → numbers_of (condition n) ≡ n ∷ [])
    → IsNumbered q
    → IsNumbered (where_bound condition t q)
unfolding where_bound
where_bound-IsNumbered condition t q one is =
    elim (t.nanos == 0)
      as (λ b. IsNumbered (if b then q else where_arg condition (Value.time t) q)) [
        | true ↦ is
        | false ↦ where_arg-IsNumbered condition (Value.time t) q one is
      ]

pub where_between-IsNumbered :
    (column : String) (from to : Time) (q : QueryBuilder)
    → IsNumbered q
    → IsNumbered (where_between column from to q)
unfolding where_between
where_between-IsNumbered column from to q is =
    where_bound-IsNumbered (ends column) to _ (λ n. refl)
      (where_bound-IsNumbered (starts column) from q (λ n. refl) is)

-- ===== src/Query/Sorting/Laws.antt =====
-- ApplySort of internal/ports/repository/sorting.go: the column and the direction of an order.
use golang_restapi.Base.{
  true, false, String, Option, none, some, List, ◌≡◌, refl, arith, ◌⊎◌, inl, inr, ◌==◌, string_eq,
  concat, Bool-cases, str_beq_iff,
}
use golang_restapi.Query
use golang_restapi.Query.{QueryBuilder}
use golang_restapi.Query.Sorting.{Sorting, column_of, direction, apply_column, apply_sort}

direction-cases :
    (order : String)
    → ((order == "DESC" ≡ true) × (direction order ≡ "DESC"))
      ⊎ ((order == "DESC" ≡ false) × (direction order ≡ "ASC"))
direction-cases order = elim (Bool-cases (order == "DESC")) [
  | inl desc ↦ let is = (str_beq_iff order "DESC").0 desc in inl (desc, ground (arith, desc, is))
  | inr other ↦ elim (Bool-cases (order == "ASC")) [
    | inl asc ↦ inr (other, ground (arith, asc, (str_beq_iff order "ASC").0 asc))
    | inr neither ↦ inr (other, ground (arith, other, neither))
  ]
]

module _ (to_upper : String → String) (allowed : List (String × String)) where
  -- The order that a query has after a sort: as before, where the column that is asked for is not
  -- allowed or is the empty text, and else by that column, descending where that is asked for.
  abbrev pub IsOrdered : Sorting → QueryBuilder → QueryBuilder → Type 0
  IsOrdered s q q' =
      ((column_of allowed s.by ≡ none) × (q' ≡ q))
      ⊎ ((column : String) × (column_of allowed s.by ≡ some column)
          × (((column == "" ≡ true) × (q' ≡ q))
              ⊎ ((column == "" ≡ false)
                  × (((to_upper s.order == "DESC" ≡ true)
                        × (q' ≡ record q { order_by = concat column " DESC" }))
                      ⊎ ((to_upper s.order == "DESC" ≡ false)
                          × (q' ≡ record q { order_by = concat column " ASC" }))))))

  -- ApplySort changes nothing of the query where the name that is asked for is not allowed, and
  -- else nothing but its order, which becomes the column that the name stands for, if that is not
  -- the empty text, and DESC where that is asked for in any case of letters, else ASC. Applied to
  -- the fields that it leaves, it gives these fields and this order again, where upper-casing
  -- leaves ASC and DESC and the empty name is no column.
  pub apply_sort-sorts :
      (s : Sorting) (q : QueryBuilder)
      → to_upper "ASC" ≡ "ASC"
      → to_upper "DESC" ≡ "DESC"
      → column_of allowed "" ≡ none
      → IsOrdered s q (apply_sort to_upper allowed s q).1
        × (apply_sort to_upper allowed (apply_sort to_upper allowed s q).0 q
            ≡ apply_sort to_upper allowed s q)
  unfolding apply_sort Query.order_by
  apply_sort-sorts s q asc desc no_empty = go (column_of allowed s.by) refl
    where
      go :
          (o : Option String)
          → column_of allowed s.by ≡ o
          → IsOrdered s q (apply_column to_upper o s q).1
            × (apply_sort to_upper allowed (apply_column to_upper o s q).0 q
                ≡ apply_column to_upper o s q)
      go none e = (inl (e, refl), ground (arith, no_empty))
      go (some column) e = elim (direction-cases (to_upper s.order)) [
        | inl (wanted, is) ↦ (
          inr (
            column,
            e,
            elim (Bool-cases (column == "")) [
              | inl none_given ↦ inl (none_given, ground (arith, none_given))
              | inr given ↦ inr (given, inl (wanted, rw (is, given) refl))
            ],
          ),
          rw (is, e, desc) refl,
        )
        | inr (other, is) ↦ (
          inr (
            column,
            e,
            elim (Bool-cases (column == "")) [
              | inl none_given ↦ inl (none_given, ground (arith, none_given))
              | inr given ↦ inr (given, inr (other, rw (is, given) refl))
            ],
          ),
          rw (is, e, asc) refl,
        )
      ]

-- ===== src/Query/Sorting.antt =====
-- Sorting of internal/ports/repository/sorting.go.
pub mod Laws
use golang_restapi.Base.{
  String, Bool, ◌||◌, Option, none, some, List, [], ◌∷◌, ◌==◌, string_eq, if◌then◌else◌,
}
use golang_restapi.Query
use golang_restapi.Query.{QueryBuilder}

pub record Sorting : Type 0 where
  pub by : String
  pub order : String

-- a map's entry
unfoldable pub column_of : List (String × String) → String → Option String
column_of [] key = none
column_of ((k, v) ∷ allowed) key = if k == key then some v else column_of allowed key

-- the direction, upper-cased
abbrev pub direction : String → String
direction order = if order == "ASC" || order == "DESC" then order else "ASC"

module _ (to_upper : String → String) where
  abbrev pub apply_column : Option String → Sorting → QueryBuilder → Sorting × QueryBuilder
  apply_column none s q = (record { by = ""; order = "" }, q)
  apply_column (some column) s q =
      let order = direction (to_upper s.order) in
      (record s { order = order }, Query.order_by column order q)

  -- ApplySort: the sorting as it stands after it, and the query
  unfoldable pub apply_sort :
      List (String × String) → Sorting → QueryBuilder → Sorting × QueryBuilder
  unfolding column_of
  apply_sort allowed s q = apply_column (column_of allowed s.by) s q

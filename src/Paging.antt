-- ===== src/Paging.antt =====
-- internal/ports/repository/pagination.go, and Paginate of
-- internal/infrastructure/postgres/query_builder.go.
pub mod Laws
use golang_restapi.Base.{ℕ, ◌+◌, ◌-◌, ◌*◌, ◌/◌, ◌%◌, ◌^◌, Bool, ◌||◌, ltb, leb, if◌then◌else◌}
use golang_restapi.Base.Int.{ℤ, pos, pos_part, is_below, is_above}

abbrev pub default_limit : ℕ
default_limit = 20

abbrev pub max_limit : ℕ
max_limit = 100

abbrev pub max_int32 : ℕ
max_int32 = 2_147_483_647

pub record Pagination : Type 0 where
  pub page : ℤ
  pub limit : ℤ

-- The limit and the offset of a QueryBuilder.
pub record Window : Type 0 where
  pub limit : ℤ
  pub offset : ℕ

-- the product of two int64 that are not negative, as the 64 bits spell it
unfoldable pub wrap_product : ℕ → ℕ → ℕ
wrap_product a b = a * b % 2 ^ 64

-- a product from 2^63 on is a negative int64
unfoldable pub offset_of : ℕ → ℕ → ℕ
unfolding wrap_product
offset_of before limit =
    if leb (2 ^ 63) (wrap_product before limit) || ltb max_int32 (wrap_product before limit)
    then max_int32
    else wrap_product before limit

-- QueryBuilder.Paginate
unfoldable pub paginate : ℤ → ℤ → Window → Window
unfolding offset_of
paginate page limit q = if is_below limit 1 then q else record {
  limit = limit;
  offset = if is_above page 1 then offset_of (pos_part page - 1) (pos_part limit) else q.offset;
}

-- the clamps of ApplyPagination
unfoldable pub clamp : Pagination → Pagination
clamp p = record {
  page = if is_below p.page 1 then pos 1 else p.page;
  limit =
      if is_below p.limit 1
      then pos default_limit
      else if is_above p.limit max_limit
      then pos max_limit
      else p.limit;
}

-- ApplyPagination: the pagination as it stands after it, and the query
unfoldable pub apply_pagination : Pagination → Window → Pagination × Window
unfolding clamp paginate
apply_pagination p q = (clamp p, paginate (clamp p).page (clamp p).limit q)

-- PageMeta's TotalPages, of a count of rows
unfoldable pub total_pages : ℤ → ℕ → ℕ
total_pages limit total =
    if is_above limit 0 then (total + pos_part limit - 1) / pos_part limit else 0

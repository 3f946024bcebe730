-- ===== src/Paging/Laws.antt =====
-- The clamps of pagination.go, the offset of query_builder.go and the page count.
use native.Mathlib.Nat.{div-lt_iff_lt-mul, div-mul-le_self, lt-div-mul-add, mod-eq_of_lt}
use golang_restapi.Base.{
  ℕ, ◌+◌, ◌-◌, ◌*◌, ◌/◌, ◌%◌, ◌^◌, ◌≤◌, ◌<◌, ltb, if◌then◌else◌, ◌≡◌, refl, arith, zero, suc,
  Bool-cases, inl, inr, ap, ◌∙◌, false,
}
use golang_restapi.Base.Int.{ℤ, pos, negsuc, is_below, is_above}
use golang_restapi.Paging.{
  max_int32, Pagination, Window, wrap_product, offset_of, paginate, clamp, apply_pagination,
  total_pages,
}

clamp_page : (p : Pagination) → (page : ℕ) × ((clamp p).page ≡ pos page) × (1 ≤ page)
unfolding clamp
clamp_page p = go p.page
  where
    go : (i : ℤ) → (page : ℕ) × ((if is_below i 1 then pos 1 else i) ≡ pos page) × (1 ≤ page)
    go (pos zero) = (1, refl, ground arith)
    go (pos (suc n)) = (suc n, ground arith, ground arith)
    go (negsuc n) = (1, refl, ground arith)

clamp_limit :
    (p : Pagination) → (limit : ℕ) × ((clamp p).limit ≡ pos limit) × (1 ≤ limit) × (limit ≤ 100)
unfolding clamp
clamp_limit p = go p.limit
  where
    go :
        (i : ℤ)
        → (limit : ℕ) × ((if is_below i 1 then pos 20 else if is_above i 100 then pos 100 else i)
            ≡ pos limit)
          × (1 ≤ limit)
          × (limit ≤ 100)
    go (pos zero) = (20, refl, ground arith, ground arith)
    go (pos (suc n)) = elim (Bool-cases (ltb 100 (suc n))) [
      | inl big ↦ (100, ground arith, ground arith, ground arith)
      | inr small ↦ (suc n, ground arith, ground arith, ground arith)
    ]
    go (negsuc n) = (20, refl, ground arith, ground arith)

offset_of-le : (a b : ℕ) → offset_of a b ≤ max_int32
unfolding offset_of
offset_of-le a b = ground arith

-- Whatever page and limit a request asks for, after ApplyPagination the page is at least 1 and the
-- limit lies between 1 and 100; the query has that limit, and its offset is at most MaxInt32 if it
-- had none before.
pub apply_pagination-bounds :
    (p : Pagination) (q : Window)
    → q.offset ≡ 0
    → (page limit : ℕ) × ((apply_pagination p q).0 ≡ record { page = pos page; limit = pos limit })
      × (1 ≤ page)
      × (1 ≤ limit)
      × (limit ≤ 100)
      × ((apply_pagination p q).1.limit ≡ pos limit)
      × ((apply_pagination p q).1.offset ≤ max_int32)
unfolding apply_pagination paginate
apply_pagination-bounds p q none_yet =
    let (page, e, low) = clamp_page p in
    let (limit, e', low', high) = clamp_limit p in
    (
      page,
      limit,
      cc (e, e'),
      low,
      low',
      high,
      ground (arith, e, e'),
      ground (arith, e, e', offset_of-le (page - 1) limit),
    )

paginate-skips :
    (page limit : ℕ) (q : Window)
    → 1 < page
    → 1 ≤ limit
    → (page - 1) * limit < 2 ^ 63
    → paginate (pos page) (pos limit) q ≡ record {
      limit = pos limit;
      offset = if ltb max_int32 ((page - 1) * limit) then max_int32 else (page - 1) * limit;
    }
unfolding paginate offset_of wrap_product
paginate-skips page limit q later some_rows fits =
    let small : (page - 1) * limit % 2 ^ 64 ≡ (page - 1) * limit =
      mod-eq_of_lt (omega (arith, fits)) in
    ground (arith, small)

-- The pages that PageMeta reports are as many as the rows fill: they hold every row, and with one
-- page less they would not.
pub total_pages-cover :
    (limit total : ℕ)
    → 1 ≤ limit
    → (total ≤ total_pages (pos limit) total * limit)
      × (total_pages (pos limit) total * limit < total + limit)
unfolding total_pages
total_pages-cover limit total some_rows =
    let below = div-mul-le_self (total + limit - 1) limit in
    let above : total + limit - 1 < (total + limit - 1) / limit * limit + limit =
      lt-div-mul-add some_rows in
    (ground (arith, below, above), ground (arith, below, above))

-- Where a page starts, as long as that is no further than MaxInt32.
paginate-offset :
    (page limit : ℕ) (q : Window)
    → q.offset ≡ 0
    → 1 ≤ limit
    → page * limit ≤ max_int32
    → (paginate (pos (suc page)) (pos limit) q).offset ≡ page * limit
unfolding paginate
paginate-offset zero limit q none_yet some_rows near = ground arith
paginate-offset (suc page) limit q none_yet some_rows near =
    let same : suc (suc page) - 1 ≡ suc page = omega arith in
    let at =
      paginate-skips (suc (suc page)) limit q (ground arith) some_rows
        (rw same (omega (arith, near))) in
    let fits : ltb max_int32 (suc page * limit) ≡ false = ground (arith, near) in
    ap (λ (w : Window). w.offset) at ∙ rw (same, fits) refl

-- Every row is shown on a page: where there are at most MaxInt32 rows, one of the pages that
-- PageMeta reports has a window that holds the row, from its offset and as many rows as the limit.
pub paginate-covers :
    (limit total row : ℕ) (q : Window)
    → q.offset ≡ 0
    → 1 ≤ limit
    → total ≤ max_int32
    → row < total
    → (page : ℕ) × (1 ≤ page)
      × (page ≤ total_pages (pos limit) total)
      × ((paginate (pos page) (pos limit) q).offset ≤ row)
      × (row < (paginate (pos page) (pos limit) q).offset + limit)
paginate-covers limit total row q none_yet some_rows few inside =
    let below = div-mul-le_self row limit in
    let above : row < row / limit * limit + limit = lt-div-mul-add some_rows in
    let (enough, _) = total_pages-cover limit total some_rows in
    let at = paginate-offset (row / limit) limit q none_yet some_rows (omega (arith, below)) in
    (
      suc (row / limit),
      omega arith,
      (div-lt_iff_lt-mul some_rows).1 (omega (arith, inside, enough)),
      rw at below,
      rw at above,
    )

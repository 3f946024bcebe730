-- ===== src/Tests/Pages.antt =====
-- Pagination at concrete requests.
use golang_restapi.Base.{ℕ, ◌+◌, ◌*◌, ◌^◌, ◌≤◌, ◌<◌, ◌≡◌, refl, arith}
use golang_restapi.Base.Int.{pos, negsuc}
use golang_restapi.Paging.{max_int32, Pagination, Window, paginate, apply_pagination, total_pages}
use golang_restapi.Paging.Laws.{apply_pagination-bounds, paginate-covers, total_pages-cover}

abbrev fresh : Window
fresh = record { limit = pos 0; offset = 0 }

-- page -3, limit 500
abbrev greedy : Pagination
greedy = record { page = negsuc 2; limit = pos 500 }

apply_pagination-bounds_example :
    (page limit : ℕ) × ((apply_pagination greedy fresh).0
      ≡ record { page = pos page; limit = pos limit })
    × (1 ≤ page)
    × (1 ≤ limit)
    × (limit ≤ 100)
    × ((apply_pagination greedy fresh).1.limit ≡ pos limit)
    × ((apply_pagination greedy fresh).1.offset ≤ max_int32)
apply_pagination-bounds_example = apply_pagination-bounds greedy fresh refl

paginate-covers_example :
    (page : ℕ) × (1 ≤ page)
    × (page ≤ total_pages (pos 20) 41)
    × ((paginate (pos page) (pos 20) fresh).offset ≤ 40)
    × (40 < (paginate (pos page) (pos 20) fresh).offset + 20)
paginate-covers_example =
    paginate-covers 20 41 40 fresh refl (ground arith) (ground arith) (ground arith)

total_pages-cover_example :
    (41 ≤ total_pages (pos 20) 41 * 20) × (total_pages (pos 20) 41 * 20 < 41 + 20)
total_pages-cover_example = total_pages-cover 20 41 (ground arith)

-- A page so far that the product wraps around to 0 shows the first rows.
far_page : (paginate (pos (2 ^ 62 + 1)) (pos 4) fresh).offset ≡ 0
unfolding paginate
far_page = refl

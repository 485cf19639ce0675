-- ===== src/Listing/Paging/Ranges.antt =====
-- The ranges of the pages of a table follow each other and end with the last row.
use tlsentinel_server.Common.{ℕ, ◌+◌, ◌*◌, ◌≤◌, ◌<◌, ◌≡◌, arith}
use tlsentinel_server.Listing.Paging.{total_pages, range_start, range_end, on_prev, on_next}

-- With pages of twenty rows: the first page begins with the first row, the next one begins behind
-- the last row of the one before, the last page ends with the last row, and no page is empty.
pub range_lem :
    (n page : ℕ)
    → 0 < n
    → 1 ≤ page
    → page ≤ total_pages 20 n
    → (range_start 20 n 1 ≡ 1)
      × (range_start 20 n page ≤ range_end 20 n page)
      × (range_end 20 n page ≤ n)
      × (range_start 20 n (page + 1) ≡ page * 20 + 1)
      × (page < total_pages 20 n → range_end 20 n page + 1 ≡ range_start 20 n (page + 1))
      × (range_end 20 n (total_pages 20 n) ≡ n)
unfolding total_pages range_start range_end
range_lem n page h low high = ground arith

-- Whatever buttons are pressed, the page stays one of the pages.
pub on_prev-on_next :
    (pages page : ℕ)
    → 1 ≤ page
    → page ≤ pages
    → (1 ≤ on_prev page)
      × (on_prev page ≤ pages)
      × (1 ≤ on_next pages page)
      × (on_next pages page ≤ pages)
unfolding on_prev on_next
on_prev-on_next pages page low high = ground arith

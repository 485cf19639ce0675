-- ===== src/Listing/Paging.antt =====
-- The pages of a table: totalPages, rangeStart and rangeEnd, which the pages under web/src/pages
-- compute alike, and the buttons of web/src/components/TablePagination.tsx.
pub mod Ranges
use Prim.Native.Nat.{min, max}
use tlsentinel_server.Common.{
  ℕ, ◌+◌, ◌-◌, ◌*◌, ◌/◌, Bool, true, false, not, List, [], ◌++◌, leb, ◌==◌, if◌then◌else◌,
}
use tlsentinel_server.Text.{Text, codes}
use tlsentinel_server.Text.Numbers.{show}

-- `Math.max(1, Math.ceil(totalCount / PAGE_SIZE))`.
unfoldable pub total_pages : ℕ → ℕ → ℕ
total_pages page_size total_count = max 1 ((total_count + (page_size - 1)) / page_size)

unfoldable pub range_start : ℕ → ℕ → ℕ → ℕ
range_start page_size total_count page = if total_count == 0 then 0 else (page - 1) * page_size + 1

unfoldable pub range_end : ℕ → ℕ → ℕ → ℕ
range_end page_size total_count page = min (page * page_size) total_count

-- The buttons are off at the ends.
unfoldable pub on_prev : ℕ → ℕ
on_prev page = if leb page 1 then page else page - 1

unfoldable pub on_next : ℕ → ℕ → ℕ
on_next total_pages page = if leb total_pages page then page else page + 1

-- `plural` of web/src/lib/utils.ts with the default plural.
unfoldable pub plural : ℕ → Text → Text
plural n noun = if n == 1 then noun else noun ++ codes "s"

unfoldable pub count_label : ℕ → ℕ → ℕ → Text → Text
unfolding plural
count_label page pages total_count noun =
    if total_count == 0
    then codes "No " ++ plural 0 noun
    else codes "Page "
      ++ (show page
          ++ (codes " of "
              ++ (show pages
                  ++ (codes " · "
                      ++ (show total_count ++ (codes " " ++ plural total_count noun))))))

-- ===== src/Listing/Tests.antt =====
-- Rows, pages and stores on which the theorems on the tables are used.
use mathlib.Core.List.{Perm}
use tlsentinel_server.Common.{
  ◌+◌, ◌≤◌, ◌<◌, List, [], ◌∷◌, some, none, ◌≡◌, refl, arith, not, if◌then◌else◌,
}
use tlsentinel_server.Text.{Text, codes, text_eq}
use tlsentinel_server.Text.Numbers.{pos}
use tlsentinel_server.Types.Certificates.{RootStoreSummary}
use tlsentinel_server.Listing.Paging.{total_pages, range_start, range_end}
use tlsentinel_server.Listing.Paging.Ranges.{range_lem}
use tlsentinel_server.Listing.Selection.{has, toggle_all, all_page_selected}
use tlsentinel_server.Listing.Selection.Toggles.{on_page, has-toggle_all}
use tlsentinel_server.Listing.Stores.{ordered_stores}
use tlsentinel_server.Listing.Stores.Order.{HasDistinctIds, ordered_stores-perm}

range_lem_example :
    (range_start 20 45 1 ≡ 1)
    × (range_start 20 45 3 ≤ range_end 20 45 3)
    × (range_end 20 45 3 ≤ 45)
    × (range_start 20 45 4 ≡ 61)
    × (3 < total_pages 20 45 → range_end 20 45 3 + 1 ≡ range_start 20 45 4)
    × (range_end 20 45 (total_pages 20 45) ≡ 45)
unfolding total_pages
range_lem_example = range_lem 45 3 (omega arith) (omega arith) (omega arith)

-- A row that is its own id.
abbrev itself : Text → Text
itself t = t

has-toggle_all_example :
    has itself (codes "a") (toggle_all itself (codes "a" ∷ codes "b" ∷ []) []) ≡ (
      if on_page itself (codes "a") (codes "a" ∷ codes "b" ∷ [])
      then not (all_page_selected itself (codes "a" ∷ codes "b" ∷ []) [])
      else has itself (codes "a") [])
has-toggle_all_example = has-toggle_all itself (codes "a" ∷ codes "b" ∷ []) (codes "a") []

abbrev store : Text → RootStoreSummary
store id = record {
  id = id;
  name = id;
  kind = [];
  source_url = [];
  anchor_count = pos 1;
  updated_at = none;
}

abbrev stores : List RootStoreSummary
stores = store (codes "java") ∷ store (codes "chrome") ∷ store (codes "apple") ∷ []

stores-HasDistinctIds : HasDistinctIds stores
unfolding text_eq
stores-HasDistinctIds = ((refl, (refl, tt)), ((refl, tt), (tt, tt)))

apple_is_first :
    ordered_stores (some stores)
    ≡ store (codes "apple") ∷ store (codes "chrome") ∷ store (codes "java") ∷ []
unfolding ordered_stores text_eq
apple_is_first = refl

ordered_stores-perm_example : Perm (ordered_stores (some stores)) stores
ordered_stores-perm_example = ordered_stores-perm stores stores-HasDistinctIds

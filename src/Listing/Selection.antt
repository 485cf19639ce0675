-- ===== src/Listing/Selection.antt =====
-- The rows that are selected over the pages of a table, in web/src/pages/endpoint/EndpointPage.tsx
-- and web/src/pages/certificates/CertificatesPage.tsx: a `Map` from ids to rows.
pub mod Toggles
use tlsentinel_server.Common.{
  Bool, true, false, ◌&&◌, ◌||◌, not, List, [], ◌∷◌, map, Option, none, some, all, any,
  if◌then◌else◌,
}
use tlsentinel_server.Text.{Text, text_eq, is_empty}

module _ {A : Type 0} (id_of : A → Text) where
  -- The entries in the order of insertion.
  unfoldable pub has : Text → List (Text × A) → Bool
  has k [] = false
  has k ((j, a) ∷ m) = text_eq j k || has k m

  unfoldable pub get : Text → List (Text × A) → Option A
  get k [] = none
  get k ((j, a) ∷ m) = if text_eq j k then some a else get k m

  unfoldable pub delete : Text → List (Text × A) → List (Text × A)
  delete k [] = []
  delete k ((j, a) ∷ m) = if text_eq j k then delete k m else (j, a) ∷ delete k m

  unfoldable pub set : Text → A → List (Text × A) → List (Text × A)
  set k b [] = (k, b) ∷ []
  set k b ((j, a) ∷ m) = if text_eq j k then (j, b) ∷ m else (j, a) ∷ set k b m

  abbrev pub page_ids : List A → List Text
  page_ids rows = map id_of rows

  unfoldable pub all_page_selected : List A → List (Text × A) → Bool
  unfolding has
  all_page_selected rows m = not (is_empty rows) && all (λ k. has k m) (page_ids rows)

  unfoldable pub some_page_selected : List A → List (Text × A) → Bool
  unfolding all_page_selected has
  some_page_selected rows m = not (all_page_selected rows m) && any (λ k. has k m) (page_ids rows)

  unfoldable pub toggle_one : A → List (Text × A) → List (Text × A)
  unfolding has delete set
  toggle_one a m = if has (id_of a) m then delete (id_of a) m else set (id_of a) a m

  -- The loops of `toggleAll`.
  unfoldable pub delete_all : List A → List (Text × A) → List (Text × A)
  unfolding delete
  delete_all [] m = m
  delete_all (a ∷ rows) m = delete_all rows (delete (id_of a) m)

  unfoldable pub set_all : List A → List (Text × A) → List (Text × A)
  unfolding set
  set_all [] m = m
  set_all (a ∷ rows) m = set_all rows (set (id_of a) a m)

  unfoldable pub toggle_all : List A → List (Text × A) → List (Text × A)
  unfolding all_page_selected delete_all set_all
  toggle_all rows m = if all_page_selected rows m then delete_all rows m else set_all rows m

  -- The effect that takes over the newest payload of the rows that are selected.
  unfoldable pub refresh : List A → List (Text × A) → List (Text × A)
  unfolding has set
  refresh [] m = m
  refresh (a ∷ rows) m = refresh rows (if has (id_of a) m then set (id_of a) a m else m)

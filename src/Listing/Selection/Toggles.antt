-- ===== src/Listing/Selection/Toggles.antt =====
-- Which rows are selected after the buttons of a table, in web/src/pages/endpoint/EndpointPage.tsx
-- and web/src/pages/certificates/CertificatesPage.tsx.
use tlsentinel_server.Common.{
  Bool, ◌&&◌, ◌||◌, not, List, [], ◌∷◌, ◌≡◌, refl, arith, any, if◌then◌else◌,
}
use tlsentinel_server.Text.{Text, text_eq, text_eq_iff}
use tlsentinel_server.Listing.Selection.{
  has, delete, set, all_page_selected, toggle_one, delete_all, set_all, toggle_all, refresh,
}

-- Whether an id is one of the page.
abbrev pub on_page : {A : Type 0} → (A → Text) → Text → List A → Bool
on_page id_of k rows = any (λ a. text_eq (id_of a) k) rows

module _ {A : Type 0} (id_of : A → Text) where
  has-delete :
      (k j : Text) (m : List (Text × A))
      → has id_of j (delete id_of k m) ≡ not (text_eq k j) && has id_of j m
  unfolding has delete
  has-delete k j [] = ground arith
  has-delete k j ((i, a) ∷ m) =
      ground (arith, has-delete k j m, text_eq_iff i k, text_eq_iff i j, text_eq_iff k j)

  has-set :
      (k j : Text) (b : A) (m : List (Text × A))
      → has id_of j (set id_of k b m) ≡ text_eq k j || has id_of j m
  unfolding has set
  has-set k j b [] = refl
  has-set k j b ((i, a) ∷ m) =
      ground (arith, has-set k j b m, text_eq_iff i k, text_eq_iff i j, text_eq_iff k j)

  has-delete_all :
      (j : Text) (rows : List A) (m : List (Text × A))
      → has id_of j (delete_all id_of rows m) ≡ not (on_page id_of j rows) && has id_of j m
  unfolding delete_all
  has-delete_all j [] m = refl
  has-delete_all j (a ∷ rows) m =
      ground (arith, has-delete_all j rows (delete id_of (id_of a) m), has-delete (id_of a) j m)

  has-set_all :
      (j : Text) (rows : List A) (m : List (Text × A))
      → has id_of j (set_all id_of rows m) ≡ on_page id_of j rows || has id_of j m
  unfolding set_all
  has-set_all j [] m = refl
  has-set_all j (a ∷ rows) m =
      ground (arith, has-set_all j rows (set id_of (id_of a) a m), has-set (id_of a) j a m)

  -- A row's own button changes whether this row is selected, and no other.
  pub has-toggle_one :
      (a : A) (j : Text) (m : List (Text × A))
      → has id_of j (toggle_one id_of a m)
        ≡ (if text_eq (id_of a) j then not (has id_of j m) else has id_of j m)
  unfolding toggle_one
  has-toggle_one a j m =
      ground (arith, has-delete (id_of a) j m, has-set (id_of a) j a m, text_eq_iff (id_of a) j)

  -- The button of the page selects all its rows, or none of them when all were selected; what is
  -- selected on other pages stays so.
  pub has-toggle_all :
      (rows : List A) (j : Text) (m : List (Text × A))
      → has id_of j (toggle_all id_of rows m)
        ≡ (if on_page id_of j rows then not (all_page_selected id_of rows m) else has id_of j m)
  unfolding toggle_all
  has-toggle_all rows j m = ground (arith, has-delete_all j rows m, has-set_all j rows m)

  has-refresh :
      (rows : List A) (j : Text) (m : List (Text × A))
      → has id_of j (refresh id_of rows m) ≡ has id_of j m
  unfolding refresh
  has-refresh [] j m = refl
  has-refresh (a ∷ rows) j m = ground (
    arith,
    has-refresh rows j m,
    has-refresh rows j (set id_of (id_of a) a m),
    has-set (id_of a) j a m,
    text_eq_iff (id_of a) j,
  )

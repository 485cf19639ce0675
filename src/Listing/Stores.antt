-- ===== src/Listing/Stores.antt =====
-- web/src/pages/root-stores/RootStoresPage.tsx: the order of the tabs, and the state of the page.
pub mod Order
use tlsentinel_server.Common.{
  ℕ, Bool, true, false, ◌&&◌, ◌||◌, not, List, [], ◌∷◌, ◌++◌, map, Option, none, some, keep, any,
  if◌then◌else◌, is_some,
}
use tlsentinel_server.Text.{Text, codes, text_eq}
use tlsentinel_server.Client.{truthy}
use tlsentinel_server.Types.Certificates.{RootStoreSummary}

abbrev pub store_order : List Text
store_order = codes "microsoft" ∷ codes "apple" ∷ codes "mozilla" ∷ codes "chrome" ∷ []

abbrev pub has_id : Text → RootStoreSummary → Bool
has_id id s = text_eq s.id id

abbrev pub later : Option RootStoreSummary → Option RootStoreSummary → Option RootStoreSummary
later none o = o
later (some t) o = some t

-- `byId.get(id)`: the last store with the id.
unfoldable pub by_id : Text → List RootStoreSummary → Option RootStoreSummary
by_id id [] = none
by_id id (s ∷ stores) = later (by_id id stores) (if has_id id s then some s else none)

abbrev pub as_list : Option RootStoreSummary → List RootStoreSummary
as_list none = []
as_list (some s) = s ∷ []

-- `STORE_ORDER.map(id => byId.get(id)).filter(Boolean)`.
unfoldable pub preferred : List Text → List RootStoreSummary → List RootStoreSummary
unfolding by_id
preferred [] stores = []
preferred (id ∷ ids) stores = as_list (by_id id stores) ++ preferred ids stores

abbrev pub others : List Text → List RootStoreSummary → List RootStoreSummary
others ids stores = keep (λ s. not (any (λ id. text_eq id s.id) ids)) stores

unfoldable pub ordered_stores : Option (List RootStoreSummary) → List RootStoreSummary
unfolding preferred
ordered_stores none = []
ordered_stores (some stores) = preferred store_order stores ++ others store_order stores

pub record RootStores : Type 0 where
  pub active_store : Option Text
  pub search : Text
  pub debounced_search : Text
  pub page : ℕ
  -- `?store=` of the address.
  pub store_param : Option Text

-- The effect that follows an answer.
unfoldable pub first_store : List RootStoreSummary → RootStores → RootStores
first_store [] s = s
first_store (t ∷ stores) s =
    if is_some (truthy s.active_store) then s else record s { active_store = some t.id }

unfoldable pub debounce : RootStores → RootStores
debounce s = record s { debounced_search = s.search; page = 1 }

unfoldable pub select_store : Text → RootStores → RootStores
select_store id s = record s {
  active_store = some id;
  page = 1;
  search = [];
  debounced_search = [];
  store_param = some id;
}

-- `orderedStores.find(s => s.id === activeStore) ?? null`.
unfoldable pub current_store : List RootStoreSummary → Option Text → Option RootStoreSummary
current_store stores none = none
current_store [] (some id) = none
current_store (s ∷ stores) (some id) =
    if has_id id s then some s else current_store stores (some id)

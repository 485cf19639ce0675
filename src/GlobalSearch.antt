-- ===== src/GlobalSearch.antt =====
-- web/src/components/layout/GlobalSearch.tsx: the search box with its list of results and the key
-- that moves over them.
mod Tests
pub mod Keys
use tlsentinel_server.Common.{
  ℕ, suc, ◌+◌, ◌-◌, ◌%◌, Bool, true, false, ◌&&◌, not, List, [], ◌∷◌, ◌++◌, map, Option, none, some,
  leb, ltb, if◌then◌else◌, length, get_elem?, take, is_some,
}
use tlsentinel_server.Text.{Text, codes, is_empty, trim}
use tlsentinel_server.Page.{Effect, navigated}
use tlsentinel_server.Types.Certificates.{
  SearchResults, SearchEndpoint, SearchCertificate, SearchScanner,
}

pub data Kind : Type 0 where
  endpoint certificate scanner : Kind

-- `type` is a member of endpoints only.
pub record FlatItem : Type 0 where
  pub kind : Kind
  pub id : Text
  pub title : Text
  pub subtitle : Text
  pub type : Option Text
  pub href : Text

abbrev endpoint_item : SearchEndpoint → FlatItem
endpoint_item e = record {
  kind = endpoint;
  id = e.id;
  title = e.name;
  subtitle = e.subtitle;
  type = some e.type;
  href = codes "/endpoints/" ++ e.id;
}

abbrev certificate_item : SearchCertificate → FlatItem
certificate_item c = record {
  kind = certificate;
  id = c.fingerprint;
  title = if is_empty c.common_name then take 16 c.fingerprint ++ codes "…" else c.common_name;
  subtitle = c.fingerprint;
  type = none;
  href = codes "/certificates/" ++ c.fingerprint;
}

abbrev scanner_item : SearchScanner → FlatItem
scanner_item s = record {
  kind = scanner;
  id = s.id;
  title = s.name;
  subtitle = codes "Scanner";
  type = none;
  href = codes "/settings/scanners";
}

-- The groups are lists, as the interface says; the source takes null for an empty one.
unfoldable pub flatten : Option SearchResults → List FlatItem
flatten none = []
flatten (some r) =
    map endpoint_item r.endpoints
    ++ (map certificate_item r.certificates ++ map scanner_item r.scanners)

pub record Search : Type 0 where
  pub query : Text
  pub debounced : Text
  pub open_list : Bool
  pub active_idx : ℕ
  -- `data` of the query.
  pub results : Option SearchResults

unfoldable pub items : Search → List FlatItem
unfolding flatten
items s = flatten s.results

unfoldable pub enabled : Search → Bool
enabled s = leb 2 (length s.debounced)

-- The effect on a shorter list.
unfoldable pub clamp : Search → Search
unfolding items
clamp s = if leb (length (items s)) s.active_idx then record s { active_idx = 0 } else s

-- `pick`, and where it goes.
unfoldable pub pick : FlatItem → Search → Search × List Effect
pick item s = (record s { open_list = false; query = []; debounced = [] }, navigated item.href ∷ [])

pub data Key : Type 0 where
  arrow_down arrow_up enter escape other_key : Key

abbrev picked : Option FlatItem → Search → Search × List Effect
picked none s = (s, [])
picked (some item) s = pick item s

unfoldable pub on_key_down : Key → Search → Search × List Effect
unfolding pick items
on_key_down arrow_down s = (
  if is_empty (items s)
      then record s { open_list = true }
      else record s { open_list = true; active_idx = (s.active_idx + 1) % length (items s) },
  [],
)
on_key_down arrow_up s = (
  if is_empty (items s)
      then s
      else record s { active_idx = (s.active_idx + length (items s) - 1) % length (items s) },
  [],
)
on_key_down enter s = picked (get_elem? (items s) s.active_idx) s
on_key_down escape s = (record s { open_list = false }, [])
on_key_down other_key s = (s, [])

pub data Event : Type 0 where
  key_down : Key → Event
  change : Text → Event
  debounce focus click_outside : Event
  hover : ℕ → Event
  click_item : FlatItem → Event
  receive : Option SearchResults → Event

-- An event and the effects that follow its rendering.
unfoldable pub step : Event → Search → Search × List Effect
unfolding on_key_down pick
step (key_down k) s = on_key_down k s
step (change text) s = (record s { query = text; open_list = true; active_idx = 0 }, [])
step debounce s = (record s { debounced = trim s.query }, [])
step focus s = (record s { open_list = true }, [])
step click_outside s = (record s { open_list = false }, [])
step (hover i) s = (record s { active_idx = i }, [])
step (click_item item) s = pick item s
step (receive r) s = (record s { results = r }, [])

unfoldable pub settle : Search × List Effect → Search × List Effect
unfolding clamp
settle (s, es) = (clamp s, es)

abbrev same_kind : Kind → Kind → Bool
same_kind endpoint endpoint = true
same_kind certificate certificate = true
same_kind scanner scanner = true
same_kind _ _ = false

-- `grouped` of `SearchGroups`: the items of a kind, with their places in the flat list.
unfoldable pub group_from : Kind → ℕ → List FlatItem → List (FlatItem × ℕ)
group_from k i [] = []
group_from k i (x ∷ xs) =
    if same_kind x.kind k then (x, i) ∷ group_from k (i + 1) xs else group_from k (i + 1) xs

unfoldable pub run : List Event → Search → Search × List Effect
unfolding settle step
run [] s = (s, [])
run (e ∷ es) s = let (t, out) = settle (step e s) in let (u, rest) = run es t in (u, out ++ rest)

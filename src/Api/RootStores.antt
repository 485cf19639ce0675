-- ===== src/Api/RootStores.antt =====
-- web/src/api/rootstores.ts: root stores.
use tlsentinel_server.Common.{List, [], ◌∷◌, ◌++◌}
use tlsentinel_server.Text.{Text, codes}
use tlsentinel_server.Text.Numbers.{ℤ, show_int}
use tlsentinel_server.Query.{set_all, to_query}
use tlsentinel_server.Client.{Promise, api_get}
use tlsentinel_server.Types.Certificates.{RootStoreAnchorList, RootStoreSummary}

pub list_root_stores : Promise (List RootStoreSummary)
list_root_stores = api_get (codes "/root-stores")

unfoldable pub list_root_store_anchors :
    (store_id : Text) (page : ℤ) (page_size : ℤ) (q : Text) → Promise RootStoreAnchorList
list_root_store_anchors store_id page page_size q = api_get (
    codes "/root-stores/"
    ++ (store_id
        ++ (codes "/anchors?"
            ++ (to_query (
                set_all ((codes "q", q) ∷ []) (
                  (codes "page", show_int page) ∷ (codes "page_size", show_int page_size) ∷ []))))))

-- ===== src/Api/Discovery.antt =====
-- web/src/api/discovery.ts: network discovery.
use tlsentinel_server.Common.{Bool, Option, none, some, [], ◌∷◌, ◌++◌, if◌then◌else◌}
use tlsentinel_server.Text.{Text, codes}
use tlsentinel_server.Text.Numbers.{ℤ, show_int}
use tlsentinel_server.Json.{Json, str, bool, object, nullable}
use tlsentinel_server.Query.{set_all, to_query}
use tlsentinel_server.Client.{Promise, api_get, api_post, api_put, api_delete}
use tlsentinel_server.Types.Endpoints.{Endpoint}
use tlsentinel_server.Types.Scanners.{
  CreateDiscoveryNetworkRequest, DiscoveryInboxItem, DiscoveryInboxList, DiscoveryNetwork,
  DiscoveryNetworkList, UpdateDiscoveryNetworkRequest, create_discovery_network_request_json,
}

pub record PromoteDiscoveryInboxRequest : Type 0 where
  pub name : Text
  pub dns_name : Text
  pub enabled : Bool
  pub scanner_id : Option Text

-- `JSON.stringify(req)`.
abbrev pub promote_discovery_inbox_request_json : PromoteDiscoveryInboxRequest → Json
promote_discovery_inbox_request_json r = object (
    (codes "name", some (str r.name))
    ∷ (codes "dnsName", some (str r.dns_name))
    ∷ (codes "enabled", some (bool r.enabled))
    ∷ (codes "scannerId", some (nullable str r.scanner_id))
    ∷ [])

pub list_discovery_networks : (page : ℤ) (page_size : ℤ) → Promise DiscoveryNetworkList
list_discovery_networks page page_size = api_get (
    codes "/discovery/networks?page="
    ++ (show_int page ++ (codes "&page_size=" ++ (show_int page_size))))

pub get_discovery_network : (id : Text) → Promise DiscoveryNetwork
get_discovery_network id = api_get (codes "/discovery/networks/" ++ id)

pub create_discovery_network : (req : CreateDiscoveryNetworkRequest) → Promise DiscoveryNetwork
create_discovery_network req =
    api_post (codes "/discovery/networks") (some (create_discovery_network_request_json req))

pub update_discovery_network :
    (id : Text) (req : UpdateDiscoveryNetworkRequest) → Promise DiscoveryNetwork
update_discovery_network id req =
    api_put (codes "/discovery/networks/" ++ id) (some (create_discovery_network_request_json req))

pub delete_discovery_network : (id : Text) → Promise (Unit {0})
delete_discovery_network id = api_delete (codes "/discovery/networks/" ++ id) none

unfoldable pub list_discovery_inbox :
    (page : ℤ) (page_size : ℤ) (network_id : Text) (status : Text) (show_dismissed : Bool)
    → Promise DiscoveryInboxList
list_discovery_inbox page page_size network_id status show_dismissed = api_get (
    codes "/discovery/inbox?"
    ++ (to_query (
        set_all
          ((codes "network_id", network_id)
            ∷ (codes "status", status)
            ∷ (codes "show_dismissed", (if show_dismissed then codes "true" else []))
            ∷ [])
          ((codes "page", show_int page) ∷ (codes "page_size", show_int page_size) ∷ []))))

pub get_discovery_inbox_item : (id : Text) → Promise DiscoveryInboxItem
get_discovery_inbox_item id = api_get (codes "/discovery/inbox/" ++ id)

pub promote_discovery_inbox_item :
    (id : Text) (req : PromoteDiscoveryInboxRequest) → Promise Endpoint
promote_discovery_inbox_item id req =
    api_post (codes "/discovery/inbox/" ++ (id ++ (codes "/promote")))
      (some (promote_discovery_inbox_request_json req))

pub dismiss_discovery_inbox_item : (id : Text) → Promise (Unit {0})
dismiss_discovery_inbox_item id =
    api_post (codes "/discovery/inbox/" ++ (id ++ (codes "/dismiss"))) (some (object []))

pub delete_discovery_inbox_item : (id : Text) → Promise (Unit {0})
delete_discovery_inbox_item id = api_delete (codes "/discovery/inbox/" ++ id) none

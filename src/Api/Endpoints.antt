-- ===== src/Api/Endpoints.antt =====
-- web/src/api/endpoints.ts: endpoints.
use tlsentinel_server.Common.{none, some, [], ◌∷◌, ◌++◌}
use tlsentinel_server.Text.{Text, codes}
use tlsentinel_server.Text.Numbers.{ℤ, show_int}
use tlsentinel_server.Json.{str, object}
use tlsentinel_server.Query.{set_all, to_query}
use tlsentinel_server.Client.{Promise, api_get, api_post, api_put, api_patch, api_delete}
use tlsentinel_server.Types.Endpoints.{Endpoint, EndpointList, EndpointScanHistoryList}
use tlsentinel_server.Types.Reports.{EndpointTlsProfile}
use tlsentinel_server.Types.Requests.{
  BulkImportRequest, BulkImportResponse, CreateEndpointRequest, PatchEndpointRequest,
  UpdateEndpointRequest, bulk_import_request_json, create_endpoint_request_json,
  patch_endpoint_request_json, update_endpoint_request_json,
}

pub data EndpointTypeFilter : Type 0 where
  any_type host saml manual : EndpointTypeFilter

abbrev pub endpoint_type_filter_text : EndpointTypeFilter → Text
endpoint_type_filter_text any_type = []
endpoint_type_filter_text host = codes "host"
endpoint_type_filter_text saml = codes "saml"
endpoint_type_filter_text manual = codes "manual"

pub data ProtocolFilter : Type 0 where
  any_protocol ssl30 tls10 tls11 tls12 tls13 : ProtocolFilter

abbrev pub protocol_filter_text : ProtocolFilter → Text
protocol_filter_text any_protocol = []
protocol_filter_text ssl30 = codes "ssl30"
protocol_filter_text tls10 = codes "tls10"
protocol_filter_text tls11 = codes "tls11"
protocol_filter_text tls12 = codes "tls12"
protocol_filter_text tls13 = codes "tls13"

unfoldable pub list_endpoints :
    (page : ℤ) (page_size : ℤ) (name : Text) (status : Text) (sort : Text) (tag_id : Text)
    (type : EndpointTypeFilter) (protocol : ProtocolFilter) (cipher : Text)
    → Promise EndpointList
list_endpoints page page_size name status sort tag_id type protocol cipher = api_get (
    codes "/endpoints?"
    ++ (to_query (
        set_all
          ((codes "name", name)
            ∷ (codes "status", status)
            ∷ (codes "sort", sort)
            ∷ (codes "tag_id", tag_id)
            ∷ (codes "type", (endpoint_type_filter_text type))
            ∷ (codes "protocol", (protocol_filter_text protocol))
            ∷ (codes "cipher", cipher)
            ∷ [])
          ((codes "page", show_int page) ∷ (codes "page_size", show_int page_size) ∷ []))))

unfoldable pub list_error_endpoints :
    (page : ℤ) (page_size : ℤ) (type : EndpointTypeFilter) → Promise EndpointList
list_error_endpoints page page_size type = api_get (
    codes "/endpoints?"
    ++ (to_query (
        set_all ((codes "type", (endpoint_type_filter_text type)) ∷ []) (
          (codes "page", show_int page)
          ∷ (codes "page_size", show_int page_size)
          ∷ (codes "has_error", codes "true")
          ∷ []))))

pub get_endpoint : (id : Text) → Promise Endpoint
get_endpoint id = api_get (codes "/endpoints/" ++ id)

pub create_endpoint : (req : CreateEndpointRequest) → Promise Endpoint
create_endpoint req = api_post (codes "/endpoints") (some (create_endpoint_request_json req))

pub update_endpoint : (id : Text) (req : UpdateEndpointRequest) → Promise Endpoint
update_endpoint id req =
    api_put (codes "/endpoints/" ++ id) (some (update_endpoint_request_json req))

pub patch_endpoint : (id : Text) (req : PatchEndpointRequest) → Promise Endpoint
patch_endpoint id req =
    api_patch (codes "/endpoints/" ++ id) (some (patch_endpoint_request_json req))

pub delete_endpoint : (id : Text) → Promise (Unit {0})
delete_endpoint id = api_delete (codes "/endpoints/" ++ id) none

pub get_tls_profile : (id : Text) → Promise EndpointTlsProfile
get_tls_profile id = api_get (codes "/endpoints/" ++ (id ++ (codes "/tls-profile")))

unfoldable pub get_scan_history :
    (id : Text) (page : ℤ) (page_size : ℤ) → Promise EndpointScanHistoryList
get_scan_history id page page_size = api_get (
    codes "/endpoints/"
    ++ (id
        ++ (codes "/history?"
            ++ (to_query
                ((codes "page", show_int page) ∷ (codes "page_size", show_int page_size) ∷ [])))))

pub link_certificate : (id : Text) (pem : Text) → Promise Endpoint
link_certificate id pem =
    api_post (codes "/endpoints/" ++ (id ++ (codes "/certificate")))
      (some (object ((codes "pem", some (str pem)) ∷ [])))

pub bulk_import_endpoints : (req : BulkImportRequest) → Promise BulkImportResponse
bulk_import_endpoints req = api_post (codes "/endpoints/bulk") (some (bulk_import_request_json req))

-- ===== src/Types/Requests.antt =====
-- web/src/types/api.ts: the bodies that create and change endpoints.
use tlsentinel_server.Common.{Bool, List, Option, some, [], ◌∷◌, map}
use tlsentinel_server.Text.{Text, codes}
use tlsentinel_server.Text.Numbers.{ℤ}
use tlsentinel_server.Json.{Json, str, num, bool, arr, items, object, optional, nullable}

pub record CreateEndpointRequest : Type 0 where
  pub name : Text
  pub type : Option Text
  pub dns_name : Option Text
  pub ip_address : Option Text
  pub port : Option ℤ
  pub url : Option Text
  pub scanner_id : Option Text
  pub notes : Option Text

-- `JSON.stringify(req)`.
abbrev pub create_endpoint_request_json : CreateEndpointRequest → Json
create_endpoint_request_json r = object (
    (codes "name", some (str r.name))
    ∷ (codes "type", optional str r.type)
    ∷ (codes "dnsName", optional str r.dns_name)
    ∷ (codes "ipAddress", optional str r.ip_address)
    ∷ (codes "port", optional num r.port)
    ∷ (codes "url", optional str r.url)
    ∷ (codes "scannerId", optional str r.scanner_id)
    ∷ (codes "notes", optional str r.notes)
    ∷ [])

pub record UpdateEndpointRequest : Type 0 where
  pub name : Text
  pub type : Option Text
  pub dns_name : Option Text
  pub ip_address : Option Text
  pub port : Option ℤ
  pub url : Option Text
  pub enabled : Bool
  pub scan_exempt : Option Bool
  pub scanner_id : Option Text
  pub notes : Option Text

-- `JSON.stringify(req)`.
abbrev pub update_endpoint_request_json : UpdateEndpointRequest → Json
update_endpoint_request_json r = object (
    (codes "name", some (str r.name))
    ∷ (codes "type", optional str r.type)
    ∷ (codes "dnsName", optional str r.dns_name)
    ∷ (codes "ipAddress", optional str r.ip_address)
    ∷ (codes "port", optional num r.port)
    ∷ (codes "url", optional str r.url)
    ∷ (codes "enabled", some (bool r.enabled))
    ∷ (codes "scanExempt", optional bool r.scan_exempt)
    ∷ (codes "scannerId", optional str r.scanner_id)
    ∷ (codes "notes", optional str r.notes)
    ∷ [])

pub record PatchEndpointRequest : Type 0 where
  pub name : Option Text
  pub dns_name : Option Text
  pub ip_address : Option (Option Text)
  pub port : Option ℤ
  pub url : Option (Option Text)
  pub enabled : Option Bool
  pub scan_exempt : Option Bool
  pub scanner_id : Option (Option Text)
  pub notes : Option (Option Text)

-- `JSON.stringify(req)`.
abbrev pub patch_endpoint_request_json : PatchEndpointRequest → Json
patch_endpoint_request_json r = object (
    (codes "name", optional str r.name)
    ∷ (codes "dnsName", optional str r.dns_name)
    ∷ (codes "ipAddress", optional (nullable str) r.ip_address)
    ∷ (codes "port", optional num r.port)
    ∷ (codes "url", optional (nullable str) r.url)
    ∷ (codes "enabled", optional bool r.enabled)
    ∷ (codes "scanExempt", optional bool r.scan_exempt)
    ∷ (codes "scannerId", optional (nullable str) r.scanner_id)
    ∷ (codes "notes", optional (nullable str) r.notes)
    ∷ [])

pub record BulkImportRow : Type 0 where
  pub name : Text
  pub type : Text
  pub dns_name : Option Text
  pub port : Option ℤ
  pub ip_address : Option Text
  pub url : Option Text
  pub scanner_id : Option Text
  pub notes : Option Text

-- `JSON.stringify(req)`.
abbrev pub bulk_import_row_json : BulkImportRow → Json
bulk_import_row_json r = object (
    (codes "name", some (str r.name))
    ∷ (codes "type", some (str r.type))
    ∷ (codes "dnsName", optional str r.dns_name)
    ∷ (codes "port", optional num r.port)
    ∷ (codes "ipAddress", optional str r.ip_address)
    ∷ (codes "url", optional str r.url)
    ∷ (codes "scannerId", optional str r.scanner_id)
    ∷ (codes "notes", optional str r.notes)
    ∷ [])

pub record BulkImportRequest : Type 0 where
  pub rows : List BulkImportRow

-- `JSON.stringify(req)`.
abbrev pub bulk_import_request_json : BulkImportRequest → Json
bulk_import_request_json r =
    object ((codes "rows", some (arr (items (map bulk_import_row_json r.rows)))) ∷ [])

pub record BulkImportRowResult : Type 0 where
  pub row : ℤ
  pub name : Text
  pub id : Option Text
  pub error : Option Text

pub record BulkImportResponse : Type 0 where
  pub created : ℤ
  pub failed : ℤ
  pub results : List BulkImportRowResult

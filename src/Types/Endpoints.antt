-- ===== src/Types/Endpoints.antt =====
-- web/src/types/api.ts: endpoints and their scans.
use tlsentinel_server.Common.{Bool, List, Option}
use tlsentinel_server.Text.{Text}
use tlsentinel_server.Text.Numbers.{ℤ}
use tlsentinel_server.Types.Paging.{PaginatedList}
use tlsentinel_server.Types.Tags.{TagWithCategory}

pub record EndpointCert : Type 0 where
  pub fingerprint : Text
  pub cert_use : Text
  pub is_current : Bool
  pub common_name : Text
  pub not_before : Text
  pub not_after : Text
  pub first_seen_at : Text
  pub last_seen_at : Text

pub record EndpointListItem : Type 0 where
  pub id : Text
  pub name : Text
  pub type : Text
  pub dns_name : Text
  pub port : ℤ
  pub url : Option (Option Text)
  pub enabled : Bool
  pub scan_exempt : Bool
  pub scanner_id : Option Text
  pub scanner_name : Option Text
  pub earliest_expiry : Option Text
  pub last_scanned_at : Option Text
  pub last_scan_error : Option Text
  pub error_since : Option Text
  pub last_resolved_ip : Option Text
  pub tags : List TagWithCategory

pub record HistoricalEndpointItem : Type 0 where
  pub endpoint_list_item : EndpointListItem
  pub open endpoint_list_item use *
  pub last_seen_at : Text

pub record SamlMetadataEndpoint : Type 0 where
  pub binding : Text
  pub location : Text
  pub index : Option ℤ
  pub is_default : Option Bool

pub record SamlMetadataContact : Type 0 where
  pub type : Text
  pub given_name : Option Text
  pub surname : Option Text
  pub email_address : Option Text
  pub company : Option Text

pub record SamlMetadataOrganization : Type 0 where
  pub name : Option Text
  pub display_name : Option Text
  pub url : Option Text

pub record SamlMetadata : Type 0 where
  pub entity_id : Option Text
  pub valid_until : Option Text
  pub cache_duration : Option Text
  pub role : Option Text
  pub single_sign_on : Option (List SamlMetadataEndpoint)
  pub single_logout : Option (List SamlMetadataEndpoint)
  pub assertion_consumer : Option (List SamlMetadataEndpoint)
  pub name_id_formats : Option (List Text)
  pub organization : Option SamlMetadataOrganization
  pub contacts : Option (List SamlMetadataContact)
  pub want_assertions_signed : Option Bool
  pub authn_requests_signed : Option Bool

pub record Endpoint : Type 0 where
  pub id : Text
  pub name : Text
  pub type : Text
  pub dns_name : Text
  pub ip_address : Option Text
  pub last_resolved_ip : Option Text
  pub port : ℤ
  pub url : Option (Option Text)
  pub saml_metadata : Option SamlMetadata
  pub saml_fetched_at : Option Text
  pub enabled : Bool
  pub scan_exempt : Bool
  pub scanner_id : Option Text
  pub scanner_name : Option Text
  pub active_certs : List EndpointCert
  pub last_scanned_at : Option Text
  pub last_scan_error : Option Text
  pub error_since : Option Text
  pub notes : Option Text
  pub created_at : Text
  pub updated_at : Text

abbrev pub EndpointList : Type 0
EndpointList = PaginatedList EndpointListItem

pub record EndpointScanHistoryItem : Type 0 where
  pub id : Text
  pub endpoint_id : Text
  pub scanned_at : Text
  pub fingerprint : Option Text
  pub resolved_ip : Option Text
  pub tls_version : Option Text
  pub scan_error : Option Text

abbrev pub EndpointScanHistoryList : Type 0
EndpointScanHistoryList = PaginatedList EndpointScanHistoryItem

-- ===== src/Types/Scanners.antt =====
-- web/src/types/api.ts: scanners and network discovery.
use tlsentinel_server.Common.{Bool, List, Option, some, [], ◌∷◌}
use tlsentinel_server.Text.{Text, codes}
use tlsentinel_server.Text.Numbers.{ℤ}
use tlsentinel_server.Json.{Json, str, num, bool, object, optional, nullable, numbers}

pub record ScannerToken : Type 0 where
  pub id : Text
  pub name : Text
  pub is_default : Bool
  pub scan_cron_expression : Text
  pub scan_concurrency : ℤ
  pub created_at : Text
  pub last_used_at : Option Text

pub record PatchScannerRequest : Type 0 where
  pub name : Option Text
  pub scan_cron_expression : Option Text
  pub scan_concurrency : Option ℤ

-- `JSON.stringify(req)`.
abbrev pub patch_scanner_request_json : PatchScannerRequest → Json
patch_scanner_request_json r = object (
    (codes "name", optional str r.name)
    ∷ (codes "scanCronExpression", optional str r.scan_cron_expression)
    ∷ (codes "scanConcurrency", optional num r.scan_concurrency)
    ∷ [])

pub record ScannerTokenCreated : Type 0 where
  pub scanner_token : ScannerToken
  pub open scanner_token use *
  pub token : Text

pub record ScannerTokenRegenerated : Type 0 where
  pub id : Text
  pub token : Text

pub record DiscoveryNetwork : Type 0 where
  pub id : Text
  pub name : Text
  pub range : Text
  pub ports : List ℤ
  pub scanner_id : Option Text
  pub scanner_name : Option Text
  pub cron_expression : Text
  pub enabled : Bool
  pub created_at : Text
  pub updated_at : Text

pub record DiscoveryNetworkList : Type 0 where
  pub items : List DiscoveryNetwork
  pub total_count : ℤ

pub record CreateDiscoveryNetworkRequest : Type 0 where
  pub name : Text
  pub range : Text
  pub ports : List ℤ
  pub scanner_id : Option Text
  pub cron_expression : Text
  pub enabled : Bool

-- `JSON.stringify(req)`.
abbrev pub create_discovery_network_request_json : CreateDiscoveryNetworkRequest → Json
create_discovery_network_request_json r = object (
    (codes "name", some (str r.name))
    ∷ (codes "range", some (str r.range))
    ∷ (codes "ports", some (numbers r.ports))
    ∷ (codes "scannerId", some (nullable str r.scanner_id))
    ∷ (codes "cronExpression", some (str r.cron_expression))
    ∷ (codes "enabled", some (bool r.enabled))
    ∷ [])

abbrev pub UpdateDiscoveryNetworkRequest : Type 0
UpdateDiscoveryNetworkRequest = CreateDiscoveryNetworkRequest

pub record DiscoveryInboxItem : Type 0 where
  pub id : Text
  pub network_id : Option Text
  pub network_name : Option Text
  pub scanner_id : Option Text
  pub scanner_name : Option Text
  pub ip : Text
  pub rdns : Option Text
  pub port : ℤ
  pub fingerprint : Option Text
  pub common_name : Option Text
  pub sans : List Text
  pub not_after : Option Text
  pub status : Text
  pub endpoint_id : Option Text
  pub endpoint_name : Option Text
  pub first_seen_at : Text
  pub last_seen_at : Text

pub record DiscoveryInboxList : Type 0 where
  pub items : List DiscoveryInboxItem
  pub total_count : ℤ

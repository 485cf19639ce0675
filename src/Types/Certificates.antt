-- ===== src/Types/Certificates.antt =====
-- web/src/types/api.ts: certificates, root stores and search results.
use tlsentinel_server.Common.{Bool, List, Option, [], ◌∷◌}
use tlsentinel_server.Text.{Text, codes}
use tlsentinel_server.Text.Numbers.{ℤ}
use tlsentinel_server.Json.{Json, str, object, optional}
use tlsentinel_server.Types.Paging.{PaginatedList}

pub record CertificateListItem : Type 0 where
  pub fingerprint : Text
  pub common_name : Text
  pub sans : List Text
  pub not_before : Text
  pub not_after : Text
  pub issuer_fingerprint : Option Text
  pub created_at : Text

pub record CertReferences : Type 0 where
  pub current_endpoints : ℤ
  pub historical_endpoints : ℤ
  pub scan_history : ℤ
  pub issued_certs : ℤ

pub record CertificateDetail : Type 0 where
  pub fingerprint : Text
  pub common_name : Text
  pub sans : List Text
  pub not_before : Text
  pub not_after : Text
  pub serial_number : Text
  pub subject_key_id : Text
  pub authority_key_id : Option Text
  pub issuer_fingerprint : Option Text
  pub created_at : Text
  pub pem : Text
  pub subject_org : Text
  pub subject_org_unit : Text
  pub issuer_cn : Text
  pub issuer_org : Text
  pub key_algorithm : Text
  pub key_size : ℤ
  pub signature_algorithm : Text
  pub key_usages : List Text
  pub ext_key_usages : List Text
  pub ocsp_urls : List Text
  pub crl_distribution_points : List Text
  pub trusted_by : List Text
  pub is_trust_anchor : Bool

pub record RootStoreSummary : Type 0 where
  pub id : Text
  pub name : Text
  pub kind : Text
  pub source_url : Text
  pub anchor_count : ℤ
  pub updated_at : Option Text

pub record RootStoreAnchorItem : Type 0 where
  pub fingerprint : Text
  pub common_name : Text
  pub subject_org : Text
  pub not_after : Text
  pub issuer_fingerprint : Option Text

pub record RootStoreAnchorList : Type 0 where
  pub items : List RootStoreAnchorItem
  pub page : ℤ
  pub page_size : ℤ
  pub total_count : ℤ

pub record SearchEndpoint : Type 0 where
  pub id : Text
  pub name : Text
  pub type : Text
  pub subtitle : Text

pub record SearchCertificate : Type 0 where
  pub fingerprint : Text
  pub common_name : Text
  pub not_after : Text

pub record SearchScanner : Type 0 where
  pub id : Text
  pub name : Text

pub record SearchResults : Type 0 where
  pub endpoints : List SearchEndpoint
  pub certificates : List SearchCertificate
  pub scanners : List SearchScanner

pub record IngestCertificateRequest : Type 0 where
  pub certificate_pem : Option Text
  pub certificate_der_base64 : Option Text

-- `JSON.stringify(req)`.
abbrev pub ingest_certificate_request_json : IngestCertificateRequest → Json
ingest_certificate_request_json r = object (
    (codes "certificatePem", optional str r.certificate_pem)
    ∷ (codes "certificateDerBase64", optional str r.certificate_der_base64)
    ∷ [])

abbrev pub CertificateList : Type 0
CertificateList = PaginatedList CertificateListItem

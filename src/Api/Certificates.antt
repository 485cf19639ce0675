-- ===== src/Api/Certificates.antt =====
-- web/src/api/certificates.ts: certificates.
use tlsentinel_server.Common.{Bool, List, none, some, [], ◌∷◌, ◌++◌, if◌then◌else◌}
use tlsentinel_server.Text.{Text, codes}
use tlsentinel_server.Text.Numbers.{ℤ, show_int}
use tlsentinel_server.Query.{set_all, to_query}
use tlsentinel_server.Client.{Promise, api_get, api_post, api_delete}
use tlsentinel_server.Types.Certificates.{
  CertReferences, CertificateDetail, CertificateList, IngestCertificateRequest,
  ingest_certificate_request_json,
}
use tlsentinel_server.Types.Endpoints.{EndpointListItem, HistoricalEndpointItem}
use tlsentinel_server.Types.Tags.{TagWithCategory}

pub record ExpiringCertItem : Type 0 where
  pub endpoint_id : Text
  pub endpoint_name : Text
  pub endpoint_type : Text
  pub fingerprint : Text
  pub common_name : Text
  pub sans : List Text
  pub issuer_cn : Text
  pub not_after : Text
  pub days_remaining : ℤ
  pub tags : List TagWithCategory

pub record ExpiringCertList : Type 0 where
  pub items : List ExpiringCertItem
  pub page : ℤ
  pub page_size : ℤ
  pub total_count : ℤ

unfoldable pub list_certificates :
    (page : ℤ) (page_size : ℤ) (common_name : Text) (status : Text) (sort : Text)
    → Promise CertificateList
list_certificates page page_size common_name status sort = api_get (
    codes "/certificates?"
    ++ (to_query (
        set_all
          ((codes "common_name", common_name)
            ∷ (codes "status", status)
            ∷ (codes "sort", sort)
            ∷ [])
          ((codes "page", show_int page) ∷ (codes "page_size", show_int page_size) ∷ []))))

pub get_certificate : (fingerprint : Text) → Promise CertificateDetail
get_certificate fingerprint = api_get (codes "/certificates/" ++ fingerprint)

pub create_certificate : (body : IngestCertificateRequest) → Promise CertificateDetail
create_certificate body =
    api_post (codes "/certificates") (some (ingest_certificate_request_json body))

pub get_certificate_references : (fingerprint : Text) → Promise CertReferences
get_certificate_references fingerprint =
    api_get (codes "/certificates/" ++ (fingerprint ++ (codes "/references")))

pub delete_certificate : (fingerprint : Text) (purge : Bool) → Promise (Unit {0})
delete_certificate fingerprint purge =
    api_delete
      (codes "/certificates/" ++ (fingerprint ++ (if purge then codes "?purge=true" else []))) none

pub get_certificate_hosts : (fingerprint : Text) → Promise (List EndpointListItem)
get_certificate_hosts fingerprint =
    api_get (codes "/certificates/" ++ (fingerprint ++ (codes "/endpoints")))

pub get_certificate_hosts_historical : (fingerprint : Text) → Promise (List HistoricalEndpointItem)
get_certificate_hosts_historical fingerprint =
    api_get (codes "/certificates/" ++ (fingerprint ++ (codes "/endpoints/historical")))

unfoldable pub list_active :
    (page : ℤ) (page_size : ℤ) (name : Text) (status : Text) (sort : Text) (tag_id : Text)
    → Promise ExpiringCertList
list_active page page_size name status sort tag_id = api_get (
    codes "/certificates/active?"
    ++ (to_query (
        set_all
          ((codes "name", name)
            ∷ (codes "status", status)
            ∷ (codes "sort", sort)
            ∷ (codes "tag_id", tag_id)
            ∷ [])
          ((codes "page", show_int page) ∷ (codes "page_size", show_int page_size) ∷ []))))

pub get_expiring_certs : (days : ℤ) → Promise ExpiringCertList
get_expiring_certs days = api_get (codes "/certificates/expiring?days=" ++ (show_int days))

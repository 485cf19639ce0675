-- ===== src/Types/Reports.antt =====
-- web/src/types/api.ts: TLS profiles, the posture report and the mail configuration.
use tlsentinel_server.Common.{Bool, List, Option}
use tlsentinel_server.Text.{Text}
use tlsentinel_server.Text.Numbers.{ℤ}

pub data TlsSeverity : Type 0 where
  ok warning critical : TlsSeverity

pub record TlsFinding : Type 0 where
  pub name : Text
  pub reason : Text
  pub severity : TlsSeverity

pub record TlsClassification : Type 0 where
  pub versions : List TlsFinding
  pub cipher_suites : List TlsFinding
  pub overall_severity : TlsSeverity

-- `t` is an untrusted certificate, `m` a name that does not match.
pub data TlsGrade : Type 0 where
  a_plus a a_minus b c d e f t m : TlsGrade

pub record TlsScore : Type 0 where
  pub protocol_score : ℤ
  pub key_exchange_score : Option ℤ
  pub cipher_score : ℤ
  pub score : ℤ
  pub grade : TlsGrade
  pub warnings : Option (List Text)

pub record EndpointTlsProfile : Type 0 where
  pub endpoint_id : Text
  pub scanned_at : Text
  pub ssl30 : Bool
  pub tls10 : Bool
  pub tls11 : Bool
  pub tls12 : Bool
  pub tls13 : Bool
  pub cipher_suites : List Text
  pub selected_cipher : Option Text
  pub scan_error : Option Text
  pub classification : TlsClassification
  pub score : TlsScore

pub record BuildInfo : Type 0 where
  pub version : Text
  pub commit : Text
  pub build_time : Text

pub data MailAuth : Type 0 where
  none plain login : MailAuth

pub data MailTls : Type 0 where
  none starttls tls : MailTls

pub record MailConfig : Type 0 where
  pub enabled : Bool
  pub smtp_host : Text
  pub smtp_port : ℤ
  pub auth_type : MailAuth
  pub smtp_username : Text
  pub password_set : Bool
  pub from_address : Text
  pub from_name : Text
  pub tls_mode : MailTls
  pub updated_at : Text

pub record TlsProtocolCounts : Type 0 where
  pub tls13 : ℤ
  pub tls12 : ℤ
  pub tls11 : ℤ
  pub tls10 : ℤ
  pub ssl30 : ℤ

pub record TlsCipherCount : Type 0 where
  pub cipher : Text
  pub count : ℤ
  pub severity : TlsSeverity
  pub reason : Option Text

pub record TlsIssuerCount : Type 0 where
  pub issuer : Text
  pub count : ℤ

pub record TlsAttentionItem : Type 0 where
  pub endpoint_id : Text
  pub endpoint_name : Text
  pub issues : List Text
  pub severity : TlsSeverity

pub record TlsPostureReport : Type 0 where
  pub total_endpoints : ℤ
  pub scanned_endpoints : ℤ
  pub weak_cipher_endpoints : ℤ
  pub protocols : TlsProtocolCounts
  pub legacy_endpoints : ℤ
  pub ciphers : List TlsCipherCount
  pub issuers : List TlsIssuerCount
  pub attention : List TlsAttentionItem

pub record ResolveResponse : Type 0 where
  pub hostname : Text
  pub addresses : List Text

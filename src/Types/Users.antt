-- ===== src/Types/Users.antt =====
-- web/src/types/api.ts: signing in, users, groups and the audit log.
use tlsentinel_server.Common.{Bool, List, Option, some, [], ◌∷◌}
use tlsentinel_server.Text.{Text, codes}
use tlsentinel_server.Text.Numbers.{ℤ}
use tlsentinel_server.Json.{Json, str, bool, object, optional}
use tlsentinel_server.Types.Paging.{PaginatedList}

pub record LoginRequest : Type 0 where
  pub username : Text
  pub password : Text

-- `JSON.stringify(req)`.
abbrev pub login_request_json : LoginRequest → Json
login_request_json r =
    object
      ((codes "username", some (str r.username)) ∷ (codes "password", some (str r.password)) ∷ [])

pub record LoginResponse : Type 0 where
  pub token : Text
  pub challenge_token : Option Text
  pub totp_required : Option Bool

pub record TotpLoginRequest : Type 0 where
  pub challenge_token : Text
  pub code : Text
  pub is_recovery : Option Bool

-- `JSON.stringify(req)`.
abbrev pub totp_login_request_json : TotpLoginRequest → Json
totp_login_request_json r = object (
    (codes "challengeToken", some (str r.challenge_token))
    ∷ (codes "code", some (str r.code))
    ∷ (codes "isRecovery", optional bool r.is_recovery)
    ∷ [])

pub record TotpStatus : Type 0 where
  pub enabled : Bool
  pub remaining_recovery_codes : ℤ

pub record TotpSetup : Type 0 where
  pub secret : Text
  pub uri : Text

pub record TotpVerifyResponse : Type 0 where
  pub recovery_codes : List Text

pub data UserRole : Type 0 where
  admin operator viewer : UserRole

pub data UserProvider : Type 0 where
  local oidc : UserProvider

pub record User : Type 0 where
  pub id : Text
  pub username : Text
  pub role : UserRole
  pub provider : UserProvider
  pub enabled : Bool
  pub notify : Bool
  pub first_name : Option Text
  pub last_name : Option Text
  pub email : Option Text
  pub calendar_token : Option Text
  pub totp_enabled : Bool
  pub created_at : Text
  pub updated_at : Text

abbrev pub UserList : Type 0
UserList = PaginatedList User

pub record Group : Type 0 where
  pub id : Text
  pub name : Text
  pub description : Option Text
  pub created_at : Text
  pub updated_at : Text

pub record GroupList : Type 0 where
  pub items : List Group
  pub page : ℤ
  pub page_size : ℤ
  pub total_count : ℤ

pub record AuditLog : Type 0 where
  pub id : Text
  pub user_id : Option Text
  pub username : Text
  pub action : Text
  pub resource_type : Option Text
  pub resource_id : Option Text
  pub resource_label : Option Text
  pub ip_address : Option Text
  pub details : Option Json
  pub created_at : Text

abbrev pub AuditLogList : Type 0
AuditLogList = PaginatedList AuditLog

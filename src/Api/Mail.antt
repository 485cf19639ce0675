-- ===== src/Api/Mail.antt =====
-- web/src/api/mail.ts: mail.
use tlsentinel_server.Common.{Bool, Option, some, [], ◌∷◌, or_else}
use tlsentinel_server.Text.{Text, codes}
use tlsentinel_server.Text.Numbers.{ℤ}
use tlsentinel_server.Json.{Json, str, num, bool, object}
use tlsentinel_server.Client.{Promise, api_get, api_post, api_put}
use tlsentinel_server.Types.Reports.{MailConfig}

pub get_mail_config : Promise MailConfig
get_mail_config = api_get (codes "/settings/mail")

-- The argument of `saveMailConfig`.
pub record SaveMailConfigBody : Type 0 where
  pub enabled : Bool
  pub smtp_host : Text
  pub smtp_port : ℤ
  pub auth_type : Text
  pub smtp_username : Text
  pub smtp_password : Text
  pub from_address : Text
  pub from_name : Text
  pub tls_mode : Text

-- `JSON.stringify(req)`.
abbrev pub save_mail_config_body_json : SaveMailConfigBody → Json
save_mail_config_body_json r = object (
    (codes "enabled", some (bool r.enabled))
    ∷ (codes "smtpHost", some (str r.smtp_host))
    ∷ (codes "smtpPort", some (num r.smtp_port))
    ∷ (codes "authType", some (str r.auth_type))
    ∷ (codes "smtpUsername", some (str r.smtp_username))
    ∷ (codes "smtpPassword", some (str r.smtp_password))
    ∷ (codes "fromAddress", some (str r.from_address))
    ∷ (codes "fromName", some (str r.from_name))
    ∷ (codes "tlsMode", some (str r.tls_mode))
    ∷ [])

pub save_mail_config : (req : SaveMailConfigBody) → Promise MailConfig
save_mail_config req = api_put (codes "/settings/mail") (some (save_mail_config_body_json req))

pub test_mail_config : (to : Option Text) → Promise (Unit {0})
test_mail_config to =
    api_post (codes "/settings/mail/test")
      (some (object ((codes "to", some (str (or_else to []))) ∷ [])))

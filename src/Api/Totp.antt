-- ===== src/Api/Totp.antt =====
-- web/src/api/totp.ts: the second factor.
use tlsentinel_server.Common.{some, [], ◌∷◌}
use tlsentinel_server.Text.{Text, codes}
use tlsentinel_server.Json.{str, object}
use tlsentinel_server.Client.{Promise, api_get, api_post, api_delete}
use tlsentinel_server.Types.Users.{
  LoginResponse, TotpLoginRequest, TotpSetup, TotpStatus, TotpVerifyResponse,
  totp_login_request_json,
}

unfoldable pub get_totp_status : Promise TotpStatus
get_totp_status = api_get (codes "/me/totp")

pub begin_totp_setup : Promise TotpSetup
begin_totp_setup = api_post (codes "/me/totp/setup") (some (object []))

unfoldable pub confirm_totp_setup : (code : Text) → Promise TotpVerifyResponse
confirm_totp_setup code =
    api_post (codes "/me/totp/verify") (some (object ((codes "code", some (str code)) ∷ [])))

pub disable_totp : (password : Text) (code : Text) → Promise (Unit {0})
disable_totp password code =
    api_delete (codes "/me/totp") (
      some
        (object ((codes "password", some (str password)) ∷ (codes "code", some (str code)) ∷ [])))

pub regenerate_totp_recovery_codes : (code : Text) → Promise TotpVerifyResponse
regenerate_totp_recovery_codes code =
    api_post (codes "/me/totp/recovery-codes")
      (some (object ((codes "code", some (str code)) ∷ [])))

pub login_with_totp : (req : TotpLoginRequest) → Promise LoginResponse
login_with_totp req = api_post (codes "/auth/totp") (some (totp_login_request_json req))

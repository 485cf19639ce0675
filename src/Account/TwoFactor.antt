-- ===== src/Account/TwoFactor.antt =====
-- web/src/pages/account/Account2FAPage.tsx: setting up, confirming, disabling and renewing the
-- second factor. The drawing of the QR code is a package, and a parameter.
pub mod Setup
pub mod Refused
use tlsentinel_server.Common.{
  Bool, true, false, not, List, [], ◌∷◌, Option, none, some, if◌then◌else◌, is_some,
}
use tlsentinel_server.Text.{Text, codes, trim, is_empty}
use tlsentinel_server.Text.Numbers.{ℤ}
use tlsentinel_server.Json.{Json}
use tlsentinel_server.Types.Users.{TotpSetup, TotpStatus, TotpVerifyResponse}
use tlsentinel_server.Client.{
  Browser, HttpRequest, HttpResponse, Outcome, value, undefined, api_error, network_error,
  syntax_error, request,
}
use tlsentinel_server.Api.Totp.{
  get_totp_status, begin_totp_setup, confirm_totp_setup, disable_totp,
  regenerate_totp_recovery_codes,
}
use tlsentinel_server.Account.{is_fulfilled}

-- The state of the page and of its two dialogs.
pub record TwoFactor : Type 0 where
  -- Null at first; undefined where an answer had no value.
  pub status : Option (Option TotpStatus)
  pub setup_uri : Option Text
  pub setup_secret : Option Text
  pub qr_data_url : Option Text
  pub verify_code : Text
  pub setup_error : Option Text
  pub submitting : Bool
  pub recovery_codes : Option (List Text)
  pub disable_open : Bool
  pub regen_open : Bool
  pub password : Text
  pub code : Text
  pub dialog_error : Option Text
  pub dialog_submitting : Bool
  pub browser : Browser

unfoldable pub opened : Option TotpStatus → Browser → TwoFactor
opened status b = record {
  status = some status;
  setup_uri = none;
  setup_secret = none;
  qr_data_url = none;
  verify_code = [];
  setup_error = none;
  submitting = false;
  recovery_codes = none;
  disable_open = false;
  regen_open = false;
  password = [];
  code = [];
  dialog_error = none;
  dialog_submitting = false;
  browser = b;
}

-- How values are read at the types that the client asserts.
pub record Reading : Type 0 where
  pub setup : Json → TotpSetup
  pub status : Json → TotpStatus
  pub verified : Json → TotpVerifyResponse

unfoldable pub cancel_setup : TwoFactor → TwoFactor
cancel_setup p = record p {
  setup_uri = none;
  setup_secret = none;
  qr_data_url = none;
  verify_code = [];
  setup_error = none;
}

-- The effect of both dialogs when they open.
unfoldable pub open_disable : TwoFactor → TwoFactor
open_disable p = record p {
  disable_open = true;
  password = [];
  code = [];
  dialog_error = none;
  dialog_submitting = false;
}

unfoldable pub open_regenerate : TwoFactor → TwoFactor
open_regenerate p = record p {
  regen_open = true;
  code = [];
  dialog_error = none;
  dialog_submitting = false;
}

pub data Event : Type 0 where
  start confirm cancel close_codes ask_disable disable ask_regenerate regenerate : Event
  type_verify type_password type_code : Text → Event

module _ (server : HttpRequest → Option HttpResponse) (reading : Reading)
    (qr : Text → Option Text) where
  unfoldable pub failed_setup : TwoFactor → TwoFactor
  failed_setup p = record p { setup_error = some (codes "Failed to start setup. Try again.") }

  -- `QRCode.toDataURL`; `none` is a rejection.
  unfoldable pub drawn : Option Text → TwoFactor → TwoFactor
  unfolding failed_setup
  drawn (some url) p = record p { qr_data_url = some url }
  drawn none p = failed_setup p

  unfoldable pub setup_settled : Outcome × Browser → TwoFactor → TwoFactor
  unfolding drawn failed_setup
  setup_settled (value v, b) p = drawn (qr (reading.setup v).uri) (record p {
    browser = b;
    setup_uri = some (reading.setup v).uri;
    setup_secret = some (reading.setup v).secret;
  })
  setup_settled (_, b) p = failed_setup (record p { browser = b })

  unfoldable pub start_setup : TwoFactor → TwoFactor
  unfolding setup_settled
  start_setup p =
      setup_settled (request server begin_totp_setup p.browser)
        (record p { setup_error = none; verify_code = [] })

  -- `getTOTPStatus` and `setStatus`, with what is done when it is rejected.
  unfoldable pub status_settled :
      (TwoFactor → TwoFactor) → Outcome × Browser → TwoFactor → TwoFactor
  status_settled rejected (value v, b) p = record p {
    browser = b;
    status = some (some (reading.status v));
  }
  status_settled rejected (undefined, b) p = record p { browser = b; status = some none }
  status_settled rejected (_, b) p = rejected (record p { browser = b })

  unfoldable pub invalid_code : TwoFactor → TwoFactor
  invalid_code p = record p {
    setup_error = some (codes "Invalid code. Make sure your phone clock is correct and try again.");
    submitting = false;
  }

  unfoldable pub confirm_settled : Outcome × Browser → TwoFactor → TwoFactor
  unfolding status_settled invalid_code
  confirm_settled (value v, b) p =
      let confirmed = record p {
        browser = b;
        recovery_codes = some (reading.verified v).recovery_codes;
        setup_uri = none;
        setup_secret = none;
        qr_data_url = none;
        verify_code = [];
      } in
      record (status_settled invalid_code (request server get_totp_status b) confirmed) {
        submitting = false;
      }
  confirm_settled (_, b) p = invalid_code (record p { browser = b })

  unfoldable pub confirm_setup : TwoFactor → TwoFactor
  unfolding confirm_settled
  confirm_setup p =
      confirm_settled (request server (confirm_totp_setup (trim p.verify_code)) p.browser)
        (record p { setup_error = none; submitting = true })

  -- `submit` of the dialog that disables, with `onDisabled`, whose own rejection nobody handles.
  unfoldable pub disable_settled : Outcome × Browser → TwoFactor → TwoFactor
  unfolding status_settled
  disable_settled (o, b) p =
      if is_fulfilled o
      then status_settled (λ q. q) (request server get_totp_status b)
          (record p { browser = b; disable_open = false })
      else record p {
        browser = b;
        dialog_error = some (codes "Invalid password or code.");
        dialog_submitting = false;
      }

  unfoldable pub submit_disable : TwoFactor → TwoFactor
  unfolding disable_settled
  submit_disable p =
      disable_settled (request server (disable_totp p.password (trim p.code)) p.browser)
        (record p { dialog_error = none; dialog_submitting = true })

  -- `submit` of the dialog that renews the codes, with `onRegenerated`.
  unfoldable pub regenerate_settled : Outcome × Browser → TwoFactor → TwoFactor
  unfolding status_settled
  regenerate_settled (value v, b) p =
      status_settled (λ q. q) (request server get_totp_status b)
        (record p {
          browser = b;
          regen_open = false;
          recovery_codes = some (reading.verified v).recovery_codes;
        })
  regenerate_settled (_, b) p = record p {
    browser = b;
    dialog_error = some (codes "Invalid code.");
    dialog_submitting = false;
  }

  unfoldable pub submit_regenerate : TwoFactor → TwoFactor
  unfolding regenerate_settled
  submit_regenerate p =
      regenerate_settled (request server (regenerate_totp_recovery_codes (trim p.code)) p.browser)
        (record p { dialog_error = none; dialog_submitting = true })

  unfoldable pub step : Event → TwoFactor → TwoFactor
  unfolding start_setup confirm_setup cancel_setup open_disable open_regenerate submit_disable
      submit_regenerate
  step start p = start_setup p
  step confirm p = confirm_setup p
  step cancel p = cancel_setup p
  step close_codes p = record p { recovery_codes = none }
  step ask_disable p = open_disable p
  step disable p = submit_disable p
  step ask_regenerate p = open_regenerate p
  step regenerate p = submit_regenerate p
  step (type_verify s) p = record p { verify_code = s }
  step (type_password s) p = record p { password = s }
  step (type_code s) p = record p { code = s }

  unfoldable pub run : List Event → TwoFactor → TwoFactor
  unfolding step
  run [] p = p
  run (e ∷ es) p = run es (step e p)

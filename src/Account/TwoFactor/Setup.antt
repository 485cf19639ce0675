-- ===== src/Account/TwoFactor/Setup.antt =====
-- The set-up of the second factor, in web/src/pages/account/Account2FAPage.tsx: what is kept
-- together, and what is gone when it is confirmed.
use tlsentinel_server.Common.{true, false, [], Option, none, some, ◌≡◌, refl, is_some}
use tlsentinel_server.Text.{Text, trim}
use tlsentinel_server.Json.{Json}
use tlsentinel_server.Client.{
  Browser, HttpRequest, HttpResponse, Outcome, value, undefined, api_error, network_error,
  syntax_error, request,
}
use tlsentinel_server.Api.Totp.{get_totp_status, confirm_totp_setup}
use tlsentinel_server.Account.TwoFactor.{
  TwoFactor, Reading, status_settled, invalid_code, confirm_settled, confirm_setup,
}

-- The address and the secret are there together, and a drawing only with them.
abbrev pub IsSetup : TwoFactor → Type 0
IsSetup p =
    (is_some p.setup_uri ≡ is_some p.setup_secret) × (p.setup_uri ≡ none → p.qr_data_url ≡ none)

module _ (server : HttpRequest → Option HttpResponse) (reading : Reading)
    (qr : Text → Option Text) where
  abbrev kept : TwoFactor → TwoFactor
  kept p = p

  status_settled-keeps :
      (q : Outcome × Browser) (p : TwoFactor)
      → let r = status_settled server reading qr (invalid_code server reading qr) q p in
        (r.recovery_codes ≡ p.recovery_codes)
        × (r.setup_secret ≡ p.setup_secret)
        × (r.qr_data_url ≡ p.qr_data_url)
  unfolding status_settled invalid_code
  status_settled-keeps (value v, b) p = (refl, refl, refl)
  status_settled-keeps (undefined, b) p = (refl, refl, refl)
  status_settled-keeps (api_error s m, b) p = (refl, refl, refl)
  status_settled-keeps (network_error, b) p = (refl, refl, refl)
  status_settled-keeps (syntax_error, b) p = (refl, refl, refl)

  confirmed :
      (q : Outcome × Browser) (p : TwoFactor) (v : Json)
      → q.0 ≡ value v
      → let r = confirm_settled server reading qr q p in
        (r.recovery_codes ≡ some (reading.verified v).recovery_codes)
        × (r.setup_secret ≡ none)
        × (r.qr_data_url ≡ none)
        × (r.submitting ≡ false)
  unfolding confirm_settled
  confirmed q p v e =
      let after = record p {
        browser = q.1;
        recovery_codes = some (reading.verified v).recovery_codes;
        setup_uri = none;
        setup_secret = none;
        qr_data_url = none;
        verify_code = [];
      } in
      let (codes, secret, drawing) =
        status_settled-keeps (request server get_totp_status q.1) after in
      rw (e, confirm_settled) (codes, secret, drawing, refl)

  -- A confirmed code shows the recovery codes, and the secret is forgotten, whatever becomes of the
  -- call for the new status.
  pub confirm_setup-shows :
      (p : TwoFactor) (v : Json)
      → (request server (confirm_totp_setup (trim p.verify_code)) p.browser).0 ≡ value v
      → let q = confirm_setup server reading qr p in
        (q.recovery_codes ≡ some (reading.verified v).recovery_codes)
        × (q.setup_secret ≡ none)
        × (q.qr_data_url ≡ none)
        × (q.submitting ≡ false)
  unfolding confirm_setup
  confirm_setup-shows p v e = confirmed _ (record p { setup_error = none; submitting = true }) v e

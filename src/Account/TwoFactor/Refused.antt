-- ===== src/Account/TwoFactor/Refused.antt =====
-- What web/src/pages/account/Account2FAPage.tsx makes of calls that are refused or lost.
use tlsentinel_server.Common.{
  true, false, [], Option, none, some, ◌≡◌, refl, sym, ◌∙◌, arith, Option-cases, Bool-cases, ◌==◌,
  ==_iff, inl, inr,
}
use tlsentinel_server.Text.{Text, trim}
use tlsentinel_server.Json.{Json}
use tlsentinel_server.Client.{
  Browser, Call, HttpRequest, HttpResponse, Outcome, value, undefined, api_error, network_error,
  syntax_error, request, http_request, api_get,
}
use tlsentinel_server.Client.Outcomes.{request-unauthorized, request-keeps}
use tlsentinel_server.Api.Totp.{get_totp_status, disable_totp}
use tlsentinel_server.Account.Password.Outcomes.{signed_out}
use tlsentinel_server.Account.TwoFactor.{
  TwoFactor, Reading, status_settled, disable_settled, submit_disable,
}

module _ (server : HttpRequest → Option HttpResponse) (reading : Reading)
    (qr : Text → Option Text) where
  abbrev as_is : TwoFactor → TwoFactor
  as_is p = p

  -- Once signed out, a call leaves the page so.
  request-signed_out : (c : Call) → (request server c signed_out).1 ≡ signed_out
  request-signed_out c = elim (Option-cases (server (http_request signed_out.token c))) [
    | inl lost ↦ request-keeps server c signed_out (λ r answered. absurd (cc (sym lost ∙ answered)))
    | inr (r, answered) ↦ elim (Bool-cases (r.status == 401)) [
      | inl p ↦
          (request-unauthorized server c signed_out r c answered ((==_iff r.status 401).0 p)).1
      | inr p ↦
          request-keeps server c signed_out
            (λ s again is_401. let same : some r ≡ some s = sym answered ∙ again in ground arith)
    ]
  ]

  status_settled-browser :
      (q : Outcome × Browser) (p : TwoFactor)
      → let r = status_settled server reading qr as_is q p in
        (r.browser ≡ q.1) × (r.disable_open ≡ p.disable_open) × (r.dialog_error ≡ p.dialog_error)
  unfolding status_settled
  status_settled-browser (value v, b) p = (refl, refl, refl)
  status_settled-browser (undefined, b) p = (refl, refl, refl)
  status_settled-browser (api_error s m, b) p = (refl, refl, refl)
  status_settled-browser (network_error, b) p = (refl, refl, refl)
  status_settled-browser (syntax_error, b) p = (refl, refl, refl)

  disabled :
      (q : Outcome × Browser) (p : TwoFactor)
      → q.0 ≡ undefined
      → q.1 ≡ signed_out
      → let r = disable_settled server reading qr q p in
        (r.disable_open ≡ false) × (r.dialog_error ≡ p.dialog_error) × (r.browser ≡ signed_out)
  unfolding disable_settled
  disabled q p e f =
      let after =
        status_settled-browser (request server get_totp_status signed_out)
          (record p { browser = signed_out; disable_open = false }) in
      rw (e, disable_settled, f) (after.1, after.2, after.0 ∙ request-signed_out get_totp_status)

  -- A wrong password or code, which the server answers with 401, closes the dialog as a success does,
  -- without an error, and signs the user out.
  pub submit_disable-unauthorized :
      (p : TwoFactor) (r : HttpResponse)
      → server (http_request p.browser.token (disable_totp p.password (trim p.code))) ≡ some r
      → r.status ≡ 401
      → let q = submit_disable server reading qr p in
        (q.disable_open ≡ false) × (q.dialog_error ≡ none) × (q.browser ≡ signed_out)
  unfolding submit_disable
  submit_disable-unauthorized p r answered is_401 =
      let refused =
        request-unauthorized server (disable_totp p.password (trim p.code)) p.browser r (api_get [])
          answered is_401 in
      disabled _ (record p { dialog_error = none; dialog_submitting = true }) refused.0 refused.1

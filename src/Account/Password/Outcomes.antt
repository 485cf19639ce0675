-- ===== src/Account/Password/Outcomes.antt =====
-- How a change of the password ends, in web/src/pages/account/AccountPasswordPage.tsx.
use tlsentinel_server.Common.{
  ◌≤◌, true, false, [], Option, none, some, ◌≡◌, ◌≢◌, refl, arith, length,
}
use tlsentinel_server.Text.{Text, codes, text_eq_iff}
use tlsentinel_server.Client.{
  Browser, HttpRequest, HttpResponse, Outcome, undefined, http_request, request, api_get,
}
use tlsentinel_server.Client.Outcomes.{request-unauthorized}
use tlsentinel_server.Api.Users.{change_my_password}
use tlsentinel_server.Account.Password.{PasswordPage, form_error, settled, save_checked, save}

-- The page's state behind a call that a 401 answered.
abbrev pub signed_out : Browser
signed_out = record { token = none; stored = none; location = some (codes "/login") }

settled-undefined :
    (q : Outcome × Browser) (p : PasswordPage) {b : Browser}
    → q.0 ≡ undefined
    → q.1 ≡ b
    → ((settled q p).success ≡ true) × ((settled q p).error ≡ p.error) × ((settled q p).browser ≡ b)
unfolding settled
settled-undefined q p e f = rw (settled, e) (refl, refl, f)

no_error :
    (p : PasswordPage)
    → p.new_password ≡ p.confirm_password
    → 8 ≤ length p.new_password
    → form_error p ≡ none
no_error p same long = ground (arith, text_eq_iff p.new_password p.confirm_password)

module _ (server : HttpRequest → Option HttpResponse) where
  -- A password that is not confirmed, or has less than eight units, is never sent: the page keeps
  -- what was typed and shows an error.
  pub save-checks :
      (p : PasswordPage)
      → form_error p ≢ none
      → ((save server p).browser ≡ p.browser)
        × ((save server p).error ≢ none)
        × ((save server p).success ≡ false)
        × ((save server p).new_password ≡ p.new_password)
  unfolding save
  save-checks p h = on_error (form_error p) h
    where
      on_error :
          (o : Option Text)
          → o ≢ none
          → ((save_checked server o p).browser ≡ p.browser)
            × ((save_checked server o p).error ≢ none)
            × ((save_checked server o p).success ≡ false)
            × ((save_checked server o p).new_password ≡ p.new_password)
      on_error none h = absurd (h refl)
      on_error (some e) h = (refl, (λ q. ground arith), refl, refl)

  -- When the server answers a change of the password with 401, the page shows success, and the user
  -- is signed out.
  pub save-unauthorized :
      (p : PasswordPage) (r : HttpResponse)
      → p.new_password ≡ p.confirm_password
      → 8 ≤ length p.new_password
      → server (http_request p.browser.token (change_my_password p.current_password p.new_password))
        ≡ some r
      → r.status ≡ 401
      → ((save server p).success ≡ true)
        × ((save server p).error ≡ none)
        × ((save server p).browser ≡ signed_out)
  unfolding save
  save-unauthorized p r same long answered is_401 =
      let call = change_my_password p.current_password p.new_password in
      let refused = request-unauthorized server call p.browser r (api_get []) answered is_401 in
      rw (no_error p same long) (
        settled-undefined (request server call p.browser)
          (record p { error = none; success = false; saving = true }) refused.0 refused.1)

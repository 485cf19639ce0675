-- ===== src/Login/Outcomes.antt =====
-- How signing in ends, and what the two steps of the page have in common.
use tlsentinel_server.Common.{
  ℕ, [], Bool, true, false, ◌&&◌, Option, none, some, is_some, ◌≡◌, ◌≢◌, ◌≤◌, refl, sym, ap, ◌∙◌,
  arith, Bool-cases, inl, inr,
}
use tlsentinel_server.Text.{Text, trim}
use tlsentinel_server.Json.{Json}
use tlsentinel_server.Types.Users.{LoginResponse}
use tlsentinel_server.Client.{
  Browser, Call, HttpRequest, HttpResponse, Outcome, value, undefined, api_error, network_error,
  syntax_error, truthy, http_request, is_json, api_get,
}
use tlsentinel_server.Client.Outcomes.{request-unauthorized, request-eq-value_iff, request-keeps}
use tlsentinel_server.Api.Auth.{login}
use tlsentinel_server.Login.{
  LoginPage, LoginStep, credentials, totp, opened, unreachable, credentials_settled,
  handle_credentials, totp_settled, totp_sent, handle_totp, cancel_totp, toggle_recovery, is_true,
}

status_of : Option HttpResponse → ℕ
status_of none = 0
status_of (some r) = r.status

success-no_401 :
    {o : Option HttpResponse} (r : HttpResponse)
    → 200 ≤ r.status
    → r.status ≤ 299
    → o ≡ some r
    → (s : HttpResponse) → o ≡ some s
    → s.status ≢ 401
unfolding status_of
success-no_401 r low high answered s again is_401 =
    let same : r.status ≡ s.status = ap status_of (sym answered ∙ again) in ground (arith, same)

-- The call of the first step.
abbrev pub login_call : LoginPage → Call
login_call p = login (record { username = trim p.username; password = p.password })

module _ (server : HttpRequest → Option HttpResponse) (typed : Json → LoginResponse) where
  settled-undefined :
      (q : Outcome × Browser) (p : LoginPage)
      → q.0 ≡ undefined
      → (credentials_settled server typed q p).error ≡ some unreachable
  unfolding credentials_settled
  settled-undefined (value v, b) p h = ground arith
  settled-undefined (undefined, b) p h = refl
  settled-undefined (api_error status message, b) p h = ground arith
  settled-undefined (network_error, b) p h = refl
  settled-undefined (syntax_error, b) p h = refl

  -- A 401 on the first step is shown as a server that cannot be reached.
  pub handle_credentials-unauthorized :
      (p : LoginPage) (r : HttpResponse)
      → server (http_request p.browser.token (login_call p)) ≡ some r
      → r.status ≡ 401
      → (handle_credentials server typed p).error ≡ some unreachable
  unfolding handle_credentials
  handle_credentials-unauthorized p r answered is_401 =
      settled-undefined _ _
        (request-unauthorized server (login_call p) p.browser r (api_get []) answered is_401).0

  settled-challenge :
      (q : Outcome × Browser) (p : LoginPage) (v : Json) (t : Text)
      → q.0 ≡ value v
      → (typed v).totp_required ≡ some true
      → truthy (typed v).challenge_token ≡ some t
      → credentials_settled server typed q p ≡ record p {
        browser = q.1;
        challenge_token = (typed v).challenge_token;
        step = totp;
        loading = false;
      }
  unfolding credentials_settled
  settled-challenge q p v t h required challenge =
      rw (h, credentials_settled, required, challenge) refl

  -- A password alone does not sign in a user with a second factor: on a success that asks for it
  -- the page goes to its second step with the challenge, and stores no token and goes nowhere.
  pub handle_credentials-challenge :
      (p : LoginPage) (r : HttpResponse) (v : Json) (t : Text)
      → server (http_request p.browser.token (login_call p)) ≡ some r
      → 200 ≤ r.status
      → r.status ≤ 299
      → is_json r.content_type ≡ true
      → r.json ≡ some v
      → (typed v).totp_required ≡ some true
      → truthy (typed v).challenge_token ≡ some t
      → handle_credentials server typed p ≡ record p {
        error = none;
        loading = false;
        step = totp;
        challenge_token = (typed v).challenge_token;
      }
  unfolding handle_credentials
  handle_credentials-challenge p r v t answered low high json parsed required challenge =
      settled-challenge _ _ v t
        ((request-eq-value_iff server (login_call p) p.browser v).1
          (r, answered, low, high, json, parsed))
        required challenge
      ∙ ap
          (λ b. record p {
            error = none;
            loading = false;
            step = totp;
            challenge_token = (typed v).challenge_token;
            browser = b;
          })
          (request-keeps server (login_call p) p.browser (success-no_401 r low high answered))

abbrev is_totp : LoginStep → Bool
is_totp credentials = false
is_totp totp = true

-- The page asks for a code exactly while it holds a challenge.
abbrev pub Asks : LoginPage → Type 0
Asks p = is_totp p.step ≡ is_some (truthy p.challenge_token)

module _ (server : HttpRequest → Option HttpResponse) (typed : Json → LoginResponse) where
  -- What the user does on the page, in any order; each call of the server is a step.
  pub data Reach : LoginPage → Type 0 where
    open_page : (b : Browser) → Reach (opened b)
    type_name : {p : LoginPage} → Reach p → (s : Text) → Reach (record p { username = s })
    type_password : {p : LoginPage} → Reach p → (s : Text) → Reach (record p { password = s })
    type_code : {p : LoginPage} → Reach p → (s : Text) → Reach (record p { code = s })
    sign_in : {p : LoginPage} → Reach p → Reach (handle_credentials server typed p)
    send_code : {p : LoginPage} → Reach p → Reach (handle_totp server typed p)
    cancel : {p : LoginPage} → Reach p → Reach (cancel_totp p)
    toggle : {p : LoginPage} → Reach p → Reach (toggle_recovery p)

  credentials_settled-Asks :
      (q : Outcome × Browser) (p : LoginPage) → Asks p → Asks (credentials_settled server typed q p)
  unfolding credentials_settled
  credentials_settled-Asks (value v, b) p h =
      elim (Bool-cases
        (is_true (typed v).totp_required && is_some (truthy (typed v).challenge_token))) [
          | inl k ↦ rw k (ground arith)
          | inr k ↦ rw k h
        ]
  credentials_settled-Asks (undefined, b) p h = h
  credentials_settled-Asks (api_error status message, b) p h = h
  credentials_settled-Asks (network_error, b) p h = h
  credentials_settled-Asks (syntax_error, b) p h = h

  totp_settled-Asks :
      (q : Outcome × Browser) (p : LoginPage) → Asks p → Asks (totp_settled server typed q p)
  unfolding totp_settled
  totp_settled-Asks (value v, b) p h = h
  totp_settled-Asks (undefined, b) p h = h
  totp_settled-Asks (api_error status message, b) p h = h
  totp_settled-Asks (network_error, b) p h = h
  totp_settled-Asks (syntax_error, b) p h = h

  totp_sent-Asks : (o : Option Text) (p : LoginPage) → Asks p → Asks (totp_sent server typed o p)
  unfolding totp_sent
  totp_sent-Asks none p h = h
  totp_sent-Asks (some t) p h = totp_settled-Asks _ (record p { error = none; loading = true }) h

  -- Whatever is typed, sent and cancelled, and whatever the server answers, the page is at its
  -- second step exactly while it holds a challenge that is not empty.
  pub Reach-Asks : {p : LoginPage} → Reach p → Asks p
  unfolding opened handle_credentials handle_totp cancel_totp toggle_recovery
  Reach-Asks (open_page b) = refl
  Reach-Asks (type_name h s) = Reach-Asks h
  Reach-Asks (type_password h s) = Reach-Asks h
  Reach-Asks (type_code h s) = Reach-Asks h
  Reach-Asks (sign_in h) = credentials_settled-Asks _ _ (Reach-Asks h)
  Reach-Asks (send_code h) = totp_sent-Asks _ _ (Reach-Asks h)
  Reach-Asks (cancel h) = refl
  Reach-Asks (toggle h) = Reach-Asks h

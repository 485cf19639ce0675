-- ===== src/Login.antt =====
-- web/src/pages/LoginPage.tsx: the two steps of signing in, on top of the fetch client. What the
-- router is told is the field `at_home`; the options of single sign-on are not modelled.
pub mod Outcomes
mod Tests
use tlsentinel_server.Common.{
  ℕ, [], Bool, true, false, ◌&&◌, not, Option, none, some, is_some, ◌==◌, if◌then◌else◌,
}
use tlsentinel_server.Text.{Text, codes, trim, is_empty}
use tlsentinel_server.Json.{Json}
use tlsentinel_server.Types.Users.{LoginResponse}
use tlsentinel_server.Client.{
  Browser, HttpRequest, HttpResponse, Outcome, value, api_error, set_token, request, truthy,
}
use tlsentinel_server.Api.Auth.{login}
use tlsentinel_server.Api.Totp.{login_with_totp}

pub data LoginStep : Type 0 where
  credentials totp : LoginStep

pub record LoginPage : Type 0 where
  pub username : Text
  pub password : Text
  pub error : Option Text
  pub loading : Bool
  pub step : LoginStep
  pub challenge_token : Option Text
  pub code : Text
  pub use_recovery : Bool
  -- What the page works on: the client's state, and whether the router was sent to `/`.
  pub browser : Browser
  pub at_home : Bool

unfoldable pub opened : Browser → LoginPage
opened b = record {
  username = [];
  password = [];
  error = none;
  loading = false;
  step = credentials;
  challenge_token = none;
  code = [];
  use_recovery = false;
  browser = b;
  at_home = false;
}

abbrev pub invalid_credentials : Text
invalid_credentials = codes "Invalid username or password."

abbrev pub unreachable : Text
unreachable = codes "Unable to reach the server. Try again."

abbrev pub is_true : Option Bool → Bool
is_true none = false
is_true (some b) = b

-- `setToken(res.token)` and `navigate('/')`.
abbrev pub entered : LoginResponse → Browser → LoginPage → LoginPage
entered res b p = record p { browser = set_token res.token b; at_home = true; loading = false }

-- The parameters are the server and the reading of a value at the type that the client asserts.
module _ (server : HttpRequest → Option HttpResponse) (typed : Json → LoginResponse) where
  -- `handleCredentials` behind its `await`. A property of `undefined` cannot be read, so the
  -- outcome without a value is an error of the language, which is caught like a lost answer.
  pub credentials_settled : Outcome × Browser → LoginPage → LoginPage
  credentials_settled (value v, b) p =
      if is_true (typed v).totp_required && is_some (truthy (typed v).challenge_token)
      then record p {
        browser = b;
        challenge_token = (typed v).challenge_token;
        step = totp;
        loading = false;
      }
      else entered (typed v) b p
  credentials_settled (api_error status message, b) p = record p {
    browser = b;
    error = some (if status == 401 then invalid_credentials else message);
    loading = false;
  }
  credentials_settled (_, b) p = record p { browser = b; error = some unreachable; loading = false }

  unfoldable pub handle_credentials : LoginPage → LoginPage
  unfolding credentials_settled
  handle_credentials p =
      credentials_settled
        (request server (login (record { username = trim p.username; password = p.password }))
          p.browser)
        (record p { error = none; loading = true })

  -- `handleTOTP` behind its `await`.
  pub totp_settled : Outcome × Browser → LoginPage → LoginPage
  totp_settled (value v, b) p = entered (typed v) b p
  totp_settled (api_error status message, b) p = record p {
    browser = b;
    error = some (
        if p.use_recovery
        then codes "That recovery code is not valid or has already been used."
        else codes "That code is not valid. Try again.");
    loading = false;
  }
  totp_settled (_, b) p = record p { browser = b; error = some unreachable; loading = false }

  -- `handleTOTP`, on the challenge.
  pub totp_sent : Option Text → LoginPage → LoginPage
  unfolding totp_settled
  totp_sent none p = p
  totp_sent (some t) p =
      totp_settled
        (request server
          (login_with_totp
            (record { challenge_token = t; code = trim p.code; is_recovery = some p.use_recovery }))
          p.browser)
        (record p { error = none; loading = true })

  unfoldable pub handle_totp : LoginPage → LoginPage
  unfolding totp_sent
  handle_totp p = totp_sent (truthy p.challenge_token) p

unfoldable pub cancel_totp : LoginPage → LoginPage
cancel_totp p = record p {
  step = credentials;
  challenge_token = none;
  code = [];
  use_recovery = false;
  error = none;
}

-- The button that changes between a code and a recovery code.
unfoldable pub toggle_recovery : LoginPage → LoginPage
toggle_recovery p = record p { use_recovery = not p.use_recovery; code = []; error = none }

-- ===== src/Login/Tests.antt =====
-- Answers of the server to the first step, on which the theorems are used.
use tlsentinel_server.Common.{ℕ, [], true, false, none, some, Option, ◌≡◌, refl, arith}
use tlsentinel_server.Text.{codes}
use tlsentinel_server.Json.{Json, null}
use tlsentinel_server.Types.Users.{LoginResponse}
use tlsentinel_server.Client.{HttpRequest, HttpResponse, load, is_json}
use tlsentinel_server.Text.Parts.{includes_text, starts_with}
use tlsentinel_server.Login.{LoginPage, credentials, opened, totp, handle_credentials}
use tlsentinel_server.Login.Outcomes.{
  open_page, sign_in, Asks, Reach-Asks, handle_credentials-challenge,
}

abbrev answer : ℕ → HttpResponse
answer status = record {
  status = status;
  status_text = [];
  content_type = some (codes "application/json");
  text = [];
  json = some null;
}

abbrev always : HttpResponse → HttpRequest → Option HttpResponse
always r q = some r

abbrev asks_for_code : Json → LoginResponse
asks_for_code v = record {
  token = [];
  challenge_token = some (codes "c1");
  totp_required = some true;
}

abbrev page : LoginPage
page = record {
  username = codes "ann ";
  password = codes "pw";
  error = none;
  loading = false;
  step = credentials;
  challenge_token = none;
  code = [];
  use_recovery = false;
  browser = load none;
  at_home = false;
}

json_answered : is_json (answer 200).content_type ≡ true
unfolding includes_text starts_with
json_answered = refl

handle_credentials-challenge_example :
    handle_credentials (always (answer 200)) asks_for_code page ≡ record page {
      error = none;
      loading = false;
      step = totp;
      challenge_token = some (codes "c1");
    }
handle_credentials-challenge_example =
    handle_credentials-challenge (always (answer 200)) asks_for_code page (answer 200) null
      (codes "c1") refl (omega arith) (omega arith) json_answered refl refl refl

Reach-Asks_example :
    Asks (handle_credentials (always (answer 200)) asks_for_code (opened (load none)))
Reach-Asks_example =
    Reach-Asks (always (answer 200)) asks_for_code (sign_in (open_page (load none)))

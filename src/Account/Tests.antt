-- ===== src/Account/Tests.antt =====
-- Answers of the server on which the theorems on the account pages are used.
use tlsentinel_server.Common.{ℕ, true, false, [], ◌∷◌, Option, none, some, ◌≡◌, refl, arith}
use tlsentinel_server.Text.{Text, codes}
use tlsentinel_server.Text.Numbers.{pos}
use tlsentinel_server.Json.{null}
use tlsentinel_server.Client.{HttpRequest, HttpResponse, load, Method, get}
use tlsentinel_server.Account.Password.{PasswordPage, save}
use tlsentinel_server.Account.Password.Outcomes.{signed_out, save-unauthorized}
use tlsentinel_server.Account.TwoFactor.{TwoFactor, Reading, opened, submit_disable}
use tlsentinel_server.Account.TwoFactor.Refused.{submit_disable-unauthorized}

abbrev answer : ℕ → HttpResponse
answer status = record {
  status = status;
  status_text = [];
  content_type = some (codes "application/json");
  text = [];
  json = some null;
}

abbrev always : HttpResponse → HttpRequest → Option HttpResponse
always r q = some r

abbrev on_method : Method → Option HttpResponse
on_method get = none
on_method _ = some (answer 200)

-- Answers all but calls with the method GET.
abbrev unless_get : HttpRequest → Option HttpResponse
unless_get q = on_method q.method

abbrev reading : Reading
reading = record {
  setup = λ v. record { secret = codes "S"; uri = codes "otpauth:" };
  status = λ v. record { enabled = true; remaining_recovery_codes = pos 8 };
  verified = λ v. record { recovery_codes = codes "r1" ∷ [] };
}

abbrev drawing : Text → Option Text
drawing uri = some (codes "data:")

abbrev password_page : PasswordPage
password_page = record {
  current_password = codes "wrong";
  new_password = codes "new-password";
  confirm_password = codes "new-password";
  saving = false;
  error = none;
  success = false;
  browser = load (some (codes "t"));
}

save-unauthorized_example :
    ((save (always (answer 401)) password_page).success ≡ true)
    × ((save (always (answer 401)) password_page).error ≡ none)
    × ((save (always (answer 401)) password_page).browser ≡ signed_out)
save-unauthorized_example =
    save-unauthorized (always (answer 401)) password_page (answer 401) refl (omega arith) refl refl

abbrev page : TwoFactor
page = record (opened none (load (some (codes "t")))) { verify_code = codes "123456 " }

submit_disable-unauthorized_example :
    let q = submit_disable (always (answer 401)) reading drawing page in
    (q.disable_open ≡ false) × (q.dialog_error ≡ none) × (q.browser ≡ signed_out)
submit_disable-unauthorized_example =
    submit_disable-unauthorized (always (answer 401)) reading drawing page (answer 401) refl refl

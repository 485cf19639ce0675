-- ===== src/Account/Password.antt =====
-- web/src/pages/account/AccountPasswordPage.tsx: the change of the password.
pub mod Outcomes
use tlsentinel_server.Common.{
  ℕ, Bool, true, false, not, [], Option, none, some, ltb, if◌then◌else◌, length,
}
use tlsentinel_server.Text.{Text, codes, text_eq}
use tlsentinel_server.Client.{Browser, HttpRequest, HttpResponse, Outcome, request}
use tlsentinel_server.Api.Users.{change_my_password}
use tlsentinel_server.Account.{is_fulfilled}

pub record PasswordPage : Type 0 where
  pub current_password : Text
  pub new_password : Text
  pub confirm_password : Text
  pub saving : Bool
  pub error : Option Text
  pub success : Bool
  pub browser : Browser

abbrev pub form_error : PasswordPage → Option Text
form_error p =
    if not (text_eq p.new_password p.confirm_password)
    then some (codes "Passwords do not match.")
    else if ltb (length p.new_password) 8
    then some (codes "Password must be at least 8 characters.")
    else none

-- `save` behind its `await`.
unfoldable pub settled : Outcome × Browser → PasswordPage → PasswordPage
settled (o, b) p =
    if is_fulfilled o
    then record p {
      browser = b;
      current_password = [];
      new_password = [];
      confirm_password = [];
      success = true;
      saving = false;
    }
    else record p {
      browser = b;
      error = some (codes "Failed to update password. Check your current password and try again.");
      saving = false;
    }

module _ (server : HttpRequest → Option HttpResponse) where
  -- On the error of the form, if any.
  unfoldable pub save_checked : Option Text → PasswordPage → PasswordPage
  unfolding settled
  save_checked (some e) p = record p { error = some e; success = false }
  save_checked none p =
      settled (request server (change_my_password p.current_password p.new_password) p.browser)
        (record p { error = none; success = false; saving = true })

  unfoldable pub save : PasswordPage → PasswordPage
  unfolding save_checked
  save p = save_checked (form_error p) p

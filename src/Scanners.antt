-- ===== src/Scanners.antt =====
-- web/src/pages/settings/ScannersPage.tsx: the dialogs that create, edit, renew and revoke a
-- scanner, and the page that shows the token of a scanner once.
pub mod Tokens
mod Tests
use tlsentinel_server.Common.{
  ℕ, ◌+◌, Bool, true, false, ◌||◌, not, List, [], ◌∷◌, ◌++◌, Option, none, some, if◌then◌else◌,
}
use tlsentinel_server.Text.{Text, codes, is_empty, text_eq, trim}
use tlsentinel_server.Text.Numbers.{ℤ, pos, less}
use tlsentinel_server.Page.{
  Answer, answered, refused, broken, Effect, called, Async, ◌>>=◌, ◌>>◌, await, receive, when,
  error_text,
}
use tlsentinel_server.Types.Scanners.{ScannerToken, ScannerTokenCreated, ScannerTokenRegenerated}
use tlsentinel_server.Api.Scanners.{
  list_scanners, create_scanner, update_scanner, set_default_scanner, regenerate_scanner_token,
  delete_scanner,
}
use tlsentinel_server.Settings.Thresholds.{equals}

-- The server, as far as the page asks it.
pub record Server : Type 0 where
  pub create : Text → Answer ScannerTokenCreated
  pub update : Text → Text → Text → ℤ → Answer ScannerToken
  pub set_default : Text → Answer (Unit {0})
  pub regenerate : Text → Answer ScannerTokenRegenerated
  pub delete : Text → Answer (Unit {0})

-- The form of a scanner, of CreateDialog and EditScannerDialog; `threads` is `concurrency` there.
pub record ScannerForm : Type 0 where
  pub name : Text
  pub cron_expr : Text
  pub threads : ℤ
  pub submitting : Bool
  pub error : Option Text

abbrev pub hourly : Text
hourly = codes "0 * * * *"

abbrev pub created_form : ScannerForm
created_form = record {
  name = [];
  cron_expr = codes "0 2 * * *";
  threads = pos 5;
  submitting = false;
  error = none;
}

abbrev pub edited_form : ScannerToken → ScannerForm
edited_form s = record {
  name = s.name;
  cron_expr = s.scan_cron_expression;
  threads = s.scan_concurrency;
  submitting = false;
  error = none;
}

pub data Badge : Type 0 where
  created : Badge
  rotated : Badge

pub record ScannersPage : Type 0 where
  pub add_seq : ℕ
  pub add_open : Bool
  pub reveal_token : Option Text
  pub reveal_badge : Badge
  pub edit_target : Option ScannerToken
  pub regen_target : Option ScannerToken
  pub delete_target : Option ScannerToken
  pub mutation_error : Option Text

abbrev pub form_error : ScannerForm → Option Text
form_error d =
    if is_empty (trim d.name)
    then some (codes "Name is required.")
    else if less d.threads (pos 1)
    then some (codes "Threads must be at least 1.")
    else none

-- The test for a second call, since the first takes the name alone.
unfoldable pub is_customised : ScannerForm → Bool
is_customised d = not (text_eq d.cron_expr hourly) || not (equals d.threads (pos 5))

-- `handleCreated` and `handleRegenerated`; the first also reads the list again.
abbrev pub handle_created : ScannerTokenCreated → ScannersPage → ScannersPage
handle_created c p = record p { reveal_badge = created; reveal_token = some c.token }

abbrev pub handle_regenerated : Text → ScannersPage → ScannersPage
handle_regenerated token p = record p { reveal_badge = rotated; reveal_token = some token }

unfoldable pub open_regenerate : ScannerToken → ScannersPage → ScannersPage
open_regenerate s p = record p { edit_target = none; regen_target = some s }

-- `refetch()`.
abbrev pub refetch : List Effect
refetch = called list_scanners ∷ []

abbrev pub done : {A : Type 0} → A → Async A
done a = ([], answered a)

-- Behind the calls of CreateDialog: `onCreated(created); onClose()`, or the error.
abbrev pub create_settled :
    Answer ScannerTokenCreated
    → ScannerForm × ScannersPage
    → (ScannerForm × ScannersPage) × List Effect
create_settled (answered c) (d, p) =
    ((record d { submitting = false }, record (handle_created c p) { add_open = false }), refetch)
create_settled end (d, p) = (
  (record d { error = error_text (codes "Failed to create scanner.") end; submitting = false }, p),
  [],
)

-- Behind the call of EditScannerDialog: `onSaved(); onClose()`, or the error.
abbrev update_settled :
    Answer (Unit {0}) → ScannerForm × ScannersPage → (ScannerForm × ScannersPage) × List Effect
update_settled (answered _) (d, p) =
    ((record d { submitting = false }, record p { edit_target = none }), refetch)
update_settled end (d, p) = (
  (record d { error = error_text (codes "Failed to update scanner.") end; submitting = false }, p),
  [],
)

-- RegenerateDialog and DeleteDialog.
pub record Confirm : Type 0 where
  pub loading : Bool
  pub error : Option Text

abbrev regenerate_settled :
    Answer ScannerTokenRegenerated → Confirm × ScannersPage → Confirm × ScannersPage
regenerate_settled (answered r) (d, p) =
    (record d { loading = false }, record (handle_regenerated r.token p) { regen_target = none })
regenerate_settled end (d, p) = (
  record d {
    error = error_text (codes "Failed to regenerate scanner token.") end;
    loading = false;
  },
  p,
)

abbrev delete_settled :
    Answer (Unit {0}) → Confirm × ScannersPage → (Confirm × ScannersPage) × List Effect
delete_settled (answered _) (d, p) =
    ((record d { loading = false }, record p { delete_target = none }), refetch)
delete_settled end (d, p) = (
  (
    record d { error = error_text (codes "Failed to revoke scanner token.") end; loading = false },
    p,
  ),
  [],
)

module _ (server : Server) where
  -- The calls of CreateDialog.
  unfoldable pub create_calls : ScannerForm → Async ScannerTokenCreated
  create_calls d = do
    c ← receive (create_scanner (trim d.name)) (server.create (trim d.name))
    when (is_customised d) (
        await (update_scanner c.id (trim d.name) d.cron_expr d.threads)
          (server.update c.id (trim d.name) d.cron_expr d.threads))
    done c

  -- `handleSubmit` of CreateDialog.
  unfoldable pub submit_create :
      ScannerForm → ScannersPage → (ScannerForm × ScannersPage) × List Effect
  unfolding create_calls
  submit_create d p = elim (form_error d) [
    | some e ↦ ((record d { error = some e }, p), [])
    | none ↦
        let (effects, end) = create_calls d in
        let (after, more) = create_settled end (record d { submitting = true; error = none }, p) in
        (after, effects ++ more)
  ]

  -- `handleSubmit` of EditScannerDialog, for its scanner if any.
  unfoldable pub submit_edit :
      Option ScannerToken → ScannerForm → ScannersPage → (ScannerForm × ScannersPage) × List Effect
  submit_edit none d p = ((d, p), [])
  submit_edit (some s) d p = elim (form_error d) [
    | some e ↦ ((record d { error = some e }, p), [])
    | none ↦
        let (effects, end) =
          await (update_scanner s.id (trim d.name) d.cron_expr d.threads)
            (server.update s.id (trim d.name) d.cron_expr d.threads) in
        let (after, more) = update_settled end (record d { submitting = true; error = none }, p) in
        (after, effects ++ more)
  ]

  unfoldable pub handle_regenerate :
      Option ScannerToken → Confirm → ScannersPage → (Confirm × ScannersPage) × List Effect
  handle_regenerate none d p = ((d, p), [])
  handle_regenerate (some s) d p = (
    regenerate_settled (server.regenerate s.id) (record d { loading = true; error = none }, p),
    called (regenerate_scanner_token s.id) ∷ [],
  )

  unfoldable pub handle_delete :
      Option ScannerToken → Confirm → ScannersPage → (Confirm × ScannersPage) × List Effect
  handle_delete none d p = ((d, p), [])
  handle_delete (some s) d p =
      let (after, more) =
        delete_settled (server.delete s.id) (record d { loading = true; error = none }, p) in
      (after, called (delete_scanner s.id) ∷ more)

  abbrev default_settled : Answer (Unit {0}) → ScannersPage → ScannersPage
  default_settled (answered _) p = p
  default_settled end p = record p {
    mutation_error = error_text (codes "Failed to set default scanner.") end;
  }

  -- `handleSetDefault`, which reads the list again in any case.
  unfoldable pub handle_set_default : ScannerToken → ScannersPage → ScannersPage × List Effect
  handle_set_default s p =
      (default_settled (server.set_default s.id) p, called (set_default_scanner s.id) ∷ refetch)

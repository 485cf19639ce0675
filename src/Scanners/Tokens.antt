-- ===== src/Scanners/Tokens.antt =====
-- When web/src/pages/settings/ScannersPage.tsx shows the token of a scanner that it created, and
-- when the token is lost.
use tlsentinel_server.Common.{
  Bool, true, false, [], ◌∷◌, none, some, ◌≡◌, ◌≢◌, ◌↔◌, ◌⊎◌, inl, inr, refl, ap, arith, Bool-cases,
}
use tlsentinel_server.Text.{Text, text_eq_iff, trim}
use tlsentinel_server.Text.Numbers.{pos, less}
use tlsentinel_server.Page.{Answer, answered, refused, called, ◌>>=◌, await, when}
use tlsentinel_server.Client.{Call}
use tlsentinel_server.Settings.Thresholds.Invariant.{equals_iff}
use tlsentinel_server.EndpointForm.Outcomes.{is_empty_iff}
use tlsentinel_server.Types.Scanners.{ScannerToken, ScannerTokenCreated}
use tlsentinel_server.Api.Scanners.{create_scanner, update_scanner}
use tlsentinel_server.Scanners.{
  Server, ScannerForm, ScannersPage, form_error, is_customised, hourly, create_calls, done,
  submit_create,
}

-- What the form needs.
abbrev pub IsComplete : ScannerForm → Type 0
IsComplete d = (trim d.name ≢ []) × (less d.threads (pos 1) ≡ false)

form_error-eq-none_iff : (d : ScannerForm) → (form_error d ≡ none) ↔ IsComplete d
form_error-eq-none_iff d = ground (arith, is_empty_iff (trim d.name))

-- The schedule and the threads that the server gives a new scanner itself.
abbrev pub IsDefault : ScannerForm → Type 0
IsDefault d = (d.cron_expr ≡ hourly) × (d.threads ≡ pos 5)

is_customised_iff : (d : ScannerForm) → (is_customised d ≡ false) ↔ IsDefault d
unfolding is_customised
is_customised_iff d = ground (arith, text_eq_iff d.cron_expr hourly, equals_iff d.threads (pos 5))

is_customised_of : (d : ScannerForm) → ¬ IsDefault d → is_customised d ≡ true
is_customised_of d h = elim (Bool-cases (is_customised d)) [
  | inl e ↦ e
  | inr e ↦ absurd (h ((is_customised_iff d).0 e))
]

module _ (server : Server) where
  -- The calls that set the schedule and the threads, where these are not the ones of the server.
  abbrev pub Configures : ScannerForm → ScannerTokenCreated → Type 0
  Configures d c =
      IsDefault d
      ⊎ ((s : ScannerToken) × (server.update c.id (trim d.name) d.cron_expr d.threads ≡ answered s))

  abbrev pub Created : ScannerForm → ScannerTokenCreated → Type 0
  Created d c = (server.create (trim d.name) ≡ answered c) × Configures d c

  second_refused :
      (b : Bool) (u : Answer ScannerToken) (call : Call) (c : ScannerTokenCreated) (message : Text)
      → b ≡ true
      → u ≡ refused message
      → (when b (await call u) >>= λ _. done c) ≡ (called call ∷ [], refused message)
  second_refused b u call c message e k = rw (e, k) refl

  create_calls-refused :
      (d : ScannerForm) (c : ScannerTokenCreated) (message : Text)
      → server.create (trim d.name) ≡ answered c
      → is_customised d ≡ true
      → server.update c.id (trim d.name) d.cron_expr d.threads ≡ refused message
      → create_calls server d ≡ (
        called (create_scanner (trim d.name))
            ∷ called (update_scanner c.id (trim d.name) d.cron_expr d.threads)
            ∷ [],
        refused message,
      )
  unfolding create_calls
  create_calls-refused d c message made custom late =
      let more =
        second_refused (is_customised d) (server.update c.id (trim d.name) d.cron_expr d.threads)
          (update_scanner c.id (trim d.name) d.cron_expr d.threads) c message custom late in
      rw (made, create_calls) (ap (λ m. (called (create_scanner (trim d.name)) ∷ m.0, m.1)) more)

  -- A scanner that is created, and whose schedule and threads, other than the hourly one and five,
  -- are refused, is not shown with its token: the page is as it was, the form stays with the error,
  -- and to submit it once more creates another scanner.
  pub submit_create_lost :
      (d : ScannerForm) (p : ScannersPage) (c : ScannerTokenCreated) (message : Text)
      → IsComplete d
      → ¬ IsDefault d
      → server.create (trim d.name) ≡ answered c
      → server.update c.id (trim d.name) d.cron_expr d.threads ≡ refused message
      → let failed = record d { submitting = false; error = some message } in
        let calls =
          called (create_scanner (trim d.name))
          ∷ called (update_scanner c.id (trim d.name) d.cron_expr d.threads)
          ∷ [] in
        (submit_create server d p ≡ ((failed, p), calls))
        × (submit_create server failed p ≡ ((failed, p), calls))
  unfolding submit_create is_customised
  submit_create_lost d p c message h other made late =
      let custom = is_customised_of d other in
      let none_shown = (form_error-eq-none_iff d).1 h in
      let failed = record d { submitting = false; error = some message } in
      (
        rw (none_shown, submit_create, create_calls-refused d c message made custom late) refl,
        rw (none_shown, submit_create, create_calls-refused failed c message made custom late) refl,
      )

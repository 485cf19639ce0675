-- ===== src/Scanners/Tests.antt =====
-- A scanner on which the theorems on the page of scanners are used: its creation works, and the call
-- that sets its schedule is refused.
use tlsentinel_server.Common.{true, false, [], ◌∷◌, none, some, ◌≡◌, refl, arith}
use tlsentinel_server.Text.{codes, trim, trim_start, is_space}
use tlsentinel_server.Text.Numbers.{pos}
use tlsentinel_server.Page.{answered, refused, broken, called}
use tlsentinel_server.Types.Scanners.{ScannerTokenCreated}
use tlsentinel_server.Api.Scanners.{create_scanner, update_scanner}
use tlsentinel_server.Scanners.{
  Server, ScannerForm, ScannersPage, created, created_form, submit_create,
}
use tlsentinel_server.Scanners.Tokens.{IsComplete, IsDefault, submit_create_lost}

abbrev edge : ScannerTokenCreated
edge = record {
  scanner_token = record {
    id = codes "s1";
    name = codes "Edge";
    is_default = false;
    scan_cron_expression = codes "0 * * * *";
    scan_concurrency = pos 5;
    created_at = [];
    last_used_at = none;
  };
  token = codes "secret";
}

abbrev server : Server
server = record {
  create = λ name. answered edge;
  update = λ id name cron threads. refused (codes "bad schedule");
  set_default = λ id. broken;
  regenerate = λ id. broken;
  delete = λ id. broken;
}

abbrev typed : ScannerForm
typed = record created_form { name = codes "Edge" }

abbrev page : ScannersPage
page = record {
  add_seq = 1;
  add_open = true;
  reveal_token = none;
  reveal_badge = created;
  edit_target = none;
  regen_target = none;
  delete_target = none;
  mutation_error = none;
}

typed-IsComplete : IsComplete typed
unfolding trim trim_start is_space
typed-IsComplete = ((λ e. ground arith), refl)

typed-ne-IsDefault : ¬ IsDefault typed
typed-ne-IsDefault (e, _) = ground arith

submit_create_lost_example :
    let failed = record typed { submitting = false; error = some (codes "bad schedule") } in
    let calls =
      called (create_scanner (trim typed.name))
      ∷ called (update_scanner (codes "s1") (trim typed.name) typed.cron_expr typed.threads)
      ∷ [] in
    (submit_create server typed page ≡ ((failed, page), calls))
    × (submit_create server failed page ≡ ((failed, page), calls))
submit_create_lost_example =
    submit_create_lost server typed page edge (codes "bad schedule") typed-IsComplete
      typed-ne-IsDefault refl refl

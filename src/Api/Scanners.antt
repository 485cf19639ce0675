-- ===== src/Api/Scanners.antt =====
-- web/src/api/scanners.ts: scanners.
use tlsentinel_server.Common.{List, none, some, [], ◌∷◌, ◌++◌}
use tlsentinel_server.Text.{Text, codes}
use tlsentinel_server.Text.Numbers.{ℤ}
use tlsentinel_server.Json.{str, num, object}
use tlsentinel_server.Client.{Promise, api_get, api_post, api_put, api_patch, api_delete}
use tlsentinel_server.Types.Scanners.{
  PatchScannerRequest, ScannerToken, ScannerTokenCreated, ScannerTokenRegenerated,
  patch_scanner_request_json,
}

pub list_scanners : Promise (List ScannerToken)
list_scanners = api_get (codes "/scanners")

pub create_scanner : (name : Text) → Promise ScannerTokenCreated
create_scanner name =
    api_post (codes "/scanners") (some (object ((codes "name", some (str name)) ∷ [])))

pub update_scanner :
    (id : Text) (name : Text) (scan_cron_expression : Text) (scan_concurrency : ℤ)
    → Promise ScannerToken
update_scanner id name scan_cron_expression scan_concurrency = api_put (codes "/scanners/" ++ id) (
    some (
      object (
        (codes "name", some (str name))
        ∷ (codes "scanCronExpression", some (str scan_cron_expression))
        ∷ (codes "scanConcurrency", some (num scan_concurrency))
        ∷ [])))

pub patch_scanner : (id : Text) (req : PatchScannerRequest) → Promise ScannerToken
patch_scanner id req = api_patch (codes "/scanners/" ++ id) (some (patch_scanner_request_json req))

pub set_default_scanner : (id : Text) → Promise (Unit {0})
set_default_scanner id =
    api_post (codes "/scanners/" ++ (id ++ (codes "/default"))) (some (object []))

pub regenerate_scanner_token : (id : Text) → Promise ScannerTokenRegenerated
regenerate_scanner_token id =
    api_post (codes "/scanners/" ++ (id ++ (codes "/regenerate-token"))) (some (object []))

pub delete_scanner : (id : Text) → Promise (Unit {0})
delete_scanner id = api_delete (codes "/scanners/" ++ id) none

-- ===== src/Api/Utils.antt =====
-- web/src/api/utils.ts: name resolution.
use tlsentinel_server.Common.{Option, none, some, ◌++◌}
use tlsentinel_server.Text.{Text, codes}
use tlsentinel_server.Query.{encode_uri_component}
use tlsentinel_server.Client.{Promise, api_get}
use tlsentinel_server.Types.Reports.{ResolveResponse}

unfoldable pub resolve : (hostname : Text) → Option (Promise ResolveResponse)
resolve hostname = elim (encode_uri_component hostname) [
  | none ↦ none
  | some encoded ↦ some (api_get (codes "/utils/resolve?hostname=" ++ encoded))
]

-- ===== src/Api/Search.antt =====
-- web/src/api/search.ts: the universal search.
use tlsentinel_server.Common.{Option, none, some, ◌++◌}
use tlsentinel_server.Text.{Text, codes}
use tlsentinel_server.Query.{encode_uri_component}
use tlsentinel_server.Client.{Promise, api_get}
use tlsentinel_server.Types.Certificates.{SearchResults}

unfoldable pub universal_search : (q : Text) → Option (Promise SearchResults)
universal_search q = elim (encode_uri_component q) [
  | none ↦ none
  | some encoded ↦ some (api_get (codes "/search?q=" ++ encoded))
]

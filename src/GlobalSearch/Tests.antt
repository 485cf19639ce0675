-- ===== src/GlobalSearch/Tests.antt =====
-- A search with three results, on which the theorems on the search box are used.
use tlsentinel_server.Common.{true, [], ◌∷◌, some}
use tlsentinel_server.Text.{codes}
use tlsentinel_server.Types.Certificates.{SearchResults}
use tlsentinel_server.GlobalSearch.{Search}

abbrev found : SearchResults
found = record {
  endpoints =
      record { id = codes "e1"; name = codes "API"; type = codes "host"; subtitle = codes "a.org" }
      ∷ [];
  certificates = record { fingerprint = codes "ab"; common_name = []; not_after = [] } ∷ [];
  scanners = record { id = codes "s1"; name = codes "Edge" } ∷ [];
}

abbrev shown : Search
shown = record {
  query = codes "a";
  debounced = codes "a.o";
  open_list = true;
  active_idx = 2;
  results = some found;
}

-- ===== src/Api/Tests.antt =====
-- The theorems on calls at concrete filters.
use tlsentinel_server.Common.{[], ◌++◌, some, ◌≡◌, refl, arith}
use tlsentinel_server.Text.{codes, join}
use tlsentinel_server.Text.Numbers.{pos, show_int}
use tlsentinel_server.Query.{to_query, set_given, encode_uri_component}
use tlsentinel_server.Query.Params.{given}
use tlsentinel_server.Client.{api_get}
use tlsentinel_server.Api.Endpoints.{host, any_protocol, list_endpoints}
use tlsentinel_server.Api.Search.{universal_search}
use tlsentinel_server.Api.Queries.{Asks, paged, endpoint_filters, list_endpoints-Asks}

list_endpoints-Asks_example :
    Asks
      (list_endpoints (pos 2) (pos 20) (codes "a&b") [] (codes "name") [] host any_protocol []).path
      (codes "/endpoints")
      (paged (pos 2) (pos 20)
        ++ given (endpoint_filters (codes "a&b") [] (codes "name") [] host any_protocol []))
list_endpoints-Asks_example =
    list_endpoints-Asks (pos 2) (pos 20) (codes "a&b") [] (codes "name") [] [] host any_protocol
      (omega arith)

searched : universal_search (codes "a b") ≡ some (api_get (codes "/search?q=a%20b"))
unfolding universal_search encode_uri_component
searched = refl

filtered :
    (list_endpoints (pos 2) (pos 20) (codes "a&b") [] [] [] host any_protocol []).path
    ≡ codes "/endpoints?page=2&page_size=20&name=a%26b&type=host"
unfolding list_endpoints to_query set_given show_int join
filtered = refl

-- ===== src/Api/Queries.antt =====
-- What the server reads from the address of a call that lists: the page, and the filters that are
-- set. The decoder is the one of Query/Decode.antt.
use tlsentinel_server.Common.{
  ℕ, Bool, true, false, List, [], ◌∷◌, ◌++◌, map, some, ◌≡◌, refl, ap, ◌∙◌, arith, All, All-append,
  if◌then◌else◌, Option-cases, inl, inr, keep, not,
}
use mathlib.Core.Option.{some-injective}
use tlsentinel_server.Text.{Text, codes, text_eq, is_empty, join}
use tlsentinel_server.Text.Parts.{split-join}
use tlsentinel_server.Text.Numbers.{ℤ, show_int}
use tlsentinel_server.Text.Numbers.Laws.{show_int-below}
use tlsentinel_server.Query.{to_query, set_all, encode_uri_component, utf8}
use tlsentinel_server.Query.Decode.{
  IsUnits, cut, decode, plain, parse_query, parse_pair, sequence, both, Separates,
}
use tlsentinel_server.Query.RoundTrip.{
  pair_bytes, AreUnits, parse_query-to_query, decode-encode_uri_component,
}
use tlsentinel_server.Query.Params.{given, keys, distinct, set_all-given, given-AreUnits}
use tlsentinel_server.Client.{Call, api_get}
use tlsentinel_server.Api.Endpoints.{
  EndpointTypeFilter, endpoint_type_filter_text, any_type, host, saml, manual, ProtocolFilter,
  protocol_filter_text, any_protocol, ssl30, tls10, tls11, tls12, tls13, list_endpoints,
}
use tlsentinel_server.Api.Discovery.{list_discovery_inbox}
use tlsentinel_server.Api.Users.{list_users}
use tlsentinel_server.Api.Search.{universal_search}

-- The address is the path, and its query decodes to these names and values.
abbrev pub Asks : Text → Text → List (Text × Text) → Type 0
Asks address path ps =
    ((cut b'?' address).0 ≡ path) × (parse_query (cut b'?' address).1 ≡ some (map pair_bytes ps))

abbrev pub paged : ℤ → ℤ → List (Text × Text)
paged page page_size = (codes "page", show_int page) ∷ (codes "page_size", show_int page_size) ∷ []

paged-AreUnits : (page page_size : ℤ) → AreUnits (paged page page_size)
paged-AreUnits page page_size =
    ((omega arith, show_int-below page), ((omega arith, show_int-below page_size), tt))

parse_set_all :
    (r ps : List (Text × Text))
    → distinct ((keys ps) ++ keys r) ≡ true
    → AreUnits ps
    → AreUnits r
    → parse_query (to_query (set_all r ps)) ≡ some (map pair_bytes (ps ++ given r))
parse_set_all r ps d hp hr =
    ap (λ qs. parse_query (to_query qs)) (set_all-given r ps d)
    ∙ parse_query-to_query _ (All-append _ ps (given r) hp (given-AreUnits r hr))

type-IsUnits : (type : EndpointTypeFilter) → IsUnits (endpoint_type_filter_text type)
type-IsUnits any_type = tt
type-IsUnits host = omega arith
type-IsUnits saml = omega arith
type-IsUnits manual = omega arith

protocol-IsUnits : (protocol : ProtocolFilter) → IsUnits (protocol_filter_text protocol)
protocol-IsUnits any_protocol = tt
protocol-IsUnits ssl30 = omega arith
protocol-IsUnits tls10 = omega arith
protocol-IsUnits tls11 = omega arith
protocol-IsUnits tls12 = omega arith
protocol-IsUnits tls13 = omega arith

abbrev pub endpoint_filters :
    Text → Text → Text → Text → EndpointTypeFilter → ProtocolFilter → Text → List (Text × Text)
endpoint_filters name status sort tag_id type protocol cipher =
    (codes "name", name)
    ∷ (codes "status", status)
    ∷ (codes "sort", sort)
    ∷ (codes "tag_id", tag_id)
    ∷ (codes "type", endpoint_type_filter_text type)
    ∷ (codes "protocol", protocol_filter_text protocol)
    ∷ (codes "cipher", cipher)
    ∷ []

-- Listing endpoints asks for the page and, in this order, for each filter that is set; a filter
-- that is empty is not sent.
pub list_endpoints-Asks :
    (page page_size : ℤ) (name status sort tag_id cipher : Text) (type : EndpointTypeFilter)
    (protocol : ProtocolFilter)
    → All IsUnits (name ∷ status ∷ sort ∷ tag_id ∷ cipher ∷ [])
    → Asks
        (list_endpoints page page_size name status sort tag_id type protocol cipher).path
        (codes "/endpoints")
        (paged page page_size
          ++ given (endpoint_filters name status sort tag_id type protocol cipher))
unfolding list_endpoints cut text_eq
list_endpoints-Asks page page_size name status sort tag_id cipher type protocol
      (hn, (hs, (ho, (ht, (hc, _))))) =
    (
      refl,
      parse_set_all (endpoint_filters name status sort tag_id type protocol cipher)
          (paged page page_size) refl (paged-AreUnits page page_size)
          (
            (omega arith, hn),
            (
              (omega arith, hs),
              (
                (omega arith, ho),
                (
                  (omega arith, ht),
                  (
                    (omega arith, type-IsUnits type),
                    ((omega arith, protocol-IsUnits protocol), ((omega arith, hc), tt)),
                  ),
                ),
              ),
            ),
          ),
    )

-- Listing users asks for the page and for each filter that is set.
pub list_users-Asks :
    (page page_size : ℤ) (search role provider sort : Text)
    → All IsUnits (search ∷ role ∷ provider ∷ sort ∷ [])
    → Asks (list_users page page_size search role provider sort).path (codes "/users") (
        paged page page_size
        ++ given (
            (codes "search", search)
            ∷ (codes "role", role)
            ∷ (codes "provider", provider)
            ∷ (codes "sort", sort)
            ∷ []))
unfolding list_users cut text_eq
list_users-Asks page page_size search role provider sort (hs, (hr, (hp, (ho, _)))) = (
  refl,
  parse_set_all
      ((codes "search", search)
        ∷ (codes "role", role)
        ∷ (codes "provider", provider)
        ∷ (codes "sort", sort)
        ∷ [])
      (paged page page_size) refl (paged-AreUnits page page_size)
      ((omega arith, hs), ((omega arith, hr), ((omega arith, hp), ((omega arith, ho), tt)))),
)

abbrev flag : Bool → Text
flag b = if b then codes "true" else []

flag-IsUnits : (b : Bool) → IsUnits (flag b)
flag-IsUnits true = omega arith
flag-IsUnits false = tt

-- Listing the inbox asks for the page, the network and the status if they are set, and for the
-- dismissed items only on request.
pub list_discovery_inbox-Asks :
    (page page_size : ℤ) (network_id status : Text) (show_dismissed : Bool)
    → IsUnits network_id
    → IsUnits status
    → Asks
        (list_discovery_inbox page page_size network_id status show_dismissed).path
        (codes "/discovery/inbox")
        (paged page page_size
          ++ (given ((codes "network_id", network_id) ∷ (codes "status", status) ∷ [])
              ++ (if show_dismissed then (codes "show_dismissed", codes "true") ∷ [] else [])))
unfolding list_discovery_inbox cut text_eq
list_discovery_inbox-Asks page page_size network_id status show_dismissed hn hs = (
  refl,
  parse_set_all (filters show_dismissed) (paged page page_size) refl (paged-AreUnits page page_size)
        ((omega arith, hn), ((omega arith, hs), ((omega arith, flag-IsUnits show_dismissed), tt)))
      ∙ ap (λ qs. some (map pair_bytes (paged page page_size ++ qs)))
          (split_flag network_id status show_dismissed),
)
  where
    filters : Bool → List (Text × Text)
    filters b =
        (codes "network_id", network_id)
        ∷ (codes "status", status)
        ∷ (codes "show_dismissed", flag b)
        ∷ []

    split_flag :
        (n s : Text) (b : Bool)
        → given
            ((codes "network_id", n) ∷ (codes "status", s) ∷ (codes "show_dismissed", flag b) ∷ [])
          ≡ given ((codes "network_id", n) ∷ (codes "status", s) ∷ [])
            ++ (if b then (codes "show_dismissed", codes "true") ∷ [] else [])
    split_flag [] [] true = refl
    split_flag [] [] false = refl
    split_flag [] (c ∷ s) true = refl
    split_flag [] (c ∷ s) false = refl
    split_flag (d ∷ n) [] true = refl
    split_flag (d ∷ n) [] false = refl
    split_flag (d ∷ n) (c ∷ s) true = refl
    split_flag (d ∷ n) (c ∷ s) false = refl

parse_query_q :
    (t : Text) {bs : List ℕ}
    → decode plain t ≡ some bs
    → Separates t
    → parse_query (codes "q=" ++ t) ≡ some ((utf8 (codes "q"), bs) ∷ [])
unfolding parse_query utf8 join
parse_query_q t read (amp, _) =
    ap (λ parts. sequence (map parse_pair (keep (λ s. not (is_empty s)) parts)))
      (split-join b'&' (codes "q=" ++ t) [] ((refl, (refl, amp)), tt))
    ∙ ap (λ v. sequence (both (some (b'q' ∷ [])) v ∷ [])) read

-- The universal search sends what was typed, whatever its units, as the one parameter `q`; it
-- throws only where a surrogate stands alone.
pub universal_search-Asks :
    (q : Text) {c : Call}
    → IsUnits q
    → universal_search q ≡ some c
    → ((cut b'?' c.path).0 ≡ codes "/search")
      × (parse_query (cut b'?' c.path).1 ≡ some ((utf8 (codes "q"), utf8 q) ∷ []))
unfolding universal_search cut
universal_search-Asks q {c} h e = elim (Option-cases (encode_uri_component q)) [
  | inl thrown ↦ absurd (cc (rw (thrown, universal_search) at e))
  | inr (t, encoded) ↦
      let (read, separates) = decode-encode_uri_component q h encoded in
      let same : api_get (codes "/search?q=" ++ t) ≡ c =
        some-injective _ _ (rw (encoded, universal_search) at e) in
      rw (← same) (refl, parse_query_q t read separates)
]

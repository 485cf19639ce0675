-- ===== src/Client.antt =====
-- web/src/api/client.ts: the session token and the fetch helper that every call of the API makes.
-- The state is the module's variable, the browser's storage and the page's address; the server, the
-- clock and the platform's decoders are parameters.
pub mod Session
pub mod Outcomes
mod Tests
use tlsentinel_server.Common.{
  ℕ, ◌*◌, ◌+◌, Bool, true, false, ◌&&◌, not, List, [], ◌∷◌, ◌++◌, Option, none, some, leb, ltb,
  ◌==◌, if◌then◌else◌, or_else, get_elem?,
}
use tlsentinel_server.Text.{Text, codes, is_empty, text_eq, trim, split, replace_all, join}
use tlsentinel_server.Text.Parts.{includes_text}
use tlsentinel_server.Text.Numbers.{ℤ, pos, negsuc}
use tlsentinel_server.Json.{Json, null, bool, num, str, arr, obj, member}
use tlsentinel_server.Permissions.{has_permission}

pub data Method : Type 0 where
  get post put patch delete : Method

pub record Call : Type 0 where
  pub method : Method
  pub path : Text
  pub body : Option Json

-- `Promise<T>`: a call that is still to be made. That its result has the type `T` is the client's
-- assertion, which nothing checks.
abbrev pub Promise : Type 0 → Type 0
Promise T = Call

-- The members of `api`.
abbrev pub api_get : Text → Call
api_get path = record { method = get; path = path; body = none }

abbrev pub api_post : Text → Option Json → Call
api_post path body = record { method = post; path = path; body = body }

abbrev pub api_put : Text → Option Json → Call
api_put path body = record { method = put; path = path; body = body }

abbrev pub api_patch : Text → Option Json → Call
api_patch path body = record { method = patch; path = path; body = body }

abbrev pub api_delete : Text → Option Json → Call
api_delete path body = record { method = delete; path = path; body = body }

-- What `fetch` is given; the body is the value that `JSON.stringify` prints.
pub record HttpRequest : Type 0 where
  pub method : Method
  pub url : Text
  pub headers : List (Text × Text)
  pub body : Option Json

-- `json` is `none` where the body is no JSON.
pub record HttpResponse : Type 0 where
  pub status : ℕ
  pub status_text : Text
  pub content_type : Option Text
  pub text : Text
  pub json : Option Json

-- `_token`, `localStorage['token']` and what was last assigned to `window.location.href`.
pub record Browser : Type 0 where
  pub token : Option Text
  pub stored : Option Text
  pub location : Option Text

-- The module's initialisation.
pub load : Option Text → Browser
load stored = record { token = stored; stored = stored; location = none }

unfoldable pub set_token : Text → Browser → Browser
set_token token b = record b { token = some token; stored = some token }

unfoldable pub clear_token : Browser → Browser
clear_token b = record b { token = none; stored = none }

-- A token that is neither null nor empty.
abbrev pub truthy : Option Text → Option Text
truthy none = none
truthy (some []) = none
truthy (some (c ∷ t)) = some (c ∷ t)

pub data Outcome : Type 0 where
  value : Json → Outcome
  undefined : Outcome
  api_error : ℕ → Text → Outcome
  -- `fetch` rejects, or the body is no JSON.
  network_error : Outcome
  syntax_error : Outcome

abbrev base : Text
base = codes "/api/v1"

abbrev json_type : Text
json_type = codes "application/json"

abbrev headers_of : Option Text → List (Text × Text)
headers_of none = (codes "Content-Type", json_type) ∷ []
headers_of (some t) =
    (codes "Content-Type", json_type) ∷ (codes "Authorization", codes "Bearer " ++ t) ∷ []

unfoldable pub http_request : Option Text → Call → HttpRequest
http_request token c = record {
  method = c.method;
  url = base ++ c.path;
  headers = headers_of (truthy token);
  body = c.body;
}

abbrev is_ok : HttpResponse → Bool
is_ok r = leb 200 r.status && leb r.status 299

abbrev parsed : Option Json → Outcome
parsed none = syntax_error
parsed (some v) = value v

-- `text.trim() || res.statusText`.
abbrev message_of : HttpResponse → Text
message_of r = if is_empty (trim r.text) then r.status_text else trim r.text

abbrev pub is_json : Option Text → Bool
is_json none = false
is_json (some t) = includes_text json_type t

pub handle_response : HttpResponse → Browser → Outcome × Browser
handle_response r b =
    if not (is_ok r)
    then if r.status == 401
      then (undefined, record (clear_token b) { location = some (codes "/login") })
      else (api_error r.status (message_of r), b)
    else if is_json r.content_type
    then (parsed r.json, b)
    else (undefined, b)

-- `none` is a rejected fetch.
unfoldable pub request : (HttpRequest → Option HttpResponse) → Call → Browser → Outcome × Browser
unfolding handle_response http_request clear_token
request server c b = elim (server (http_request b.token c)) [
  | none ↦ (network_error, b)
  | some r ↦ handle_response r b
]

-- The functions of the platform that the token's payload goes through.
pub record Platform : Type 0 where
  pub atob : Text → Option Text
  pub parse_json : Text → Option Json
  -- Milliseconds.
  pub date_now : ℕ
  -- `Number(v)`, where it is no NaN, and `String(v)`, of values that are no numbers.
  pub to_number : Json → Option ℤ
  pub to_text : Json → Text

module _ (p : Platform) where
  -- `JSON.parse(atob(token.split('.')[1].replace(/-/g, '+').replace(/_/g, '/')))`.
  pub payload : Text → Option Json
  payload token = elim (get_elem? (split b'.' token) 1) [
    | none ↦ none
    | some part ↦ elim (p.atob (replace_all b'_' (codes "/") (replace_all b'-' (codes "+") part))) [
      | none ↦ none
      | some s ↦ p.parse_json s
    ]
  ]

  is_truthy : Json → Bool
  is_truthy null = false
  is_truthy (bool b) = b
  is_truthy (num (pos n)) = not (n == 0)
  is_truthy (num (negsuc n)) = true
  is_truthy (str s) = not (is_empty s)
  is_truthy (arr xs) = true
  is_truthy (obj fs) = true

  abbrev seconds_after : Option ℤ → Bool
  seconds_after none = false
  seconds_after (some (pos n)) = ltb (1000 * n) p.date_now
  seconds_after (some (negsuc n)) = true

  -- `Date.now() / 1000 > exp`.
  is_past : Json → Bool
  is_past null = ltb 0 p.date_now
  is_past (bool true) = ltb 1000 p.date_now
  is_past (bool false) = ltb 0 p.date_now
  is_past (num z) = seconds_after (some z)
  is_past v = seconds_after (p.to_number v)

  -- `payload.exp && Date.now() / 1000 > payload.exp`; `none` is a throw.
  pub is_expired : Json → Option Bool
  is_expired v = elim (member (codes "exp") v) [
    | none ↦ none
    | some none ↦ some false
    | some (some exp) ↦ some (is_truthy exp && is_past exp)
  ]

  -- Throwing and being expired both clear the token.
  abbrev unless_expired : Option Bool → Browser → Bool × Browser
  unless_expired (some false) b = (true, b)
  unless_expired _ b = (false, clear_token b)

  pub has_token : Browser → Bool × Browser
  unfolding clear_token
  has_token b = elim (truthy b.token) [
    | none ↦ (false, b)
    | some t ↦ elim (payload t) [
      | none ↦ (false, clear_token b)
      | some v ↦ unless_expired (is_expired v) b
    ]
  ]

  pub get_identity : Browser → Option Json
  get_identity b = elim (truthy b.token) [ none ↦ none | some t ↦ payload t ]

  -- `getIdentity()?.role`: undefined for null and for what has no such property.
  abbrev role_in : Option Json → Option Json
  role_in none = none
  role_in (some v) = or_else (member (codes "role") v) none

  pub is_admin : Browser → Bool
  is_admin b = elim (role_in (get_identity b)) [
    | some (str s) ↦ text_eq s (codes "admin")
    | _ ↦ false
  ]

  -- `… ?? ''`, as a property key.
  abbrev role_key : Option Json → Text
  role_key none = []
  role_key (some null) = []
  role_key (some (str s)) = s
  role_key (some v) = p.to_text v

  pub can : Text → Browser → Option Bool
  can perm b = has_permission (role_key (role_in (get_identity b))) perm

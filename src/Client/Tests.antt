-- ===== src/Client/Tests.antt =====
-- The client's theorems at concrete servers and tokens.
use tlsentinel_server.Common.{
  ℕ, true, false, [], ◌∷◌, Option, none, some, ◌≡◌, ◌≢◌, ◌↔◌, refl, arith, ◌≤◌,
}
use tlsentinel_server.Text.{Text, codes, text_eq, trim, split}
use tlsentinel_server.Text.Numbers.{pos}
use tlsentinel_server.Json.{str, num, obj, end, field, member}
use tlsentinel_server.Client.{
  Call, HttpRequest, HttpResponse, Browser, undefined, api_error, value, Platform, api_get,
  json_type, http_request, is_ok, is_json, message_of, truthy, load, set_token, request, payload,
  is_expired, is_truthy, is_past, has_token, get_identity, is_admin, can,
}
use tlsentinel_server.Client.Outcomes.{
  request-unauthorized, request-eq-api_error_iff, request-eq-value_iff,
}
use tlsentinel_server.Client.Session.{
  Agrees, here, next, sign_in, called, check, Reach-Agrees, has_token-settles,
}

abbrev answer : ℕ → Text → HttpResponse
answer status text = record {
  status = status;
  status_text = codes "Error";
  content_type = some (codes "application/json");
  text = text;
  json = some (str text);
}

abbrev always : HttpResponse → HttpRequest → Option HttpResponse
always r q = some r

abbrev signed_in : Browser
signed_in = record { token = some (codes "a.b.c"); stored = some (codes "a.b.c"); location = none }

abbrev version : Call
version = api_get (codes "/version")

request-unauthorized_example :
    ((request (always (answer 401 [])) version signed_in).0 ≡ undefined)
    × ((request (always (answer 401 [])) version signed_in).1
        ≡ record { token = none; stored = none; location = some (codes "/login") })
    × ((http_request (request (always (answer 401 [])) version signed_in).1.token version).headers
        ≡ (codes "Content-Type", json_type) ∷ [])
request-unauthorized_example =
    request-unauthorized (always (answer 401 [])) version signed_in (answer 401 []) version refl
      refl

status_of : {r : HttpResponse} {n : ℕ} → n ≢ 401 → some (answer n []) ≡ some r → r.status ≢ 401
status_of h e = ground arith

request-eq-api_error_iff_example :
    ((request (always (answer 404 (codes "gone"))) version signed_in).0
      ≡ api_error 404 (codes "gone"))
    ↔ ((r : HttpResponse) × (always
            (answer 404 (codes "gone"))
            (http_request signed_in.token version)
          ≡ some r)
        × (is_ok r ≡ false)
        × (r.status ≢ 401)
        × (404 ≡ r.status)
        × (codes "gone" ≡ message_of r))
request-eq-api_error_iff_example =
    request-eq-api_error_iff (always (answer 404 (codes "gone"))) version signed_in 404
      (codes "gone")

request-eq-value_iff_example :
    ((request (always (answer 200 (codes "ok"))) version signed_in).0 ≡ value (str (codes "ok")))
    ↔ ((r : HttpResponse) × (always (answer 200 (codes "ok")) (http_request signed_in.token version)
          ≡ some r)
        × (200 ≤ r.status)
        × (r.status ≤ 299)
        × (is_json r.content_type ≡ true)
        × (r.json ≡ some (str (codes "ok"))))
request-eq-value_iff_example =
    request-eq-value_iff (always (answer 200 (codes "ok"))) version signed_in (str (codes "ok"))

blank_text :
    (request (always (answer 503 (codes "  "))) version signed_in).0 ≡ api_error 503 (codes "Error")
unfolding request trim
blank_text = refl

-- A platform on which every payload is `{"exp": 10}` and the clock stands at the given time.
abbrev platform : ℕ → Platform
platform now = record {
  atob = λ s. some s;
  parse_json = λ s. some (obj (field (codes "exp") (num (pos 10)) end));
  date_now = now;
  to_number = λ v. none;
  to_text = λ v. codes "?";
}

Reach-Agrees_example :
    Agrees
      (has_token
        (platform 11000)
        (request (always (answer 200 [])) version (set_token (codes "a.b.c") (load none))).1).1
Reach-Agrees_example = Reach-Agrees (platform 11000) none (
    next
      (next (next here (sign_in (codes "a.b.c") (load none)))
        (called (always (answer 200 [])) version _))
      (check _))

has_token-settles_example :
    (((has_token (platform 11000) signed_in).0 ≡ true)
      → ((has_token (platform 11000) signed_in).1 ≡ signed_in)
        × (get_identity (platform 11000) signed_in ≢ none))
    × (((has_token (platform 11000) signed_in).0 ≡ false)
        → (truthy (has_token (platform 11000) signed_in).1.token ≡ none)
          × (is_admin (platform 11000) (has_token (platform 11000) signed_in).1 ≡ false)
          × ((perm : Text)
              → can (platform 11000) perm (has_token (platform 11000) signed_in).1 ≡ some false))
has_token-settles_example = has_token-settles (platform 11000) signed_in

expired : (has_token (platform 11000) signed_in).0 ≡ false
unfolding has_token payload is_expired is_truthy is_past member text_eq split
expired = refl

fresh_token : (has_token (platform 9000) signed_in).0 ≡ true
unfolding has_token payload is_expired is_truthy is_past member text_eq split
fresh_token = refl

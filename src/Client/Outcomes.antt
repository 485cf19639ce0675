-- ===== src/Client/Outcomes.antt =====
-- What `request` answers, and what it leaves behind, on every branch.
use tlsentinel_server.Common.{
  ℕ, ◌≤◌, true, false, [], ◌∷◌, Option, none, some, ◌≡◌, ◌≢◌, ◌↔◌, inl, inr, refl, sym, ap, ◌∙◌,
  arith, Option-cases,
}
use tlsentinel_server.Text.{Text, codes}
use tlsentinel_server.Json.{Json}
use tlsentinel_server.Client.{
  Call, HttpRequest, HttpResponse, Browser, Outcome, value, undefined, api_error, network_error,
  json_type, http_request, is_ok, is_json, message_of, truthy, headers_of, clear_token,
  handle_response, request,
}

abbrev pub delivered : Option HttpResponse → Browser → Outcome × Browser
delivered none b = (network_error, b)
delivered (some r) b = handle_response r b

handle_response-keeps :
    (r : HttpResponse) (b : Browser) → r.status ≢ 401 → (handle_response r b).1 ≡ b
unfolding handle_response
handle_response-keeps r b h = ground arith

handle_response-unauthorized :
    (r : HttpResponse) (b : Browser)
    → r.status ≡ 401
    → handle_response r b
      ≡ (undefined, record { token = none; stored = none; location = some (codes "/login") })
unfolding handle_response clear_token
handle_response-unauthorized r b h = ground arith

handle_response-api_error :
    (r : HttpResponse) (b : Browser) (status : ℕ) (message : Text)
    → (handle_response r b).0 ≡ api_error status message
    → (is_ok r ≡ false) × (r.status ≢ 401) × (status ≡ r.status) × (message ≡ message_of r)
unfolding handle_response
handle_response-api_error r b status message h = ground arith

api_error_of :
    (r : HttpResponse) (b : Browser)
    → is_ok r ≡ false
    → r.status ≢ 401
    → (handle_response r b).0 ≡ api_error r.status (message_of r)
unfolding handle_response
api_error_of r b h k = ground arith

handle_response-value :
    (r : HttpResponse) (b : Browser) (v : Json)
    → (handle_response r b).0 ≡ value v
    → (200 ≤ r.status) × (r.status ≤ 299) × (is_json r.content_type ≡ true) × (r.json ≡ some v)
unfolding handle_response
handle_response-value r b v h = ground arith

value_of :
    (r : HttpResponse) (b : Browser) (v : Json)
    → 200 ≤ r.status
    → r.status ≤ 299
    → is_json r.content_type ≡ true
    → r.json ≡ some v
    → (handle_response r b).0 ≡ value v
unfolding handle_response
value_of r b v low high t j = ground arith

module _ (server : HttpRequest → Option HttpResponse) (c : Call) (b : Browser) where
  pub request_lem : request server c b ≡ delivered (server (http_request b.token c)) b
  unfolding request
  request_lem = go (server (http_request b.token c))
    where
      go :
          (o : Option HttpResponse)
          → ◌≡◌ {A = Outcome × Browser}
              (elim o [ none ↦ (network_error, b) | some r ↦ handle_response r b ])
              (delivered o b)
      go none = refl
      go (some r) = refl

  request_answered :
      (r : HttpResponse)
      → server (http_request b.token c) ≡ some r
      → request server c b ≡ handle_response r b
  request_answered r h = request_lem ∙ ap (λ o. delivered o b) h

  -- A 401 signs the user out: there is no error to catch, both copies of the token are gone, the
  -- page goes to the login form, and the next call has no Authorization header.
  pub request-unauthorized :
      (r : HttpResponse) (next : Call)
      → server (http_request b.token c) ≡ some r
      → r.status ≡ 401
      → ((request server c b).0 ≡ undefined)
        × ((request server c b).1
            ≡ record { token = none; stored = none; location = some (codes "/login") })
        × ((http_request (request server c b).1.token next).headers
            ≡ (codes "Content-Type", json_type) ∷ [])
  unfolding http_request
  request-unauthorized r next answered is_401 =
      let e = request_answered r answered ∙ handle_response-unauthorized r b is_401 in
      (ap (λ o. o.0) e, ap (λ o. o.1) e, ap (λ o. headers_of (truthy (o.1).token)) e)

  -- The browser's state is changed by a 401 only.
  pub request-keeps :
      ((r : HttpResponse) → server (http_request b.token c) ≡ some r → r.status ≢ 401)
      → (request server c b).1 ≡ b
  request-keeps h = elim (Option-cases (server (http_request b.token c))) [
    | inl lost ↦ ap (λ o. o.1) (request_lem ∙ ap (λ o. delivered o b) lost)
    | inr (r, answered) ↦
        ap (λ o. o.1) (request_answered r answered) ∙ handle_response-keeps r b (h r answered)
  ]

  -- The error that a call throws carries the status of an answer that is neither a success nor a
  -- 401, and its text or, where that is blank, its status text.
  pub request-eq-api_error_iff :
      (status : ℕ) (message : Text)
      → ((request server c b).0 ≡ api_error status message) ↔ (
          (r : HttpResponse) × (server (http_request b.token c) ≡ some r)
          × (is_ok r ≡ false)
          × (r.status ≢ 401)
          × (status ≡ r.status)
          × (message ≡ message_of r))
  request-eq-api_error_iff status message = (
    λ e. elim (Option-cases (server (http_request b.token c))) [
      | inl lost ↦
          absurd (cc (sym (ap (λ o. o.0) (request_lem ∙ ap (λ o. delivered o b) lost)) ∙ e))
      | inr (r, answered) ↦
          let (bad, other, same, text) =
            handle_response-api_error r b status message
              (sym (ap (λ o. o.0) (request_answered r answered)) ∙ e) in
          (r, answered, bad, other, same, text)
    ],
    λ (r, answered, bad, other, same, text).
        rw (same, text) (ap (λ o. o.0) (request_answered r answered) ∙ api_error_of r b bad other),
  )

  -- A call has a value only if the answer is a success with a JSON body that parses.
  pub request-eq-value_iff :
      (v : Json)
      → ((request server c b).0 ≡ value v) ↔ (
          (r : HttpResponse) × (server (http_request b.token c) ≡ some r)
          × (200 ≤ r.status)
          × (r.status ≤ 299)
          × (is_json r.content_type ≡ true)
          × (r.json ≡ some v))
  request-eq-value_iff v = (
    λ e. elim (Option-cases (server (http_request b.token c))) [
      | inl lost ↦
          absurd (cc (sym (ap (λ o. o.0) (request_lem ∙ ap (λ o. delivered o b) lost)) ∙ e))
      | inr (r, answered) ↦
          let (low, high, t, j) =
            handle_response-value r b v (sym (ap (λ o. o.0) (request_answered r answered)) ∙ e) in
          (r, answered, low, high, t, j)
    ],
    λ (r, answered, low, high, t, j).
        ap (λ o. o.0) (request_answered r answered) ∙ value_of r b v low high t j,
  )

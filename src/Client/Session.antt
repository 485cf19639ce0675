-- ===== src/Client/Session.antt =====
-- The session token over the life of the page.
use tlsentinel_server.Common.{
  true, false, Option, none, some, ◌≡◌, ◌≢◌, ◌↔◌, inl, inr, refl, sym, ap, arith, Option-cases,
}
use mathlib.Core.Path.{subst}
use tlsentinel_server.Text.{Text, text_eq}
use tlsentinel_server.Json.{Json}
use tlsentinel_server.Permissions.{has_permission}
use tlsentinel_server.Client.{
  Call, HttpRequest, HttpResponse, Browser, Platform, truthy, load, set_token, clear_token, request,
  handle_response, payload, is_expired, has_token, get_identity, is_admin, can,
}
use tlsentinel_server.Client.Outcomes.{request_lem, delivered}

-- What can happen to the token while the page is open.
pub data Step (p : Platform) : Browser → Browser → Type 0 where
  sign_in : (t : Text) (b : Browser) → Step p b (set_token t b)
  sign_out : (b : Browser) → Step p b (clear_token b)
  check : (b : Browser) → Step p b (has_token p b).1
  called :
      (server : HttpRequest → Option HttpResponse) (c : Call) (b : Browser)
      → Step p b (request server c b).1

pub data Reach (p : Platform) (b : Browser) : Browser → Type 0 where
  here : Reach p b b
  next : {u v : Browser} → Reach p b u → Step p u v → Reach p b v

-- The variable of the module and the browser's storage hold the same token.
pub record Agrees (b : Browser) : Type 0 where
  pub same : b.token ≡ b.stored

has_token-Agrees : (p : Platform) (b : Browser) → Agrees b → Agrees (has_token p b).1
unfolding has_token clear_token
has_token-Agrees p b h = ground arith

handle_response-Agrees :
    (r : HttpResponse) (b : Browser) → Agrees b → Agrees (handle_response r b).1
unfolding handle_response clear_token
handle_response-Agrees r b h = ground arith

delivered-Agrees : (o : Option HttpResponse) (b : Browser) → Agrees b → Agrees (delivered o b).1
delivered-Agrees none b h = h
delivered-Agrees (some r) b h = handle_response-Agrees r b h

Step-Agrees : {p : Platform} {b u : Browser} → Step p b u → Agrees b → Agrees u
unfolding set_token clear_token
Step-Agrees (sign_in t b) h = record { same = refl }
Step-Agrees (sign_out b) h = record { same = refl }
Step-Agrees {p} (check b) h = has_token-Agrees p b h
Step-Agrees (called server c b) h =
    subst Agrees (ap (λ o. o.1) (sym (request_lem server c b))) (delivered-Agrees _ b h)

-- From the start of the page on, whatever is signed in, signed out, checked and called, the token in
-- memory is the one in storage.
pub Reach-Agrees :
    (p : Platform) (stored : Option Text) {b : Browser} → Reach p (load stored) b → Agrees b
unfolding load
Reach-Agrees p stored here = record { same = refl }
Reach-Agrees p stored (next r s) = Step-Agrees s (Reach-Agrees p stored r)

module _ (p : Platform) (b : Browser) where
  passed :
      (has_token p b).0 ≡ true
      → (t : Text) × (v : Json) × (truthy b.token ≡ some t)
        × (payload p t ≡ some v)
        × (is_expired p v ≡ some false)
  unfolding has_token
  passed h = elim (Option-cases (truthy b.token)) [
    | inl no_token ↦ absurd (ground arith)
    | inr (t, token) ↦ elim (Option-cases (payload p t)) [
      | inl unread ↦ absurd (ground arith)
      | inr (v, read) ↦ (t, v, token, read, ground arith)
    ]
  ]

  kept :
      (t : Text) (v : Json)
      → truthy b.token ≡ some t
      → payload p t ≡ some v
      → is_expired p v ≡ some false
      → has_token p b ≡ (true, b)
  unfolding has_token
  kept t v x y z = ground arith

  failed : (has_token p b).0 ≡ false → truthy (has_token p b).1.token ≡ none
  unfolding has_token clear_token
  failed h = ground arith

  signed_out-identity : truthy b.token ≡ none → get_identity p b ≡ none
  unfolding get_identity
  signed_out-identity h = rw (h, get_identity)

  -- The check passes exactly when there is a token whose payload is read and not expired.
  pub has_token_iff : ((has_token p b).0 ≡ true) ↔ (
      (t : Text) × (v : Json) × (truthy b.token ≡ some t)
      × (payload p t ≡ some v)
      × (is_expired p v ≡ some false))
  has_token_iff = (passed, λ (t, v, x, y, z). ap (λ o. o.0) (kept t v x y z))

  identified :
      (t : Text) (v : Json)
      → truthy b.token ≡ some t
      → payload p t ≡ some v
      → get_identity p b ≢ none
  unfolding get_identity
  identified t v x y = ground arith

  no_permission :
      truthy b.token ≡ none → (is_admin p b ≡ false) × ((perm : Text) → can p perm b ≡ some false)
  unfolding is_admin can has_permission text_eq
  no_permission h = (rw (signed_out-identity h, is_admin), λ perm. rw (signed_out-identity h, can))

-- A check that passes changes nothing, and the user's identity can be read. After one that fails
-- nobody is signed in: there is no token to send, no administrator and no permission.
pub has_token-settles :
    (p : Platform) (b : Browser)
    → (((has_token p b).0 ≡ true) → ((has_token p b).1 ≡ b) × (get_identity p b ≢ none))
      × (((has_token p b).0 ≡ false)
          → (truthy (has_token p b).1.token ≡ none)
            × (is_admin p (has_token p b).1 ≡ false)
            × ((perm : Text) → can p perm (has_token p b).1 ≡ some false))
has_token-settles p b = (
  λ h.
      let (t, v, x, y, z) = passed p b h in
      (ap (λ o. o.1) (kept p b t v x y z), identified p b t v x y),
  λ h.
      let out = failed p b h in
      let (no_admin, none_granted) = no_permission p (has_token p b).1 out in
      (out, no_admin, none_granted),
)

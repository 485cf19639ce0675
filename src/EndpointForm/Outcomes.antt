-- ===== src/EndpointForm/Outcomes.antt =====
-- What `handleSave` of web/src/pages/endpoint/EndpointFormPage.tsx sends, and how it ends.
use tlsentinel_server.Common.{
  ℕ, ◌≤◌, true, false, List, [], ◌∷◌, Option, none, some, ◌≡◌, ◌≢◌, ◌↔◌, ◌⊎◌, inl, inr, refl, sym,
  ◌∙◌, arith, Option-cases, All,
}
use tlsentinel_server.Text.{Text, is_empty, text_eq_iff, trim}
use tlsentinel_server.Text.Numbers.{ℤ, pos, negsuc, parse_int_radix}
use tlsentinel_server.Page.{
  Answer, answered, refused, broken, Effect, called, Async, ◌>>=◌, await, receive,
}
use tlsentinel_server.Page.Endings.{
  IsCall, OnlyCalls, Leaves, Ends, Ends-bind, OnlyCalls-await, OnlyCalls-when, OnlyCalls-receive,
  OnlyCalls-attempt, OnlyCalls-skip, Ends-navigate,
}
use tlsentinel_server.Client.{Call, truthy}
use tlsentinel_server.EndpointForm.{Route, EndpointForm, host, saml, from_inbox_id}
use tlsentinel_server.Api.Endpoints.{update_endpoint}
use tlsentinel_server.EndpointForm.Save.{
  update_request, Server, is_port, form_error, save_edit, save_new, save_calls, handle_save, link,
  set_tags, remove_item, save_settled,
}

abbrev pub IsPort : Option ℤ → Type 0
IsPort o = (n : ℕ) × (o ≡ some (pos n)) × (1 ≤ n) × (n ≤ 65535)

-- What the three kinds of endpoint need.
abbrev pub IsSavable : EndpointForm → Type 0
IsSavable s =
    (trim s.name ≢ [])
    × (s.type ≡ host → (trim s.dns_name ≢ []) × IsPort (parse_int_radix 10 s.port))
    × (s.type ≡ saml → trim s.url ≢ [])

pub is_port_iff : (o : Option ℤ) → (is_port o ≡ true) ↔ IsPort o
is_port_iff none = (λ e. ground arith, λ h. ground arith)
is_port_iff (some (pos n)) =
    (λ e. (n, refl, ground arith, ground arith), λ (m, e, low, high). ground arith)
is_port_iff (some (negsuc n)) = (λ e. ground arith, λ (m, e, low, high). ground arith)

pub is_empty_iff : (s : Text) → (is_empty s ≡ false) ↔ (s ≢ [])
is_empty_iff [] = (λ e. ground arith, λ h. absurd (h refl))
is_empty_iff (c ∷ s) = (λ _ e. ground arith, λ _. refl)

-- The form shows no error exactly when it has a name and what its type needs.
pub form_error-eq-none_iff : (s : EndpointForm) → (form_error s ≡ none) ↔ IsSavable s
unfolding form_error
form_error-eq-none_iff s = ground (
  arith,
  is_empty_iff (trim s.name),
  is_empty_iff (trim s.dns_name),
  is_empty_iff (trim s.url),
  is_port_iff (parse_int_radix 10 s.port),
  text_eq_iff s.type host,
  text_eq_iff s.type saml,
)

module _ (server : Server) where
  OnlyCalls-link : (id : Text) (s : EndpointForm) → OnlyCalls (link server id s)
  unfolding link
  OnlyCalls-link id s = OnlyCalls-when _ _ (OnlyCalls-await _ _)

  OnlyCalls-set_tags : (id : Text) (s : EndpointForm) → OnlyCalls (set_tags server id s)
  unfolding set_tags
  OnlyCalls-set_tags id s = OnlyCalls-await _ _

  OnlyCalls-remove_item : (o : Option Text) → OnlyCalls (remove_item server o)
  unfolding remove_item
  OnlyCalls-remove_item none = OnlyCalls-skip
  OnlyCalls-remove_item (some id) = OnlyCalls-attempt _

  Ends-save_edit : (id : Text) (s : EndpointForm) → Ends (save_edit server id s)
  unfolding save_edit
  Ends-save_edit id s = Ends-bind _ _ (OnlyCalls-await _ _) (λ _.
      Ends-bind _ _ (OnlyCalls-link id s)
        (λ _. Ends-bind _ _ (OnlyCalls-set_tags id s) (λ _. Ends-navigate _)))

  Ends-save_new : (r : Route) (s : EndpointForm) → Ends (save_new server r s)
  unfolding save_new
  Ends-save_new r s = Ends-bind _ _ (OnlyCalls-receive _ _) (λ endpoint.
      Ends-bind _ _ (OnlyCalls-link endpoint.id s) (λ _.
        Ends-bind _ _ (OnlyCalls-when _ _ (OnlyCalls-set_tags endpoint.id s)) (λ _.
          Ends-bind _ _ (OnlyCalls-remove_item (truthy (from_inbox_id r))) (λ _. Ends-navigate _))))

  Ends-save_calls :
      (o : Option Text) (r : Route) (s : EndpointForm) → Ends (save_calls server o r s)
  unfolding save_calls
  Ends-save_calls (some id) r s = Ends-save_edit id s
  Ends-save_calls none r s = Ends-save_new r s

  -- Each save ends: the form stays, with an error and its button usable again, or the calls are
  -- through and the last thing that it does is to go to another page.
  pub handle_save-ends :
      (r : Route) (s : EndpointForm)
      → s.saving ≡ false
      → let (t, es) = handle_save server r s in
        ((t.error ≢ none) × (t.saving ≡ false) × All IsCall es) ⊎ ((t.error ≡ none) × Leaves es)
  unfolding handle_save Ends
  handle_save-ends r s h = elim (Option-cases (form_error s)) [
    | inr (e, p) ↦ rw (p, handle_save) (inl ((λ q. ground arith), h, tt))
    | inl p ↦
        rw (p, handle_save)
          (settled (save_calls server (truthy r.id) r s) (Ends-save_calls (truthy r.id) r s))
  ]
    where
      settled :
          (m : Async (Unit {0}))
          → Ends m
          → let t = save_settled server r m.1 (record s { error = none; saving = true }) in
            ((t.error ≢ none) × (t.saving ≡ false) × All IsCall m.0)
            ⊎ ((t.error ≡ none) × Leaves m.0)
      settled (es, answered _) k = inr (refl, k)
      settled (es, refused message) k = inl ((λ q. ground arith), refl, k)
      settled (es, broken) k = inl ((λ q. ground arith), refl, k)

  receive_calls :
      {A B : Type 0} (c : Call) (r : Answer A) (f : A → Async B) → (receive c r >>= f).0 ≢ []
  receive_calls c (answered a) f e = ground arith
  receive_calls c (refused message) f e = ground arith
  receive_calls c broken f e = ground arith

  await_calls :
      {A B : Type 0} (c : Call) (r : Answer A) (f : Unit {0} → Async B) → (await c r >>= f).0 ≢ []
  await_calls c (answered a) f e = ground arith
  await_calls c (refused message) f e = ground arith
  await_calls c broken f e = ground arith

  save_calls_some :
      (o : Option Text) (r : Route) (s : EndpointForm) → (save_calls server o r s).0 ≢ []
  unfolding save_calls save_edit save_new
  save_calls_some (some id) r s = await_calls _ _ _
  save_calls_some none r s = receive_calls _ _ _

  -- Saving asks the server for something exactly when the form has what its type needs.
  pub handle_save-calls_iff :
      (r : Route) (s : EndpointForm) → ((handle_save server r s).1 ≢ []) ↔ IsSavable s
  unfolding handle_save
  handle_save-calls_iff r s = elim (Option-cases (form_error s)) [
    | inl p ↦
        rw (p, handle_save)
          ((λ _. (form_error-eq-none_iff s).0 p), λ _. save_calls_some (truthy r.id) r s)
    | inr (e, p) ↦
        rw (p, handle_save)
          ((λ h. absurd (h refl)), λ h. absurd (cc (sym p ∙ (form_error-eq-none_iff s).1 h)))
  ]

  pub handle_save_of_savable :
      (r : Route) (s : EndpointForm)
      → IsSavable s
      → (handle_save server r s).1 ≡ (save_calls server (truthy r.id) r s).0
  unfolding handle_save
  handle_save_of_savable r s h = rw ((form_error-eq-none_iff s).1 h, handle_save) refl

  await_first :
      {A B : Type 0} (c : Call) (r : Answer A) (f : Unit {0} → Async B)
      → (more : List Effect) × ((await c r >>= f).0 ≡ called c ∷ more)
  await_first c (answered a) f = ((f tt).0, refl)
  await_first c (refused message) f = ([], refl)
  await_first c broken f = ([], refl)

  pub save_edit-first :
      (id : Text) (s : EndpointForm)
      → (more : List Effect) × ((save_edit server id s).0
          ≡ called (update_endpoint id (update_request s)) ∷ more)
  unfolding save_edit
  save_edit-first id s = await_first _ _ _

-- ===== src/EndpointForm/Loaded.antt =====
-- Loading an endpoint into the form of web/src/pages/endpoint/EndpointFormPage.tsx and saving it.
use tlsentinel_server.Common.{
  ℕ, Bool, true, false, not, List, [], ◌∷◌, Option, none, some, ◌≡◌, ◌≢◌, refl, sym, ap, ◌∙◌,
  or_else,
}
use tlsentinel_server.Text.{Text, text_eq, text_eq_iff, trim}
use tlsentinel_server.Text.Numbers.{ℤ, pos, parse_int_radix, show_int}
use tlsentinel_server.Text.Numbers.Laws.{parse_int_radix-show}
use tlsentinel_server.Page.{answered, Effect, called, or_undefined}
use tlsentinel_server.Client.{truthy}
use tlsentinel_server.Types.Endpoints.{Endpoint}
use tlsentinel_server.Types.Requests.{UpdateEndpointRequest}
use tlsentinel_server.Api.Endpoints.{update_endpoint}
use tlsentinel_server.EndpointForm.{
  Route, EndpointForm, host, saml, manual, endpoint_loaded, url_of,
}
use tlsentinel_server.EndpointForm.Outcomes.{
  IsPort, IsSavable, handle_save_of_savable, save_edit-first,
}
use tlsentinel_server.EndpointForm.Save.{Server, member_if, update_request, save_calls, handle_save}

-- What a server stores of a form: no white space at the ends, and nothing for what is empty.
abbrev pub IsTidy : Text → Type 0
IsTidy s = trim s ≡ s

abbrev pub IsTidyOption : Option Text → Type 0
IsTidyOption none = Unit
IsTidyOption (some s) = IsTidy s × (s ≢ [])

abbrev flat : Option (Option Text) → Option Text
flat none = none
flat (some o) = o

-- An endpoint as a server keeps it, with what its type needs.
pub record IsStored (ep : Endpoint) : Type 0 where
  pub name : IsTidy ep.name × (ep.name ≢ [])
  pub dns_name : IsTidy ep.dns_name
  pub ip_address : IsTidyOption ep.ip_address
  pub url : IsTidyOption (flat ep.url)
  pub scanner_id : IsTidyOption ep.scanner_id
  pub notes : IsTidyOption ep.notes
  pub port : (n : ℕ) × (ep.port ≡ pos n)
  pub of_host : ep.type ≡ host → (ep.dns_name ≢ []) × IsPort (some ep.port)
  pub of_saml : ep.type ≡ saml → flat ep.url ≢ none

-- The request that changes nothing.
abbrev pub same_endpoint : Endpoint → UpdateEndpointRequest
same_endpoint ep = record {
  name = ep.name;
  type = some ep.type;
  enabled = ep.enabled;
  scan_exempt = some ep.scan_exempt;
  scanner_id = member_if (not (text_eq ep.type manual)) ep.scanner_id;
  notes = ep.notes;
  dns_name = member_if (text_eq ep.type host) (some ep.dns_name);
  port = member_if (text_eq ep.type host) (some ep.port);
  ip_address = member_if (text_eq ep.type host) ep.ip_address;
  url = member_if (text_eq ep.type saml) (flat ep.url);
}

keep_option : (o : Option Text) → IsTidyOption o → or_undefined (or_else o []) ≡ o
keep_option none h = refl
keep_option (some []) h = absurd (h.1 refl)
keep_option (some (c ∷ s)) h = refl

trim_option : (o : Option Text) → IsTidyOption o → or_undefined (trim (or_else o [])) ≡ o
unfolding trim
trim_option none h = refl
trim_option (some s) h = ap or_undefined h.0 ∙ keep_option (some s) h

read_port : (z : ℤ) → (n : ℕ) × (z ≡ pos n) → parse_int_radix 10 (show_int z) ≡ some z
unfolding show_int
read_port z (n, e) = rw e (parse_int_radix-show n)

url_text :
    (o : Option (Option Text))
    → IsTidyOption (flat o)
    → flat o ≢ none
    → some (trim (url_of o)) ≡ flat o
url_text none h k = absurd (k refl)
url_text (some none) h k = absurd (k refl)
url_text (some (some s)) h k = ap some h.0

url_member :
    (ep : Endpoint)
    → IsStored ep
    → member_if (text_eq ep.type saml) (some (trim (url_of ep.url)))
      ≡ member_if (text_eq ep.type saml) (flat ep.url)
url_member ep h = on_test (text_eq ep.type saml) (text_eq_iff ep.type saml).0
  where
    on_test :
        (b : Bool)
        → (b ≡ true → ep.type ≡ saml)
        → member_if b (some (trim (url_of ep.url))) ≡ member_if b (flat ep.url)
    on_test false k = refl
    on_test true k = url_text ep.url h.url (h.of_saml (k refl))

update_request-endpoint_loaded :
    (ep : Endpoint) (s : EndpointForm)
    → IsStored ep
    → update_request (endpoint_loaded (answered ep) s) ≡ same_endpoint ep
unfolding update_request endpoint_loaded
update_request-endpoint_loaded ep s h =
    rw
      (
        update_request,
        h.name.0,
        h.dns_name,
        read_port ep.port h.port,
        trim_option ep.ip_address h.ip_address,
        trim_option ep.notes h.notes,
        keep_option ep.scanner_id h.scanner_id,
        url_member ep h,
      )
      refl

url_of_some :
    (o : Option (Option Text)) → IsTidyOption (flat o) → flat o ≢ none → trim (url_of o) ≢ []
url_of_some none h k = absurd (k refl)
url_of_some (some none) h k = absurd (k refl)
url_of_some (some (some s)) h k = λ e. h.1 (sym h.0 ∙ e)

endpoint_loaded-IsSavable :
    (ep : Endpoint) (s : EndpointForm) → IsStored ep → IsSavable (endpoint_loaded (answered ep) s)
unfolding endpoint_loaded
endpoint_loaded-IsSavable ep s h = (
  (λ e. h.name.1 (sym h.name.0 ∙ e)),
  (λ t.
      ((λ e. (h.of_host t).0 (sym h.dns_name ∙ e)), rw (read_port ep.port h.port) (h.of_host t).1)),
  λ t. url_of_some ep.url h.url (h.of_saml t),
)

-- An endpoint that is opened for editing and saved as it is is sent back to the server with all
-- the fields that its type has, unchanged.
pub handle_save-endpoint_loaded :
    (server : Server) (r : Route) (id : Text) (ep : Endpoint) (s : EndpointForm)
    → truthy r.id ≡ some id
    → IsStored ep
    → (more : List Effect) × ((handle_save server r (endpoint_loaded (answered ep) s)).1
        ≡ called (update_endpoint id (same_endpoint ep)) ∷ more)
unfolding save_calls
handle_save-endpoint_loaded server r id ep s edits h =
    let form = endpoint_loaded (answered ep) s in
    let (more, e) = save_edit-first server id form in
    (
      more,
      handle_save_of_savable server r form (endpoint_loaded-IsSavable ep s h)
          ∙ ap (λ o. (save_calls server o r form).0) edits
          ∙ e
          ∙ ap (λ q. called (update_endpoint id q) ∷ more) (update_request-endpoint_loaded ep s h),
    )

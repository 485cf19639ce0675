-- ===== src/EndpointForm/Tests.antt =====
-- Inputs on which the theorems on the endpoint form are used: a manual endpoint whose certificate is
-- refused, and a host that is loaded for editing.
use tlsentinel_server.Common.{
  true, false, List, [], ◌∷◌, none, some, ◌≡◌, ◌≢◌, ◌↔◌, ◌⊎◌, refl, All, arith,
}
use tlsentinel_server.Text.{codes, trim, trim_start, is_space}
use tlsentinel_server.Text.Numbers.{pos}
use tlsentinel_server.Page.{answered, refused, Effect, called}
use tlsentinel_server.Page.Endings.{IsCall, Leaves}
use tlsentinel_server.Types.Endpoints.{Endpoint}
use tlsentinel_server.Api.Endpoints.{create_endpoint, update_endpoint, link_certificate}
use tlsentinel_server.EndpointForm.{Route, EndpointForm, host, manual, endpoint_loaded}
use tlsentinel_server.EndpointForm.Save.{Server, create_request, handle_save}
use tlsentinel_server.EndpointForm.Outcomes.{IsSavable, handle_save-ends, handle_save-calls_iff}
use tlsentinel_server.EndpointForm.Loaded.{IsStored, same_endpoint, handle_save-endpoint_loaded}
use tlsentinel_server.EndpointForm.Again.{handle_save_again}

abbrev api : Endpoint
api = record {
  id = codes "e1";
  name = codes "API";
  type = host;
  dns_name = codes "a.org";
  ip_address = none;
  last_resolved_ip = none;
  port = pos 8443;
  url = none;
  saml_metadata = none;
  saml_fetched_at = none;
  enabled = true;
  scan_exempt = true;
  scanner_id = some (codes "s1");
  scanner_name = none;
  active_certs = [];
  last_scanned_at = none;
  last_scan_error = none;
  error_since = none;
  notes = some (codes "a b");
  created_at = [];
  updated_at = [];
}

abbrev server : Server
server = record {
  create = λ req. answered api;
  update = λ id req. answered api;
  link = λ id pem. refused (codes "not a certificate");
  set_tags = λ id tags. answered tt;
}

abbrev new_manual : Route
new_manual = record { id = none; clone = none; from_inbox = none; type_param = some manual }

abbrev edit : Route
edit = record { id = some (codes "e1"); clone = none; from_inbox = none; type_param = none }

abbrev typed : EndpointForm
typed = record {
  load_error = none;
  form_ready = true;
  inbox_ip = none;
  type = manual;
  name = codes "Old box ";
  dns_name = [];
  port = codes "443";
  ip_address = [];
  url = [];
  scanner_id = [];
  enabled = true;
  scan_exempt = false;
  notes = [];
  pem = codes "-----";
  file_name = none;
  selected_tag_ids = codes "t1" ∷ [];
  resolving = false;
  resolve_error = none;
  saving = false;
  error = none;
}

typed-IsSavable : IsSavable typed
unfolding trim trim_start is_space
typed-IsSavable = ((λ e. ground arith), (λ e. ground arith), λ e. ground arith)

api-IsStored : IsStored api
unfolding trim trim_start is_space
api-IsStored = record {
  name = (refl, λ e. ground arith);
  dns_name = refl;
  ip_address = tt;
  url = tt;
  scanner_id = (refl, λ e. ground arith);
  notes = (refl, λ e. ground arith);
  port = (8443, refl);
  of_host = λ _. ((λ e. ground arith), (8443, refl, omega arith, omega arith));
  of_saml = λ e. ground arith;
}

pem_is_kept : trim (codes "-----") ≢ []
unfolding trim trim_start is_space
pem_is_kept e = ground arith

handle_save-ends_example :
    let (t, es) = handle_save server new_manual typed in
    ((t.error ≢ none) × (t.saving ≡ false) × All IsCall es) ⊎ ((t.error ≡ none) × Leaves es)
handle_save-ends_example = handle_save-ends server new_manual typed refl

handle_save-calls_iff_example : ((handle_save server new_manual typed).1 ≢ []) ↔ IsSavable typed
handle_save-calls_iff_example = handle_save-calls_iff server new_manual typed

handle_save-endpoint_loaded_example :
    (more : List Effect) × ((handle_save server edit (endpoint_loaded (answered api) typed)).1
      ≡ called (update_endpoint (codes "e1") (same_endpoint api)) ∷ more)
handle_save-endpoint_loaded_example =
    handle_save-endpoint_loaded server edit (codes "e1") api typed refl api-IsStored

handle_save_again_example :
    let calls =
      called (create_endpoint (create_request typed))
      ∷ called (link_certificate (codes "e1") (trim (codes "-----")))
      ∷ [] in
    ((handle_save server new_manual typed).1 ≡ calls)
    × ((handle_save server new_manual (handle_save server new_manual typed).0).1 ≡ calls)
handle_save_again_example =
    handle_save_again server new_manual typed api (codes "not a certificate") refl typed-IsSavable
      refl pem_is_kept refl refl

-- ===== src/EndpointForm/Save.antt =====
-- `handleSave` of web/src/pages/endpoint/EndpointFormPage.tsx: the checks, the requests, and the
-- calls in their order.
use tlsentinel_server.Common.{
  Bool, true, false, ◌&&◌, not, List, [], ◌++◌, Option, none, some, leb, if◌then◌else◌,
}
use tlsentinel_server.Text.{Text, codes, is_empty, text_eq, trim}
use tlsentinel_server.Text.Numbers.{ℤ, pos, negsuc, parse_int_radix}
use tlsentinel_server.Page.{
  Answer, answered, Effect, Async, ◌>>=◌, ◌>>◌, await, receive, navigate, when, attempt, skip,
  error_text, or_undefined,
}
use tlsentinel_server.Client.{truthy}
use tlsentinel_server.Types.Endpoints.{Endpoint}
use tlsentinel_server.Types.Requests.{CreateEndpointRequest, UpdateEndpointRequest}
use tlsentinel_server.Api.Endpoints.{create_endpoint, update_endpoint, link_certificate}
use tlsentinel_server.Api.Tags.{set_endpoint_tags}
use tlsentinel_server.Api.Discovery.{delete_discovery_inbox_item}
use tlsentinel_server.EndpointForm.{Route, EndpointForm, host, saml, manual, from_inbox_id, is_edit}

-- The server, as far as the form asks it.
pub record Server : Type 0 where
  pub create : CreateEndpointRequest → Answer Endpoint
  pub update : Text → UpdateEndpointRequest → Answer Endpoint
  pub link : Text → Text → Answer Endpoint
  pub set_tags : Text → List Text → Answer (Unit {0})

abbrev pub is_port : Option ℤ → Bool
is_port none = false
is_port (some (pos n)) = leb 1 n && leb n 65535
is_port (some (negsuc n)) = false

abbrev name_error : EndpointForm → Option Text
name_error s = if is_empty (trim s.name) then some (codes "Name is required.") else none

abbrev host_error : EndpointForm → Option Text
host_error s =
    if is_empty (trim s.dns_name)
    then some (codes "DNS Name is required.")
    else if not (is_port (parse_int_radix 10 s.port))
    then some (codes "Port must be between 1 and 65535.")
    else none

abbrev saml_error : EndpointForm → Option Text
saml_error s = if is_empty (trim s.url) then some (codes "Metadata URL is required.") else none

-- The checks in front of the calls, up to the first that fails.
unfoldable pub form_error : EndpointForm → Option Text
unfolding trim parse_int_radix
form_error s = elim (name_error s) [
  | some e ↦ some e
  | none ↦
      if text_eq s.type host
      then host_error s
      else if text_eq s.type saml
      then saml_error s
      else none
]

-- `...(test && { … })` for one member.
abbrev pub member_if : {A : Type 0} → Bool → Option A → Option A
member_if true o = o
member_if false o = none

unfoldable pub update_request : EndpointForm → UpdateEndpointRequest
update_request s = record {
  name = trim s.name;
  type = some s.type;
  enabled = s.enabled;
  scan_exempt = some s.scan_exempt;
  scanner_id = member_if (not (text_eq s.type manual)) (or_undefined s.scanner_id);
  notes = or_undefined (trim s.notes);
  dns_name = member_if (text_eq s.type host) (some (trim s.dns_name));
  port = member_if (text_eq s.type host) (parse_int_radix 10 s.port);
  ip_address = member_if (text_eq s.type host) (or_undefined (trim s.ip_address));
  url = member_if (text_eq s.type saml) (some (trim s.url));
}

unfoldable pub create_request : EndpointForm → CreateEndpointRequest
create_request s = record {
  name = trim s.name;
  type = some s.type;
  dns_name = member_if (text_eq s.type host) (some (trim s.dns_name));
  port = member_if (text_eq s.type host) (parse_int_radix 10 s.port);
  ip_address = member_if (text_eq s.type host) (or_undefined (trim s.ip_address));
  url = member_if (text_eq s.type saml) (some (trim s.url));
  scanner_id = member_if (not (text_eq s.type manual)) (or_undefined s.scanner_id);
  notes = or_undefined (trim s.notes);
}

abbrev links : EndpointForm → Bool
links s = text_eq s.type manual && not (is_empty (trim s.pem))

abbrev endpoint_path : Text → Text
endpoint_path id = codes "/endpoints/" ++ id

module _ (server : Server) where
  unfoldable pub link : Text → EndpointForm → Async (Unit {0})
  link id s =
      when (links s) (await (link_certificate id (trim s.pem)) (server.link id (trim s.pem)))

  unfoldable pub set_tags : Text → EndpointForm → Async (Unit {0})
  set_tags id s =
      await (set_endpoint_tags id s.selected_tag_ids) (server.set_tags id s.selected_tag_ids)

  -- If the form came from the discovery inbox.
  unfoldable pub remove_item : Option Text → Async (Unit {0})
  remove_item none = skip
  remove_item (some id) = attempt (delete_discovery_inbox_item id)

  unfoldable pub save_edit : Text → EndpointForm → Async (Unit {0})
  unfolding link set_tags
  save_edit id s = do
    await (update_endpoint id (update_request s)) (server.update id (update_request s))
    link id s
    set_tags id s
    navigate (endpoint_path id)

  unfoldable pub save_new : Route → EndpointForm → Async (Unit {0})
  unfolding link set_tags remove_item
  save_new r s = do
    endpoint ← receive (create_endpoint (create_request s)) (server.create (create_request s))
    link endpoint.id s
    when (not (is_empty s.selected_tag_ids)) (set_tags endpoint.id s)
    remove_item (truthy (from_inbox_id r))
    navigate (endpoint_path endpoint.id)

  -- `if (isEdit && id)`.
  unfoldable pub save_calls : Option Text → Route → EndpointForm → Async (Unit {0})
  unfolding save_edit save_new
  save_calls (some id) r s = save_edit id s
  save_calls none r s = save_new r s

  -- The `catch` of `handleSave`; without an error the page is left, still saving.
  abbrev pub save_settled : Route → Answer (Unit {0}) → EndpointForm → EndpointForm
  save_settled r (answered _) s = s
  save_settled r end s = record s {
    error =
        error_text
          (if is_edit r
            then codes "Failed to save endpoint."
            else codes "Failed to create endpoint.")
          end;
    saving = false;
  }

  unfoldable pub handle_save : Route → EndpointForm → EndpointForm × List Effect
  unfolding save_calls form_error
  handle_save r s = elim (form_error s) [
    | some e ↦ (record s { error = some e }, [])
    | none ↦
        let (effects, end) = save_calls (truthy r.id) r s in
        (save_settled r end (record s { error = none; saving = true }), effects)
  ]

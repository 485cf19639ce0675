-- ===== src/EndpointForm.antt =====
-- web/src/pages/endpoint/EndpointFormPage.tsx: the form that creates, clones, promotes and edits
-- an endpoint. The state is the component's, with the reading of what it was opened for.
mod Tests
pub mod Save
pub mod Outcomes
pub mod Loaded
pub mod Again
use tlsentinel_server.Common.{
  Bool, true, false, ◌&&◌, ◌||◌, not, List, [], ◌∷◌, ◌++◌, map, Option, none, some, if◌then◌else◌,
  or_else,
}
use tlsentinel_server.Text.{Text, codes, is_empty, text_eq, trim}
use tlsentinel_server.Text.Numbers.{ℤ, pos, show_int}
use tlsentinel_server.Page.{Answer, answered, refused, broken, is_present, error_text}
use tlsentinel_server.Types.Endpoints.{Endpoint}
use tlsentinel_server.Types.Reports.{ResolveResponse}
use tlsentinel_server.Types.Scanners.{DiscoveryInboxItem}
use tlsentinel_server.Types.Tags.{TagWithCategory}

-- The parameters of the route and of the query: `id`, `clone`, `from_inbox` and `type`.
pub record Route : Type 0 where
  pub id : Option Text
  pub clone : Option Text
  pub from_inbox : Option Text
  pub type_param : Option Text

abbrev pub clone_id : Route → Option Text
clone_id r = if is_present r.id then none else r.clone

abbrev pub from_inbox_id : Route → Option Text
from_inbox_id r = if is_present r.id then none else r.from_inbox

abbrev pub is_edit : Route → Bool
is_edit r = is_present r.id

abbrev pub is_clone : Route → Bool
is_clone r = is_present (clone_id r)

abbrev pub is_from_inbox : Route → Bool
is_from_inbox r = is_present (from_inbox_id r)

abbrev pub host : Text
host = codes "host"

abbrev pub saml : Text
saml = codes "saml"

abbrev pub manual : Text
manual = codes "manual"

abbrev known_type : Text → Option Text
known_type raw =
    if text_eq raw host || text_eq raw saml || text_eq raw manual then some raw else none

unfoldable pub type_param : Route → Option Text
type_param r = elim r.type_param [ none ↦ none | some raw ↦ known_type raw ]

unfoldable pub initial_type : Route → Text
unfolding type_param
initial_type r = or_else (type_param r) host

abbrev is_set : Option Text → Bool
is_set none = false
is_set (some t) = true

unfoldable pub type_locked : Route → Bool
unfolding type_param
type_locked r = is_edit r || is_from_inbox r || (not (is_clone r) && is_set (type_param r))

pub record EndpointForm : Type 0 where
  pub load_error : Option Text
  pub form_ready : Bool
  pub inbox_ip : Option Text
  pub type : Text
  pub name : Text
  pub dns_name : Text
  pub port : Text
  pub ip_address : Text
  pub url : Text
  pub scanner_id : Text
  pub enabled : Bool
  pub scan_exempt : Bool
  pub notes : Text
  pub pem : Text
  pub file_name : Option Text
  -- The `Set` in the order of insertion.
  pub selected_tag_ids : List Text
  pub resolving : Bool
  pub resolve_error : Option Text
  pub saving : Bool
  pub error : Option Text

unfoldable pub opened : Route → EndpointForm
unfolding initial_type type_param
opened r = record {
  load_error = none;
  form_ready = not (is_edit r) && not (is_clone r) && not (is_from_inbox r);
  inbox_ip = none;
  type = initial_type r;
  name = [];
  dns_name = [];
  port = codes "443";
  ip_address = [];
  url = [];
  scanner_id = [];
  enabled = true;
  scan_exempt = false;
  notes = [];
  pem = [];
  file_name = none;
  selected_tag_ids = [];
  resolving = false;
  resolve_error = none;
  saving = false;
  error = none;
}

abbrev text_of : Option Text → Text
text_of o = or_else o []

-- `ep.url ?? ''`, of a member that may be left out or null.
abbrev pub url_of : Option (Option Text) → Text
url_of none = []
url_of (some o) = text_of o

-- The effect of the edit mode.
unfoldable pub endpoint_loaded : Answer Endpoint → EndpointForm → EndpointForm
endpoint_loaded (answered ep) s = record s {
  type = ep.type;
  name = ep.name;
  dns_name = ep.dns_name;
  port = show_int ep.port;
  ip_address = text_of ep.ip_address;
  url = url_of ep.url;
  scanner_id = text_of ep.scanner_id;
  enabled = ep.enabled;
  scan_exempt = ep.scan_exempt;
  notes = text_of ep.notes;
  pem = [];
  form_ready = true;
}
endpoint_loaded r s = record s { load_error = error_text (codes "Failed to load endpoint.") r }

-- The tags of both modes that load an endpoint; their errors are dropped.
unfoldable pub tags_loaded : Answer (List TagWithCategory) → EndpointForm → EndpointForm
tags_loaded (answered tags) s = record s { selected_tag_ids = map (λ t. t.id) tags }
tags_loaded r s = s

-- The effect of an item of the discovery inbox.
unfoldable pub inbox_item_loaded : Answer DiscoveryInboxItem → EndpointForm → EndpointForm
inbox_item_loaded (answered item) s = record s {
  type = host;
  name = or_else item.rdns item.ip;
  dns_name = or_else item.rdns item.ip;
  ip_address = item.ip;
  port = show_int item.port;
  scanner_id = text_of item.scanner_id;
  enabled = true;
  inbox_ip = some (item.ip ++ (codes ":" ++ show_int item.port));
  form_ready = true;
}
inbox_item_loaded r s = record s { load_error = error_text (codes "Failed to load inbox item.") r }

-- The effect of the clone mode.
unfoldable pub source_loaded : Answer Endpoint → EndpointForm → EndpointForm
source_loaded (answered ep) s = record s {
  type = ep.type;
  name = codes "Copy of " ++ ep.name;
  dns_name = ep.dns_name;
  port = show_int ep.port;
  ip_address = text_of ep.ip_address;
  url = url_of ep.url;
  scanner_id = text_of ep.scanner_id;
  enabled = true;
  notes = text_of ep.notes;
  pem = [];
  form_ready = true;
}
source_loaded r s = record s { load_error = error_text (codes "Failed to load source endpoint.") r }

unfoldable pub handle_file_change : Option Text → EndpointForm → EndpointForm
handle_file_change none s = s
handle_file_change (some name) s = record s { file_name = some name }

-- `reader.onload` and `reader.onerror`.
unfoldable pub file_read : Option Text → EndpointForm → EndpointForm
file_read (some text) s = record s { pem = text; error = none }
file_read none s = record s { error = some (codes "Failed to read file.") }

unfoldable pub handle_type_change : Route → Text → EndpointForm → EndpointForm
handle_type_change r next s =
    if is_edit r
    then s
    else if not (text_eq next manual)
    then record s { type = next; error = none; resolve_error = none; pem = []; file_name = none }
    else record s { type = next; error = none; resolve_error = none }

-- `handleResolve` behind its `await`.
unfoldable pub resolved : Answer ResolveResponse → EndpointForm → EndpointForm
resolved (answered result) s = elim result.addresses [
  | [] ↦ record s {
    resolve_error = some (codes "No addresses returned for this hostname.");
    resolving = false;
  }
  | a ∷ more ↦ record s { ip_address = a; resolving = false }
]
resolved r s = record s {
  resolve_error = error_text (codes "DNS resolution failed.") r;
  resolving = false;
}

-- `handleResolve`: the host name that it asks for, if any.
unfoldable pub handle_resolve : EndpointForm → EndpointForm × Option Text
unfolding trim
handle_resolve s =
    if is_empty (trim s.dns_name)
    then (s, none)
    else (record s { resolving = true; resolve_error = none }, some (trim s.dns_name))

-- `handleCancel`: where the router goes.
unfoldable pub handle_cancel : Route → EndpointForm → Text
unfolding type_locked
handle_cancel r s =
    if is_from_inbox r
    then codes "/discovery/inbox"
    else if is_edit r
    then codes "/endpoints/" ++ text_of r.id
    else if type_locked r || is_clone r
    then codes "/endpoints/" ++ s.type
    else codes "/endpoints"

-- The title; `type_label` is the table `TYPE_LABEL`, which has the three types.
abbrev pub type_label : Text → Text
type_label t =
    if text_eq t host
    then codes "Host"
    else if text_eq t saml
    then codes "SAML"
    else if text_eq t manual
    then codes "Manual"
    else codes "undefined"

unfoldable pub typed_noun : Route → EndpointForm → Text
typed_noun r s =
    if (if is_edit r || is_clone r then s.form_ready else true)
    then type_label s.type ++ codes " Endpoint"
    else codes "Endpoint"

unfoldable pub page_title : Route → EndpointForm → Text
unfolding typed_noun type_locked
page_title r s =
    if is_from_inbox r
    then codes "Add Discovered Host"
    else if is_edit r
    then codes "Edit " ++ typed_noun r s
    else if is_clone r
    then codes "Clone " ++ typed_noun r s
    else if type_locked r
    then codes "New " ++ typed_noun r s
    else codes "New Endpoint"

unfoldable pub page_description : Route → Text
page_description r =
    if is_edit r
    then codes "Update endpoint configuration"
    else if is_clone r
    then codes "Create a duplicate of this endpoint"
    else if is_from_inbox r
    then codes "Promote a discovered host to a monitored endpoint"
    else codes "Register a new monitored endpoint"

-- ===== src/Networks.antt =====
-- NetworkDialog of web/src/pages/discovery/DiscoveryNetworksPage.tsx: the form of a network that is
-- scanned for hosts, the dialog that deletes one, and the switch of its row.
pub mod Ports
pub mod Saving
mod Tests
use tlsentinel_server.Common.{
  ℕ, Bool, true, false, ◌==◌, ◌||◌, not, List, [], ◌∷◌, ◌++◌, map, Option, none, some,
  if◌then◌else◌, or_else, keep,
}
use tlsentinel_server.Text.{Text, codes, is_empty, is_space, join, text_eq, trim}
use tlsentinel_server.Text.Numbers.{ℤ, show_int, parse_int_radix}
use tlsentinel_server.Client.{Call}
use tlsentinel_server.Page.{Answer, answered, refused, broken, error_text}
use tlsentinel_server.EndpointForm.Save.{is_port}
use tlsentinel_server.Types.Scanners.{DiscoveryNetwork, CreateDiscoveryNetworkRequest}
use tlsentinel_server.Api.Discovery.{
  create_discovery_network, update_discovery_network, delete_discovery_network,
}

pub record NetworkDialog : Type 0 where
  pub name : Text
  pub range : Text
  pub ports_raw : Text
  pub scanner_id : Text
  pub cron : Text
  pub enabled : Bool
  pub saving : Bool
  pub error : Option Text

abbrev pub no_scanner : Text
no_scanner = codes "none"

-- `ports.join(', ')`.
unfoldable pub ports_text : List ℤ → Text
unfolding join show_int
ports_text ports = join (codes ", ") (map show_int ports)

-- The effect that fills the form when it is opened, for a new network or a given one.
unfoldable pub opened : Option DiscoveryNetwork → NetworkDialog → NetworkDialog
unfolding ports_text
opened none d = record d {
  name = [];
  range = [];
  ports_raw = codes "443";
  scanner_id = no_scanner;
  cron = codes "0 2 * * *";
  enabled = true;
  error = none;
}
opened (some n) d = record d {
  name = n.name;
  range = n.range;
  ports_raw = ports_text n.ports;
  scanner_id = or_else n.scanner_id no_scanner;
  cron = n.cron_expression;
  enabled = n.enabled;
  error = none;
}

-- A unit of `[\s,]`.
unfoldable pub is_separator : ℕ → Bool
unfolding is_space
is_separator c = is_space c || (c == b',')

-- One pass of `split(/[\s,]+/)`; `gap` says that the last unit read was a separator.
pub split_from : Bool → Text → Text → List Text
split_from gap cur [] = cur ∷ []
split_from gap cur (c ∷ s) = elim (is_separator c) [
  | true ↦ elim gap [ true ↦ split_from true cur s | false ↦ cur ∷ split_from true [] s ]
  | false ↦ split_from false (cur ++ c ∷ []) s
]

-- The loop of `parsePorts` with the ports that it has, and what it returns.
unfoldable pub read_ports : List ℤ → List Text → Option (List ℤ)
read_ports ports [] = if not (is_empty ports) then some ports else none
read_ports ports (p ∷ ps) = elim (parse_int_radix 10 p) [
  | none ↦ none
  | some n ↦ elim (is_port (some n)) [ true ↦ read_ports (ports ++ n ∷ []) ps | false ↦ none ]
]

unfoldable pub parse_ports : Text → Option (List ℤ)
unfolding split_from is_separator read_ports
parse_ports raw = read_ports [] (keep (λ p. not (is_empty p)) (split_from false [] raw))

unfoldable pub network_request : List ℤ → NetworkDialog → CreateDiscoveryNetworkRequest
network_request ports d = record {
  name = trim d.name;
  range = trim d.range;
  ports = ports;
  scanner_id = if text_eq d.scanner_id no_scanner then none else some d.scanner_id;
  cron_expression = trim d.cron;
  enabled = d.enabled;
}

abbrev pub save_call : Option DiscoveryNetwork → CreateDiscoveryNetworkRequest → Call
save_call (some n) req = update_discovery_network n.id req
save_call none req = create_discovery_network req

-- The checks of `handleSave`, on the ports that were read; `call` is what it goes on with.
abbrev pub check_form :
    Option (List ℤ) → Option DiscoveryNetwork → NetworkDialog → NetworkDialog × Option Call
check_form ports initial d =
    if is_empty (trim d.name)
    then (record d { error = some (codes "Name is required.") }, none)
    else if is_empty (trim d.range)
    then (record d { error = some (codes "Range is required.") }, none)
    else elim ports [
      | none ↦
          (record d { error = some (codes "Ports must be valid numbers between 1–65535.") }, none)
      | some ns ↦
          if is_empty (trim d.cron)
          then (record d { error = some (codes "Cron expression is required.") }, none)
          else (
            record d { saving = true; error = none },
            some (save_call initial (network_request ns d)),
          )
    ]

-- `handleSave` up to its `await`, with the call that it waits for.
unfoldable pub handle_save : Option DiscoveryNetwork → NetworkDialog → NetworkDialog × Option Call
unfolding parse_ports network_request trim
handle_save initial d = check_form (parse_ports d.ports_raw) initial d

abbrev pub unexpected : Text
unexpected = codes "An unexpected error occurred."

-- Behind the `await`; the Boolean says that `onSaved` was called.
unfoldable pub save_settled : Answer DiscoveryNetwork → NetworkDialog → NetworkDialog × Bool
save_settled (answered n) d = (record d { saving = false }, true)
save_settled end d = (record d { error = error_text unexpected end; saving = false }, false)

-- The page around it.
pub record NetworksPage : Type 0 where
  pub show_create : Bool
  pub editing : Option DiscoveryNetwork
  pub deleting : Option DiscoveryNetwork

pub data PageEvent : Type 0 where
  create_clicked : PageEvent
  edit_clicked : DiscoveryNetwork → PageEvent
  delete_clicked : DiscoveryNetwork → PageEvent
  create_closed : PageEvent
  create_saved : PageEvent
  edit_closed : PageEvent
  edit_saved : PageEvent
  delete_closed : PageEvent
  deleted : PageEvent

-- The page behind a click or a call of its dialogs; the Boolean says that the list is read again.
unfoldable pub page_step : PageEvent → NetworksPage → NetworksPage × Bool
page_step create_clicked p = (record p { show_create = true }, false)
page_step (edit_clicked n) p = (record p { editing = some n }, false)
page_step (delete_clicked n) p = (record p { deleting = some n }, false)
page_step create_closed p = (record p { show_create = false }, false)
page_step create_saved p = (record p { show_create = false }, true)
page_step edit_closed p = (record p { editing = none }, false)
page_step edit_saved p = (record p { editing = none }, true)
page_step delete_closed p = (record p { deleting = none }, false)
page_step deleted p = (record p { deleting = none }, true)

-- The call of `toggleMutation`.
unfoldable pub toggle_call : DiscoveryNetwork → Call
toggle_call n = update_discovery_network n.id (record {
  name = n.name;
  range = n.range;
  ports = n.ports;
  scanner_id = n.scanner_id;
  cron_expression = n.cron_expression;
  enabled = not n.enabled;
})

-- `handleDelete`, up to its `await` and behind it.
pub record DeleteDialog : Type 0 where
  pub deleting : Bool
  pub error : Option Text

unfoldable pub handle_delete : Option DiscoveryNetwork → DeleteDialog → DeleteDialog × Option Call
handle_delete none d = (d, none)
handle_delete (some n) d =
    (record d { deleting = true; error = none }, some (delete_discovery_network n.id))

unfoldable pub delete_settled : Answer (Unit {0}) → DeleteDialog → DeleteDialog × Bool
delete_settled (answered _) d = (record d { deleting = false }, true)
delete_settled end d = (record d { error = error_text unexpected end; deleting = false }, false)

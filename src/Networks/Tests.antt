-- ===== src/Networks/Tests.antt =====
-- Texts of ports and a network on which the theorems on the network form are used.
use tlsentinel_server.Common.{
  true, false, List, [], ◌∷◌, none, some, map, ◌≡◌, ◌≢◌, ◌↔◌, refl, arith,
}
use tlsentinel_server.Text.{codes, trim, trim_start, is_space}
use tlsentinel_server.Text.Numbers.{ℤ, pos, parse_int_radix}
use tlsentinel_server.Types.Scanners.{DiscoveryNetwork}
use tlsentinel_server.Api.Discovery.{update_discovery_network}
use tlsentinel_server.Networks.{
  NetworkDialog, opened, network_request, save_call, handle_save, parse_ports,
}
use tlsentinel_server.Networks.Ports.{parts_of, ArePorts}
use tlsentinel_server.Networks.Saving.{
  IsFilled, IsStored, same_network, handle_save-sends_iff, handle_save-opened,
}

abbrev office : DiscoveryNetwork
office = record {
  id = codes "n1";
  name = codes "Office-LAN";
  range = codes "10.0.0.0/24";
  ports = pos 443 ∷ pos 8443 ∷ [];
  scanner_id = none;
  scanner_name = none;
  cron_expression = codes "0 2 * * *";
  enabled = true;
  created_at = [];
  updated_at = [];
}

abbrev typed : NetworkDialog
typed = record {
  name = codes "Lab ";
  range = codes "10.1.0.0/24";
  ports_raw = codes "443, 8443";
  scanner_id = codes "none";
  cron = codes "0 2 * * *";
  enabled = true;
  saving = false;
  error = none;
}

mixed_separators :
    parse_ports (codes " 443,,8443\t8080 ") ≡ some (pos 443 ∷ pos 8443 ∷ pos 8080 ∷ [])
unfolding parse_ports parse_int_radix
mixed_separators = refl

-- `parseInt` stops at the first unit that is no digit.
range_of_ports : parse_ports (codes "8000-8100") ≡ some (pos 8000 ∷ [])
unfolding parse_ports parse_int_radix
range_of_ports = refl

port_zero : parse_ports (codes "443 0") ≡ none
unfolding parse_ports parse_int_radix
port_zero = refl

office-IsStored : IsStored office
unfolding trim trim_start is_space
office-IsStored = record {
  name = (refl, λ e. ground arith);
  range = (refl, λ e. ground arith);
  cron = (refl, λ e. ground arith);
  ports = (
    (λ e. ground arith),
    ((443, refl, omega arith, omega arith), ((8443, refl, omega arith, omega arith), tt)),
  );
  scanner = λ e. ground arith;
}

handle_save-sends_iff_example :
    let new_call = save_call none (network_request (pos 443 ∷ pos 8443 ∷ []) typed) in
    ((handle_save none typed).1 ≡ some new_call) ↔ (
      (ns : List ℤ) × IsFilled typed
      × (ns ≢ [])
      × (map (parse_int_radix 10) (parts_of typed.ports_raw) ≡ map some ns)
      × ArePorts ns
      × (save_call none (network_request ns typed) ≡ new_call))
handle_save-sends_iff_example =
    handle_save-sends_iff none typed
      (save_call none (network_request (pos 443 ∷ pos 8443 ∷ []) typed))

handle_save-opened_example :
    (handle_save (some office) (opened (some office) typed)).1
    ≡ some (update_discovery_network (codes "n1") (same_network office))
handle_save-opened_example = handle_save-opened office typed office-IsStored

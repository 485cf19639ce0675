-- ===== src/Networks/Saving.antt =====
-- `handleSave` of web/src/pages/discovery/DiscoveryNetworksPage.tsx: what it sends, and that a
-- network is sent back as it was opened.
use tlsentinel_server.Common.{
  List, [], map, Option, none, some, ◌≡◌, ◌≢◌, ◌↔◌, refl, sym, ap, ◌∙◌, arith, or_else,
  if◌then◌else◌, Bool-cases, inl, inr,
}
use tlsentinel_server.Text.{Text, text_eq, text_eq_iff, text_eq_refl, trim}
use tlsentinel_server.Text.Numbers.{ℤ, parse_int_radix}
use tlsentinel_server.Client.{Call}
use tlsentinel_server.EndpointForm.Outcomes.{is_empty_iff}
use tlsentinel_server.Types.Scanners.{DiscoveryNetwork, CreateDiscoveryNetworkRequest}
use tlsentinel_server.Api.Discovery.{update_discovery_network}
use tlsentinel_server.Networks.{
  NetworkDialog, no_scanner, opened, parse_ports, network_request, save_call, check_form,
  handle_save,
}
use tlsentinel_server.Networks.Ports.{parts_of, ArePorts, parse_ports_iff, parse_ports-ports_text}

-- The texts of the form are not blank.
abbrev pub IsFilled : NetworkDialog → Type 0
IsFilled d = (trim d.name ≢ []) × (trim d.range ≢ []) × (trim d.cron ≢ [])

check_form_iff :
    (ports : Option (List ℤ)) (initial : Option DiscoveryNetwork) (d : NetworkDialog) (c : Call)
    → ((check_form ports initial d).1 ≡ some c) ↔ (
        (ns : List ℤ) × IsFilled d
        × (ports ≡ some ns)
        × (save_call initial (network_request ns d) ≡ c))
check_form_iff none initial d c = ground arith
check_form_iff (some ns) initial d c =
    let name = is_empty_iff (trim d.name) in
    let range = is_empty_iff (trim d.range) in
    let cron = is_empty_iff (trim d.cron) in
    (
      λ e. (ns, (ground arith, ground arith, ground arith), refl, ground arith),
      λ (ms, filled, e, call). ground arith,
    )

-- The form sends a call exactly when its texts are not blank and each part of its ports is read as
-- a number from 1 to 65535, one at least; it sends the trimmed texts and these ports in their order.
pub handle_save-sends_iff :
    (initial : Option DiscoveryNetwork) (d : NetworkDialog) (c : Call)
    → ((handle_save initial d).1 ≡ some c) ↔ (
        (ns : List ℤ) × IsFilled d
        × (ns ≢ [])
        × (map (parse_int_radix 10) (parts_of d.ports_raw) ≡ map some ns)
        × ArePorts ns
        × (save_call initial (network_request ns d) ≡ c))
unfolding handle_save
handle_save-sends_iff initial d c = (
  λ e.
      let (ns, filled, ports, call) = (check_form_iff (parse_ports d.ports_raw) initial d c).0 e in
      let (some_port, reads, all_ports) = (parse_ports_iff d.ports_raw ns).0 ports in
      (ns, filled, some_port, reads, all_ports, call),
  λ (ns, filled, some_port, reads, all_ports, call).
      (check_form_iff (parse_ports d.ports_raw) initial d c).1
        (ns, filled, (parse_ports_iff d.ports_raw ns).1 (some_port, reads, all_ports), call),
)

-- A network as the server keeps it: its texts are trimmed and not empty, and it has ports.
pub record IsStored (n : DiscoveryNetwork) : Type 0 where
  pub name : (trim n.name ≡ n.name) × (n.name ≢ [])
  pub range : (trim n.range ≡ n.range) × (n.range ≢ [])
  pub cron : (trim n.cron_expression ≡ n.cron_expression) × (n.cron_expression ≢ [])
  pub ports : (n.ports ≢ []) × ArePorts n.ports
  pub scanner : n.scanner_id ≢ some no_scanner

abbrev pub same_network : DiscoveryNetwork → CreateDiscoveryNetworkRequest
same_network n = record {
  name = n.name;
  range = n.range;
  ports = n.ports;
  scanner_id = n.scanner_id;
  cron_expression = n.cron_expression;
  enabled = n.enabled;
}

same_scanner :
    (o : Option Text)
    → o ≢ some no_scanner
    → (if text_eq (or_else o no_scanner) no_scanner then none else some (or_else o no_scanner)) ≡ o
same_scanner none h = rw (text_eq_refl no_scanner) refl
same_scanner (some t) h = elim (Bool-cases (text_eq t no_scanner)) [
  | inl e ↦ absurd (h (ap some ((text_eq_iff t no_scanner).0 e)))
  | inr e ↦ rw e refl
]

-- A network that is opened and saved without a change is sent back with all its fields unchanged.
pub handle_save-opened :
    (n : DiscoveryNetwork) (d : NetworkDialog)
    → IsStored n
    → (handle_save (some n) (opened (some n) d)).1
      ≡ some (update_discovery_network n.id (same_network n))
unfolding opened network_request handle_save
handle_save-opened n d h =
    let o = opened (some n) d in
    (check_form_iff (parse_ports o.ports_raw) (some n) o
        (update_discovery_network n.id (same_network n))).1
      (
        n.ports,
        (
          λ e. h.name.1 (sym h.name.0 ∙ e),
          λ e. h.range.1 (sym h.range.0 ∙ e),
          λ e. h.cron.1 (sym h.cron.0 ∙ e),
        ),
        parse_ports-ports_text n.ports h.ports.0 h.ports.1,
        ap (update_discovery_network n.id)
            (rw (h.name.0, h.range.0, h.cron.0, same_scanner n.scanner_id h.scanner) refl),
      )

-- ===== src/Networks/Ports.antt =====
-- `parsePorts` of web/src/pages/discovery/DiscoveryNetworksPage.tsx: what it accepts, and that it
-- reads back the ports that the form shows.
use tlsentinel_server.Common.{
  ℕ, Bool, true, false, not, List, [], ◌∷◌, ◌++◌, map, append_assoc, append-nil, none, some, ◌≡◌,
  ◌≢◌, ◌↔◌, refl, sym, ap, ◌∙◌, arith, All, keep, inl, inr, Bool-cases, Option-cases,
}
use tlsentinel_server.Text.{Text, codes, is_empty, join}
use tlsentinel_server.Text.Numbers.{ℤ, pos, negsuc, show_int, show, parse_int_radix}
use tlsentinel_server.Text.Numbers.Laws.{
  IsDigit, IsCons, show-digits, digit-no_space, parse_int_radix-show,
}
use tlsentinel_server.EndpointForm.Save.{is_port}
use tlsentinel_server.EndpointForm.Outcomes.{IsPort, is_port_iff}
use tlsentinel_server.Networks.{is_separator, split_from, read_ports, parse_ports, ports_text}

-- The parts between separators, without the empty ones.
abbrev pub parts_of : Text → List Text
parts_of raw = keep (λ p. not (is_empty p)) (split_from false [] raw)

abbrev pub ArePorts : List ℤ → Type 0
ArePorts = All (λ n. IsPort (some n))

-- What the loop returns: the ports that it has, and one for each part.
abbrev Reads : List ℤ → List Text → List ℤ → Type 0
Reads ports ps ns =
    (ms : List ℤ) × (ns ≡ ports ++ ms)
    × (ns ≢ [])
    × (map (parse_int_radix 10) ps ≡ map some ms)
    × ArePorts ms

none_is_not : (ns : List ℤ) → none ≢ some ns
none_is_not ns e = ground arith

read_ports-Reads :
    (ports : List ℤ) (ps : List Text) (ns : List ℤ)
    → read_ports ports ps ≡ some ns
    → Reads ports ps ns
unfolding read_ports
read_ports-Reads [] [] ns e = absurd (none_is_not ns e)
read_ports-Reads (n ∷ ports) [] ns e =
    ([], ground (arith, append-nil (n ∷ ports)), (λ k. ground arith), refl, tt)
read_ports-Reads ports (p ∷ ps) ns e = elim (Option-cases (parse_int_radix 10 p)) [
  | inl k ↦ absurd (none_is_not ns (rw (k, read_ports) at e))
  | inr (n, k) ↦ elim (Bool-cases (is_port (some n))) [
    | inl q ↦
        let (ms, split, some_port, reads, all_ports) =
          read_ports-Reads (ports ++ n ∷ []) ps ns (rw (k, q, read_ports) at e) in
        (
          n ∷ ms,
          split ∙ append_assoc ports (n ∷ []) ms,
          some_port,
          cc (k, reads),
          ((is_port_iff (some n)).0 q, all_ports),
        )
    | inr q ↦ absurd (none_is_not ns (rw (k, q, read_ports) at e))
  ]
]

read_ports-of_ports :
    (ports : List ℤ) (ps : List Text) (ms : List ℤ)
    → ports ++ ms ≢ []
    → map (parse_int_radix 10) ps ≡ map some ms
    → ArePorts ms
    → read_ports ports ps ≡ some (ports ++ ms)
unfolding read_ports
read_ports-of_ports [] [] [] h e k = absurd (h refl)
read_ports-of_ports (n ∷ ports) [] [] h e k = ap some (sym (append-nil (n ∷ ports)))
read_ports-of_ports ports [] (m ∷ ms) h e k = absurd (ground arith)
read_ports-of_ports ports (p ∷ ps) [] h e k = absurd (ground arith)
read_ports-of_ports ports (p ∷ ps) (m ∷ ms) h e (is, k) =
    let first : parse_int_radix 10 p ≡ some m = ground arith in
    let rest : map (parse_int_radix 10) ps ≡ map some ms = ground arith in
    let nested = append_assoc ports (m ∷ []) ms in
    rw (first, (is_port_iff (some m)).1 is, read_ports)
      (read_ports-of_ports (ports ++ m ∷ []) ps ms (λ q. h (sym nested ∙ q)) rest k
        ∙ ap some nested)

-- The ports are accepted exactly when there is a part at least, and each is read as a number from 1
-- to 65535; they are these numbers in their order.
pub parse_ports_iff :
    (raw : Text) (ns : List ℤ)
    → (parse_ports raw ≡ some ns)
      ↔ ((ns ≢ []) × (map (parse_int_radix 10) (parts_of raw) ≡ map some ns) × ArePorts ns)
unfolding parse_ports
parse_ports_iff raw ns = (
  λ e.
      let (ms, same, some_port, reads, all_ports) = read_ports-Reads [] (parts_of raw) ns e in
      (some_port, reads ∙ ap (map some) (sym same), rw same all_ports),
  λ (some_port, reads, all_ports).
      read_ports-of_ports [] (parts_of raw) ns some_port reads all_ports,
)

-- A part that is printed is no separator and not empty.
abbrev Ink : Text → Type 0
Ink = All (λ c. is_separator c ≡ false)

split_from_of_Ink :
    (gap : Bool) (cur s t : Text)
    → s ≢ []
    → Ink s
    → split_from gap cur (s ++ t) ≡ split_from false (cur ++ s) t
unfolding split_from
split_from_of_Ink gap cur [] t h k = absurd (h refl)
split_from_of_Ink gap cur (c ∷ []) t h (p, _) = rw (p, split_from)
split_from_of_Ink gap cur (c ∷ d ∷ s) t h (p, k) =
    rw (p, split_from)
      (split_from_of_Ink false (cur ++ c ∷ []) (d ∷ s) t (λ e. ground arith) k
        ∙ ap (λ r. split_from false r t) (append_assoc cur (c ∷ []) (d ∷ s)))

show-Ink : (n : ℕ) → (show n ≢ []) × Ink (show n)
unfolding is_separator
show-Ink n = go (show n) (show-digits n).0 (show-digits n).1
  where
    ink : (s : Text) → All IsDigit s → Ink s
    ink [] h = tt
    ink (c ∷ s) (h, hs) = (ground (arith, digit-no_space c h), ink s hs)

    go : (s : Text) → All IsDigit s → IsCons s → (s ≢ []) × Ink s
    go [] h k = absurd k
    go (c ∷ s) h k = ((λ e. ground arith), ink (c ∷ s) h)

abbrev IsPart : Text → Type 0
IsPart w = (w ≢ []) × Ink w

split_from-join :
    (gap : Bool) (cur w : Text) (ws : List Text)
    → All IsPart (w ∷ ws)
    → split_from gap cur (join (codes ", ") (w ∷ ws)) ≡ (cur ++ w) ∷ ws
unfolding split_from join is_separator
split_from-join gap cur w [] ((h, k), _) =
    ap (split_from gap cur) (sym (append-nil w)) ∙ split_from_of_Ink gap cur w [] h k
split_from-join gap cur w (v ∷ ws) ((h, k), hs) =
    split_from_of_Ink gap cur w (codes ", " ++ join (codes ", ") (v ∷ ws)) h k
    ∙ ap (◌∷◌ (cur ++ w)) (split_from-join true [] v ws hs)

keep_parts : (ws : List Text) → All IsPart ws → keep (λ p. not (is_empty p)) ws ≡ ws
keep_parts [] h = refl
keep_parts ([] ∷ ws) ((h, _), hs) = absurd (h refl)
keep_parts ((c ∷ w) ∷ ws) (h, hs) = ap (◌∷◌ (c ∷ w)) (keep_parts ws hs)

parts_of_ports : (ns : List ℤ) → ArePorts ns → All IsPart (map show_int ns)
unfolding show_int
parts_of_ports [] h = tt
parts_of_ports (pos n ∷ ns) (_, hs) = (show-Ink n, parts_of_ports ns hs)
parts_of_ports (negsuc n ∷ ns) ((m, e, _, _), hs) = absurd (ground arith)

read_back : (ns : List ℤ) → ArePorts ns → map (parse_int_radix 10) (map show_int ns) ≡ map some ns
unfolding show_int
read_back [] h = refl
read_back (pos n ∷ ns) (_, hs) = ground (arith, parse_int_radix-show n, read_back ns hs)
read_back (negsuc n ∷ ns) ((m, e, _, _), hs) = absurd (ground arith)

parts_of-ports_text :
    (ns : List ℤ) → ns ≢ [] → ArePorts ns → parts_of (ports_text ns) ≡ map show_int ns
unfolding ports_text
parts_of-ports_text [] h k = absurd (h refl)
parts_of-ports_text (n ∷ ns) h k =
    let parts = parts_of_ports (n ∷ ns) k in
    ap (keep (λ p. not (is_empty p)))
      (split_from-join false [] (show_int n) (map show_int ns) parts)
    ∙ keep_parts _ parts

-- The ports that the form shows are read back from its text.
pub parse_ports-ports_text :
    (ns : List ℤ) → ns ≢ [] → ArePorts ns → parse_ports (ports_text ns) ≡ some ns
parse_ports-ports_text ns h k =
    (parse_ports_iff (ports_text ns) ns).1
      (h, ap (map (parse_int_radix 10)) (parts_of-ports_text ns h k) ∙ read_back ns k, k)

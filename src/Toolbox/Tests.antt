-- ===== src/Toolbox/Tests.antt =====
-- Inputs of the toolbox, on which the theorems are used.
use tlsentinel_server.Common.{
  Option, ◌++◌, ℕ, ◌≤◌, true, false, not, List, [], ◌∷◌, map, keep, none, some, ◌≡◌, ◌≢◌, ◌↔◌, refl,
  arith, All, length,
}
use tlsentinel_server.Text.{
  Text, codes, is_empty, trim, trim_start, pad_start, is_space, join, split, has_unit, text_eq,
}
use tlsentinel_server.Text.Numbers.{show_radix, parse_int_radix}
use tlsentinel_server.Toolbox.Hex.{page_buf_to_hex, parse_hex_input, is_hex}
use tlsentinel_server.Toolbox.Hex.RoundTrip.{parse_hex_input-page_buf_to_hex}
use tlsentinel_server.Toolbox.Csr.{
  is_valid_hostname, is_valid_ipv4, is_valid_ipv6, classify_san, validate_cn, is_valid_ip,
}
use tlsentinel_server.Toolbox.Csr.Names.{AreLabels, is_valid_hostname_iff}
use tlsentinel_server.Toolbox.Csr.Request.{SubjectFields, can_generate, san_entries, san_error}
use tlsentinel_server.Toolbox.Csr.Subject.{can_generate-san_entries}
use tlsentinel_server.Toolbox.Chain.{Certificate, Built, built, leaf_of, build_chain}
use tlsentinel_server.Toolbox.Chain.Validity.{IsSoundChain, build_chain_iff}
use tlsentinel_server.Toolbox.Panel.{
  closed_panel, Encoded, encoded, type_hex, handle_hex_convert, handle_tag_change,
}
use tlsentinel_server.Toolbox.Panel.Encoding.{
  Typed, open_panel, convert_hex, change_tag, IsEncoding, Typed-IsEncoding,
}

parse_hex_input-page_buf_to_hex_example :
    parse_hex_input (page_buf_to_hex (0 ∷ 0xaf ∷ 255 ∷ [])) ≡ some (0 ∷ 0xaf ∷ 255 ∷ [])
parse_hex_input-page_buf_to_hex_example =
    parse_hex_input-page_buf_to_hex 0 (0xaf ∷ 255 ∷ [])
      (omega arith, (omega arith, (omega arith, tt)))

shown_bytes : page_buf_to_hex (0 ∷ 0xaf ∷ 255 ∷ []) ≡ codes "00 AF FF"
unfolding page_buf_to_hex join pad_start show_radix
shown_bytes = refl

abbrev twenty : List ℕ
twenty =
    1 ∷ 2 ∷ 3 ∷ 4 ∷ 5 ∷ 6 ∷ 7 ∷ 8 ∷ 9 ∷ 10 ∷ 11 ∷ 12 ∷ 13 ∷ 14 ∷ 15 ∷ 16 ∷ 17 ∷ 18 ∷ 19 ∷ 20 ∷ []

is_valid_hostname_iff_example : (is_valid_hostname (codes "*.a-b.org") true ≡ true) ↔ (
    (codes "*.a-b.org" ≢ [])
    × (length (codes "*.a-b.org") ≤ 253)
    × AreLabels true (split b'.' (codes "*.a-b.org")))
is_valid_hostname_iff_example = is_valid_hostname_iff (codes "*.a-b.org") true

name_not_blank : is_empty (trim (codes " a.org ")) ≡ false
unfolding trim trim_start is_space
name_not_blank = refl

abbrev form : SubjectFields
form = record { cn = codes "a.org"; o = []; ou = []; c = []; st = []; l = []; email = [] }

form_is_complete : can_generate (codes "a.org") (codes "a.org " ∷ [] ∷ codes "10.0.0.1" ∷ []) ≡ true
unfolding can_generate san_error classify_san validate_cn trim trim_start is_space is_valid_ip
    is_valid_ipv4 is_valid_ipv6 is_valid_hostname split has_unit text_eq is_hex parse_int_radix
form_is_complete = refl

can_generate-san_entries_example :
    (map (λ e. e.value) (san_entries (codes "a.org " ∷ [] ∷ codes "10.0.0.1" ∷ []))
      ≡ keep (λ v. not (is_empty v)) (map trim (codes "a.org " ∷ [] ∷ codes "10.0.0.1" ∷ [])))
    × All
        (λ e. classify_san e.value ≡ some e.type)
        (san_entries (codes "a.org " ∷ [] ∷ codes "10.0.0.1" ∷ []))
can_generate-san_entries_example =
    can_generate-san_entries (codes "a.org") (codes "a.org " ∷ [] ∷ codes "10.0.0.1" ∷ [])
      form_is_complete

abbrev root_certificate : Certificate
root_certificate = record {
  subject = codes "CN=R";
  issuer = codes "CN=R";
  not_before = 10;
  not_after = 90;
  basic_ca = some true;
  common_name = some (codes "R");
  pem = codes "r";
}

abbrev leaf_certificate : Certificate
leaf_certificate = record root_certificate {
  subject = codes "CN=L";
  basic_ca = none;
  pem = codes "l";
}

abbrev leaf_first : List Certificate → Option Certificate → Built
leaf_first certs leaf = built (leaf_certificate ∷ root_certificate ∷ [])

build_chain_iff_example :
    ((build_chain leaf_first 50 (root_certificate ∷ leaf_certificate ∷ [])).valid ≡ true) ↔ (
      (chain : List Certificate) × (leaf_first
          (root_certificate ∷ leaf_certificate ∷ [])
          (leaf_of (root_certificate ∷ leaf_certificate ∷ []))
        ≡ built chain)
      × IsSoundChain 50 chain)
build_chain_iff_example = build_chain_iff leaf_first 50 (root_certificate ∷ leaf_certificate ∷ [])

valid_chain : (build_chain leaf_first 50 (root_certificate ∷ leaf_certificate ∷ [])).valid ≡ true
unfolding build_chain text_eq
valid_chain = refl

abbrev tagged : List ℕ → Text → Encoded
tagged bytes tag = encoded (tag ++ bytes)

Typed-IsEncoding_example : IsEncoding tagged (
    handle_tag_change tagged
      (codes "X509 CRL")
      (handle_hex_convert tagged (type_hex (codes "0A") closed_panel)))
Typed-IsEncoding_example =
    Typed-IsEncoding tagged
      (change_tag (convert_hex (Typed.type open_panel (codes "0A"))) (codes "X509 CRL"))

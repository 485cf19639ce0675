-- ===== src/Toolbox/Csr.antt =====
-- web/src/pages/toolbox/CsrGeneratorPage.tsx: the checks of names and addresses, and the request
-- that is made of the form. Web Crypto and the X.509 library are parameters.
pub mod Request
pub mod Names
pub mod Addresses
pub mod Subject
use tlsentinel_server.Common.{
  ℕ, suc, zero, ◌+◌, Bool, true, false, ◌&&◌, ◌||◌, not, List, [], ◌∷◌, ◌++◌, map, Option, none,
  some, leb, ltb, ◌==◌, if◌then◌else◌, length, keep, all, is_some, or_else,
}
use tlsentinel_server.Text.{Text, codes, text_eq, is_empty, trim, has_unit, is_space, split, join}
use tlsentinel_server.Text.Numbers.{ℤ, pos, negsuc, parse_int_radix}
use tlsentinel_server.Toolbox.Hex.{is_hex}

pub data KeyAlgo : Type 0 where
  rsa_2048 rsa_4096 ec_p256 ec_p384 : KeyAlgo

pub data KeyGen : Type 0 where
  rsa : (name : Text) (modulus_length : ℕ) (public_exponent : List ℕ) (hash : Text) → KeyGen
  ec : (name named_curve : Text) → KeyGen

pub record Signing : Type 0 where
  pub name : Text
  pub hash : Option Text

abbrev rsa_name : Text
rsa_name = codes "RSASSA-PKCS1-v1_5"

pub get_algo_params : KeyAlgo → KeyGen × Signing
get_algo_params rsa_2048 =
    (rsa rsa_name 2048 (1 ∷ 0 ∷ 1 ∷ []) (codes "SHA-256"), record { name = rsa_name; hash = none })
get_algo_params rsa_4096 =
    (rsa rsa_name 4096 (1 ∷ 0 ∷ 1 ∷ []) (codes "SHA-256"), record { name = rsa_name; hash = none })
get_algo_params ec_p256 = (
  ec (codes "ECDSA") (codes "P-256"),
  record { name = codes "ECDSA"; hash = some (codes "SHA-256") },
)
get_algo_params ec_p384 = (
  ec (codes "ECDSA") (codes "P-384"),
  record { name = codes "ECDSA"; hash = some (codes "SHA-384") },
)

pub is_alphanumeric : ℕ → Bool
is_alphanumeric c =
    (leb b'a' c && leb c b'z') || (leb b'A' c && leb c b'Z') || (leb b'0' c && leb c b'9')

-- `([a-zA-Z0-9-]*[a-zA-Z0-9])?$`; the first argument says that the unit before is a letter or digit.
pub label_rest : Bool → Text → Bool
label_rest ends [] = ends
label_rest ends (c ∷ s) = (is_alphanumeric c || c == b'-') && label_rest (is_alphanumeric c) s

-- `HOSTNAME_LABEL.test(label)`.
pub hostname_label : Text → Bool
hostname_label [] = false
hostname_label (c ∷ s) = is_alphanumeric c && label_rest true s

-- The loop over the labels; `first` is `i === 0`.
pub labels_ok : Bool → Bool → List Text → Bool
labels_ok allow_wildcard first [] = true
labels_ok allow_wildcard first (label ∷ labels) =
    let rest = labels_ok allow_wildcard false labels in
    if is_empty label || ltb 63 (length label)
    then false
    else if allow_wildcard && (first && text_eq label (codes "*"))
    then rest
    else if not (hostname_label label)
    then false
    else rest

unfoldable pub is_valid_hostname : Text → Bool → Bool
unfolding labels_ok hostname_label label_rest is_alphanumeric
is_valid_hostname s allow_wildcard =
    if is_empty s || ltb 253 (length s) then false else labels_ok allow_wildcard true (split b'.' s)

-- `\d`.
abbrev pub is_digit : ℕ → Bool
is_digit c = leb b'0' c && leb c b'9'

-- `^(\d{1,3})$`, a part between dots.
abbrev pub is_octet : Text → Bool
is_octet s = not (is_empty s) && leb (length s) 3 && all is_digit s

abbrev pub at_most_255 : Option ℤ → Bool
at_most_255 none = false
at_most_255 (some (pos n)) = leb n 255
at_most_255 (some (negsuc n)) = true

-- The four groups of the expression are the parts between the dots, which no group holds.
pub octets : List Text → Bool
octets (a ∷ b ∷ c ∷ d ∷ []) =
    all is_octet (a ∷ b ∷ c ∷ d ∷ [])
    && all (λ n. at_most_255 (parse_int_radix 10 n)) (a ∷ b ∷ c ∷ d ∷ [])
octets _ = false

unfoldable pub is_valid_ipv4 : Text → Bool
unfolding octets
is_valid_ipv4 s = octets (split b'.' s)

-- `(s.match(/::/g) || []).length`: the matches do not overlap.
pub double_colons : Text → ℕ
double_colons [] = 0
double_colons (c ∷ []) = 0
double_colons (c ∷ d ∷ s) = elim (c == b':' && d == b':') [
  | true ↦ suc (double_colons s)
  | false ↦ double_colons (d ∷ s)
]

abbrev pub is_group : Text → Bool
is_group g = is_empty g || (leb (length g) 4 && (not (is_empty g) && all is_hex g))

unfoldable pub is_valid_ipv6 : Text → Bool
unfolding double_colons
is_valid_ipv6 s =
    if not (has_unit b':' s) || not (not (is_empty s) && all (λ c. is_hex c || c == b':') s)
    then false
    else if ltb 1 (double_colons s)
    then false
    else if ltb 8 (length (split b':' s))
    then false
    else all is_group (split b':' s)

unfoldable pub is_valid_ip : Text → Bool
is_valid_ip s = is_valid_ipv4 s || is_valid_ipv6 s

-- `[^\s@]*`.
abbrev pub no_space_or_at : Text → Bool
no_space_or_at s = all (λ c. not (is_space c || c == b'@')) s

-- A dot that has a unit behind it.
pub dot_inside : Text → Bool
dot_inside [] = false
dot_inside (c ∷ []) = false
dot_inside (c ∷ d ∷ s) = c == b'.' || dot_inside (d ∷ s)

abbrev pub is_domain : Text → Bool
is_domain [] = false
is_domain (c ∷ s) = no_space_or_at (c ∷ s) && dot_inside s

-- The parts of the expression on both sides of its `@`, which neither part holds.
pub email_parts : List Text → Bool
email_parts (user ∷ domain ∷ []) = not (is_empty user) && no_space_or_at user && is_domain domain
email_parts _ = false

pub is_valid_email : Text → Bool
is_valid_email s = email_parts (split b'@' s)

pub data SanType : Type 0 where
  dns ip email : SanType

unfoldable pub classify_san : Text → Option SanType
unfolding is_valid_ip is_valid_email
classify_san value =
    let v = trim value in
    if is_empty v
    then none
    else if is_valid_ip v
    then some ip
    else if has_unit b'@' v
    then (if is_valid_email v then some email else none)
    else if is_valid_hostname v true
    then some dns
    else none

unfoldable pub validate_cn : Text → Option Text
unfolding is_valid_ip
validate_cn value =
    let v = trim value in
    if is_empty v
    then none
    else if is_valid_ip v
    then none
    else if is_valid_hostname v true
    then none
    else some (codes "Must be a hostname (example.com), wildcard (*.example.com), or IP address.")

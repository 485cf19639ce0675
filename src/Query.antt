-- ===== src/Query.antt =====
-- `URLSearchParams` and `encodeURIComponent`, as the modules of web/src/api use them.
pub mod Decode
pub mod RoundTrip
pub mod Params
use tlsentinel_server.Common.{
  ℕ, ◌+◌, ◌-◌, ◌*◌, ◌/◌, ◌%◌, ◌<◌, Bool, true, false, ◌&&◌, ◌||◌, not, List, [], ◌∷◌, ◌++◌, map,
  Option, none, ◌≡◌, refl, some, leb, ltb, ◌==◌, if◌then◌else◌, All,
}
use tlsentinel_server.Text.{Text, codes, text_eq, is_empty, join}

-- The UTF-8 bytes of a code point.
pub utf8_point : ℕ → List ℕ
utf8_point c =
    if ltb c 0x80
    then c ∷ []
    else if ltb c 0x800
    then (0xc0 + c / 64) ∷ (0x80 + c % 64) ∷ []
    else if ltb c 0x10000
    then (0xe0 + c / 4096) ∷ (0x80 + c / 64 % 64) ∷ (0x80 + c % 64) ∷ []
    else (0xf0 + c / 262144) ∷ (0x80 + c / 4096 % 64) ∷ (0x80 + c / 64 % 64) ∷ (0x80 + c % 64) ∷ []

abbrev is_high : ℕ → Bool
is_high c = leb 0xd800 c && leb c 0xdbff

abbrev is_low : ℕ → Bool
is_low c = leb 0xdc00 c && leb c 0xdfff

abbrev point_of_pair : ℕ → ℕ → ℕ
point_of_pair h l = 0x10000 + ((h - 0xd800) * 1024 + (l - 0xdc00))

-- A text as UTF-8. The first argument is a high surrogate that waits for its low one; a surrogate
-- that stands alone is replaced by U+FFFD.
pub utf8_from : Option ℕ → Text → List ℕ
utf8_from none [] = []
utf8_from (some h) [] = utf8_point 0xfffd
utf8_from none (c ∷ s) = elim (is_high c) [
  | true ↦ utf8_from (some c) s
  | false ↦ utf8_point (if is_low c then 0xfffd else c) ++ utf8_from none s
]
utf8_from (some h) (c ∷ s) = elim (is_low c) [
  | true ↦ utf8_point (point_of_pair h c) ++ utf8_from none s
  | false ↦
      utf8_point 0xfffd
      ++ elim (is_high c) [ true ↦ utf8_from (some c) s | false ↦ utf8_point c ++ utf8_from none s ]
]

unfoldable pub utf8 : Text → List ℕ
unfolding utf8_from utf8_point
utf8 s = utf8_from none s

abbrev is_alphanumeric : ℕ → Bool
is_alphanumeric b =
    (leb b'0' b && leb b b'9') || (leb b'A' b && leb b b'Z') || (leb b'a' b && leb b b'z')

upper_digit : ℕ → ℕ
upper_digit d = if ltb d 10 then b'0' + d else b'A' + (d - 10)

percent : ℕ → Text
percent b = b'%' ∷ upper_digit (b / 16) ∷ upper_digit (b % 16) ∷ []

abbrev form_safe : ℕ → Bool
form_safe b = is_alphanumeric b || (b == b'*') || (b == b'-') || (b == b'.') || (b == b'_')

abbrev component_safe : ℕ → Bool
component_safe b =
    is_alphanumeric b
    || (b == b'-')
    || (b == b'_')
    || (b == b'.')
    || (b == b'!')
    || (b == b'~')
    || (b == b'*')
    || (b == b'\'')
    || (b == b'(')
    || (b == b')')

-- A byte in `application/x-www-form-urlencoded`.
pub form_byte : ℕ → Text
form_byte b = if form_safe b then b ∷ [] else if b == 0x20 then b'+' ∷ [] else percent b

-- A byte under `encodeURIComponent`.
pub component_byte : ℕ → Text
component_byte b = if component_safe b then b ∷ [] else percent b

pub encode_bytes : (ℕ → Text) → List ℕ → Text
encode_bytes enc [] = []
encode_bytes enc (b ∷ bs) = enc b ++ encode_bytes enc bs

pub form_pair : Text × Text → Text
form_pair (k, v) = encode_bytes form_byte (utf8 k) ++ (b'=' ∷ encode_bytes form_byte (utf8 v))

-- `String(params)`.
unfoldable pub to_query : List (Text × Text) → Text
unfolding form_pair encode_bytes form_byte percent upper_digit utf8
to_query ps = join (codes "&") (map form_pair ps)

pub remove : Text → List (Text × Text) → List (Text × Text)
remove k [] = []
remove k ((j, w) ∷ ps) = if text_eq j k then remove k ps else (j, w) ∷ remove k ps

-- `params.set(k, v)`.
unfoldable pub set_param : Text → Text → List (Text × Text) → List (Text × Text)
unfolding remove text_eq
set_param k v [] = (k, v) ∷ []
set_param k v ((j, w) ∷ ps) =
    if text_eq j k then (k, v) ∷ remove k ps else (j, w) ∷ set_param k v ps

-- `if (v) params.set(k, v)`.
unfoldable pub set_given : Text → Text → List (Text × Text) → List (Text × Text)
unfolding set_param
set_given k v ps = if is_empty v then ps else set_param k v ps

-- A row of such statements.
abbrev pub set_all : List (Text × Text) → List (Text × Text) → List (Text × Text)
set_all [] ps = ps
set_all ((k, v) ∷ r) ps = set_all r (set_given k v ps)

-- Every surrogate is one of a pair.
pub is_well_formed : Bool → Text → Bool
is_well_formed waiting [] = not waiting
is_well_formed false (c ∷ s) = elim (is_low c) [
  | true ↦ false
  | false ↦ is_well_formed (is_high c) s
]
is_well_formed true (c ∷ s) = elim (is_low c) [ true ↦ is_well_formed false s | false ↦ false ]

-- `none` is the URIError of a surrogate that stands alone.
unfoldable pub encode_uri_component : Text → Option Text
unfolding encode_bytes component_byte percent upper_digit utf8 is_well_formed
encode_uri_component s =
    if is_well_formed false s then some (encode_bytes component_byte (utf8 s)) else none

search_text : to_query ((codes "q", codes "a b&c") ∷ []) ≡ codes "q=a+b%26c"
unfolding to_query join
search_text = refl

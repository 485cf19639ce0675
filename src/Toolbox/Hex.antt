-- ===== src/Toolbox/Hex.antt =====
-- web/src/pages/toolbox/PemDerPage.tsx and web/src/lib/cert-utils.ts: bytes as hexadecimal text
-- and back.
pub mod Digits
pub mod RoundTrip
pub mod Dump
use tlsentinel_server.Common.{
  zero, suc, ℕ, ◌+◌, ◌-◌, ◌*◌, ◌/◌, ◌%◌, ◌≤◌, ◌<◌, Bool, true, false, ◌&&◌, ◌||◌, not, List, [],
  ◌∷◌, ◌++◌, map, Option, none, some, leb, ltb, ◌==◌, if◌then◌else◌, length, take, drop, keep, all,
}
use tlsentinel_server.Text.{Text, codes, join, pad_start, pad_end, trim, is_space, is_empty}
use tlsentinel_server.Text.Numbers.{ℤ, pos, negsuc, show_radix, parse_int_radix}

-- `toUpperCase` on ASCII, which is all that it is called on here.
pub upper_unit : ℕ → ℕ
upper_unit c = if leb b'a' c && leb c b'z' then c - 32 else c

abbrev pub to_upper_case : Text → Text
to_upper_case s = map upper_unit s

abbrev pub hex_byte : ℕ → Text
hex_byte b = pad_start 2 b'0' (show_radix 16 b)

-- `bufToHex` of cert-utils.ts; the page's own has a space for a separator.
unfoldable pub buf_to_hex : List ℕ → Text → Text
unfolding upper_unit
buf_to_hex bytes sep = to_upper_case (join sep (map hex_byte bytes))

unfoldable pub page_buf_to_hex : List ℕ → Text
unfolding upper_unit
page_buf_to_hex bytes = to_upper_case (join (codes " ") (map hex_byte bytes))

-- `[0-9a-fA-F]`.
unfoldable pub is_hex : ℕ → Bool
is_hex c = (leb b'0' c && leb c b'9') || (leb b'a' c && leb c b'f') || (leb b'A' c && leb c b'F')

-- What a number is stored as in a `Uint8Array`; NaN is stored as 0.
abbrev pub to_byte : Option ℤ → ℕ
to_byte none = 0
to_byte (some (pos n)) = n % 256
to_byte (some (negsuc n)) = 255 - n % 256

-- The loop over the pairs of `cleaned`, whose length is even.
pub pairs : Text → List ℕ
pairs [] = []
pairs (c ∷ []) = to_byte (parse_int_radix 16 (c ∷ [])) ∷ []
pairs (c ∷ d ∷ s) = to_byte (parse_int_radix 16 (c ∷ d ∷ [])) ∷ pairs s

abbrev pub cleaned : Text → Text
cleaned raw = keep (λ c. not (is_space c || c == b':')) (trim raw)

-- `none` is the error thrown.
unfoldable pub parse_hex_input : Text → Option (List ℕ)
unfolding is_hex pairs
parse_hex_input raw =
    let s = cleaned raw in
    if is_empty s || not (all is_hex s) || not (length s % 2 == 0) then none else some (pairs s)

-- One line of the dump, from the byte `i` on.
pub dump_line : ℕ → List ℕ → Text
dump_line i chunk =
    to_upper_case (pad_start 8 b'0' (show_radix 16 i))
    ++ (codes "  "
        ++ (pad_end 47 b' ' (join (codes " ") (map (λ b. to_upper_case (hex_byte b)) chunk))
            ++ (codes "  " ++ map (λ b. if leb 0x20 b && ltb b 0x7f then b else b'.') chunk)))

-- The loop over the bytes by sixteens, on fuel.
pub dump_from : ℕ → ℕ → List ℕ → List Text
dump_from zero i bytes = []
dump_from (suc f) i [] = []
dump_from (suc f) i (b ∷ bytes) =
    dump_line i (take 16 (b ∷ bytes)) ∷ dump_from f (i + 16) (drop 16 (b ∷ bytes))

pub record HexDump : Type 0 where
  pub lines : List Text
  pub truncated : Bool

-- A line takes a byte at least, so their number is fuel enough.
unfoldable pub hex_dump : List ℕ → ℕ → HexDump
unfolding dump_from dump_line
hex_dump bytes max_bytes =
    let truncated = ltb max_bytes (length bytes) in
    let slice = if truncated then take max_bytes bytes else bytes in
    record { lines = dump_from (length slice) 0 slice; truncated = truncated }

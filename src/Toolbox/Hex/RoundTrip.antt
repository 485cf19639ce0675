-- ===== src/Toolbox/Hex/RoundTrip.antt =====
-- `parseHexInput` after `bufToHex`, both of PemDerPage.tsx.
use mathlib.Core.List.{reverse, reverse-append, reverse-reverse}
use tlsentinel_server.Common.{
  ℕ, ◌*◌, ◌/◌, ◌%◌, ◌<◌, Bool, true, false, ◌||◌, not, List, [], ◌∷◌, ◌++◌, map, some, ◌==◌, length,
  keep, all, All, ◌≡◌, refl, sym, append-nil, map-append, ap, ◌∙◌, arith, Bool-cases, inl, inr,
}
use tlsentinel_server.Text.{Text, codes, join, trim, is_space, trim_start}
use tlsentinel_server.Toolbox.Hex.{
  upper_unit, hex_byte, page_buf_to_hex, is_hex, pairs, parse_hex_input, cleaned,
}
use tlsentinel_server.Toolbox.Hex.Digits.{
  IsByte, hex_digit, upper-hex_byte, is_hex-hex_digit, no_separator, to_byte-pair,
}

flat : List ℕ → Text
flat [] = []
flat (b ∷ bytes) = hex_digit (b / 16) ∷ hex_digit (b % 16) ∷ flat bytes

is_kept : ℕ → Bool
is_kept c = not (is_space c || c == b':')

is_kept-hex_digit : (d : ℕ) → d < 16 → is_kept (hex_digit d) ≡ true
unfolding is_kept
is_kept-hex_digit d h = rw (no_separator (hex_digit d) (is_hex-hex_digit d h)) refl

keep-append : (s t : Text) → keep is_kept (s ++ t) ≡ keep is_kept s ++ keep is_kept t
keep-append [] t = refl
keep-append (c ∷ s) t = elim (Bool-cases (is_kept c)) [
  | inl p ↦ rw (p, keep-append s t) refl
  | inr p ↦ rw p (keep-append s t)
]

keep-reverse : (s : Text) → keep is_kept (reverse s) ≡ reverse (keep is_kept s)
keep-reverse [] = refl
keep-reverse (c ∷ s) = elim (Bool-cases (is_kept c)) [
  | inl p ↦
      ap (keep is_kept) (reverse-append (c ∷ []) s)
      ∙ keep-append (reverse s) (c ∷ [])
      ∙ rw p
          (ap (λ t. t ++ c ∷ []) (keep-reverse s) ∙ sym (reverse-append (c ∷ []) (keep is_kept s)))
  | inr p ↦
      ap (keep is_kept) (reverse-append (c ∷ []) s)
      ∙ keep-append (reverse s) (c ∷ [])
      ∙ rw p (append-nil (keep is_kept (reverse s)) ∙ keep-reverse s)
]

space_dropped : (c : ℕ) → is_space c ≡ true → is_kept c ≡ false
unfolding is_kept
space_dropped c h = rw h refl

keep-trim_start : (s : Text) → keep is_kept (trim_start s) ≡ keep is_kept s
unfolding trim_start
keep-trim_start [] = refl
keep-trim_start (c ∷ s) = elim (Bool-cases (is_space c)) [
  | inl p ↦ rw (p, space_dropped c p) (keep-trim_start s)
  | inr p ↦ rw p refl
]

-- The white space that `trim` takes away would not be kept.
cleaned-keep : (s : Text) → cleaned s ≡ keep is_kept s
unfolding trim is_kept
cleaned-keep s =
    keep-reverse (trim_start (reverse (trim_start s)))
    ∙ ap reverse (keep-trim_start (reverse (trim_start s)) ∙ keep-reverse (trim_start s))
    ∙ reverse-reverse _
    ∙ keep-trim_start s

pairs-flat : (bytes : List ℕ) → All IsByte bytes → pairs (flat bytes) ≡ bytes
unfolding pairs flat
pairs-flat [] h = refl
pairs-flat (b ∷ bytes) (p, h) = rw (to_byte-pair b p, pairs-flat bytes h) refl

all_hex-flat : (bytes : List ℕ) → All IsByte bytes → all is_hex (flat bytes) ≡ true
unfolding flat
all_hex-flat [] h = refl
all_hex-flat (b ∷ bytes) (p, h) =
    rw
      (
        is_hex-hex_digit (b / 16) (omega arith),
        is_hex-hex_digit (b % 16) (omega arith),
        all_hex-flat bytes h,
      )
      refl

length-flat : (bytes : List ℕ) → length (flat bytes) ≡ 2 * length bytes
unfolding flat
length-flat [] = omega arith
length-flat (b ∷ bytes) = omega (arith, length-flat bytes)

even-flat : (bytes : List ℕ) → (length (flat bytes) % 2 == 0) ≡ true
even-flat bytes = ground (arith, length-flat bytes)

keep-pair :
    (b : ℕ) (s : Text)
    → IsByte b
    → keep is_kept (hex_digit (b / 16) ∷ hex_digit (b % 16) ∷ s)
      ≡ hex_digit (b / 16) ∷ hex_digit (b % 16) ∷ keep is_kept s
keep-pair b s h =
    rw (is_kept-hex_digit (b / 16) (omega arith), is_kept-hex_digit (b % 16) (omega arith)) refl

keep-byte :
    (b : ℕ) (s : Text)
    → IsByte b
    → keep is_kept (map upper_unit (hex_byte b ++ s))
      ≡ hex_digit (b / 16) ∷ hex_digit (b % 16) ∷ keep is_kept (map upper_unit s)
keep-byte b s h =
    ap (keep is_kept)
      (map-append upper_unit (hex_byte b) s ∙ ap (λ t. t ++ map upper_unit s) (upper-hex_byte b h))
    ∙ keep-pair b (map upper_unit s) h

keep-space : (s : Text) → keep is_kept (map upper_unit (32 ∷ s)) ≡ keep is_kept (map upper_unit s)
unfolding is_kept is_space upper_unit
keep-space s = refl

-- The text of the page holds the digits and a space between two bytes.
keep-page_buf_to_hex :
    (bytes : List ℕ) → All IsByte bytes → keep is_kept (page_buf_to_hex bytes) ≡ flat bytes
unfolding page_buf_to_hex join flat
keep-page_buf_to_hex [] h = refl
keep-page_buf_to_hex (b ∷ []) (p, h) =
    ap (λ t. keep is_kept (map upper_unit t)) (sym (append-nil (hex_byte b))) ∙ keep-byte b [] p
keep-page_buf_to_hex (b ∷ d ∷ bytes) (p, h) =
    keep-byte b (32 ∷ join (codes " ") (map hex_byte (d ∷ bytes))) p
    ∙ ap (λ t. hex_digit (b / 16) ∷ hex_digit (b % 16) ∷ t)
        (keep-space (join (codes " ") (map hex_byte (d ∷ bytes)))
          ∙ keep-page_buf_to_hex (d ∷ bytes) h)

-- The hexadecimal text that the page shows for bytes, one or more, is read back as the bytes.
pub parse_hex_input-page_buf_to_hex :
    (b : ℕ) (bytes : List ℕ)
    → All (λ d. d < 256) (b ∷ bytes)
    → parse_hex_input (page_buf_to_hex (b ∷ bytes)) ≡ some (b ∷ bytes)
unfolding parse_hex_input flat
parse_hex_input-page_buf_to_hex b bytes h =
    let ds = b ∷ bytes in
    rw (cleaned-keep (page_buf_to_hex ds) ∙ keep-page_buf_to_hex ds h)
      (rw (all_hex-flat ds h, even-flat ds, pairs-flat ds h) refl)

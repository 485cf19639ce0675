-- ===== src/Toolbox/Hex/Digits.antt =====
-- The two hexadecimal digits of a byte.
use native.Mathlib.Numerals.{add-one}
use tlsentinel_server.Common.{
  ℕ, zero, suc, ◌+◌, ◌*◌, ◌/◌, ◌%◌, ◌≤◌, ◌<◌, true, false, ◌||◌, [], ◌∷◌, map, Option, some, ltb,
  ◌==◌, ◌≡◌, refl, ap, ◌∙◌, arith, Bool-cases, inl, inr,
}
use tlsentinel_server.Text.{Text, pad_start, is_space, trim_start}
use tlsentinel_server.Text.Numbers.{
  pos, show_radix, parse_int_radix, emit, digit, digit_value, scan, scan_digits, signed, pos?,
}
use tlsentinel_server.Toolbox.Hex.{upper_unit, hex_byte, is_hex, to_byte}

abbrev pub IsByte : ℕ → Type 0
IsByte b = b < 256

pub hex_digit : ℕ → ℕ
hex_digit d = upper_unit (digit d)

emit-last : (f n : ℕ) (out : Text) → n < 16 → emit 16 (suc f) n out ≡ digit n ∷ out
unfolding emit
emit-last f n out h = ground arith

emit-more :
    (f n : ℕ) (out : Text)
    → 16 ≤ n
    → emit 16 (suc f) n out ≡ emit 16 f (n / 16) (digit (n % 16) ∷ out)
unfolding emit
emit-more f n out h = ground arith

show_radix-small : (b : ℕ) → b < 16 → show_radix 16 b ≡ digit (b % 16) ∷ []
unfolding show_radix
show_radix-small b h = rw add-one (emit-last b b [] h ∙ ap (λ d. digit d ∷ []) (omega arith))

show_radix-large :
    (b : ℕ) → 16 ≤ b → IsByte b → show_radix 16 b ≡ digit (b / 16) ∷ digit (b % 16) ∷ []
unfolding show_radix
show_radix-large zero h k = absurd (omega arith)
show_radix-large (suc b) h k =
    rw add-one (emit-more (suc b) (suc b) [] h ∙ emit-last b (suc b / 16) _ (omega arith))

no_high : (b : ℕ) → b < 16 → 0 ≡ b / 16
no_high b h = omega arith

-- Two digits for each byte.
pub upper-hex_byte :
    (b : ℕ) → IsByte b → map upper_unit (hex_byte b) ≡ hex_digit (b / 16) ∷ hex_digit (b % 16) ∷ []
unfolding hex_digit pad_start digit
upper-hex_byte b h = elim (Bool-cases (ltb b 16)) [
  | inl p ↦
      rw (show_radix-small b (ground arith))
        (ap (λ d. hex_digit d ∷ hex_digit (b % 16) ∷ []) (no_high b (ground arith)))
  | inr p ↦ rw (show_radix-large b (ground arith) h) refl
]

digit_value-hex_digit : (d : ℕ) → d < 16 → digit_value 16 (hex_digit d) ≡ some d
unfolding digit_value hex_digit upper_unit digit
digit_value-hex_digit d h = ground arith

pub is_hex-hex_digit : (d : ℕ) → d < 16 → is_hex (hex_digit d) ≡ true
unfolding is_hex hex_digit upper_unit digit
is_hex-hex_digit d h = ground arith

-- A hexadecimal digit is no separator.
pub no_separator : (c : ℕ) → is_hex c ≡ true → (is_space c || c == b':') ≡ false
unfolding is_hex is_space
no_separator c h = ground arith

no_space : (c : ℕ) → is_hex c ≡ true → is_space c ≡ false
unfolding is_hex is_space
no_space c h = ground arith

no_sign :
    (read : Text → Option ℕ) (c : ℕ) (s : Text)
    → is_hex c ≡ true
    → signed read (c ∷ s) ≡ pos? (read (c ∷ s))
unfolding is_hex
no_sign read c s h = ground arith

scan_pair :
    (v w : ℕ)
    → v < 16
    → w < 16
    → scan_digits 16 (hex_digit v ∷ hex_digit w ∷ []) ≡ some (v * 16 + w)
unfolding scan_digits scan
scan_pair v w h k =
    rw (digit_value-hex_digit v h, scan_digits, digit_value-hex_digit w k, scan) refl

parse_pair :
    (v w : ℕ)
    → v < 16
    → w < 16
    → parse_int_radix 16 (hex_digit v ∷ hex_digit w ∷ []) ≡ some (pos (v * 16 + w))
unfolding parse_int_radix trim_start
parse_pair v w h k = rw (no_space (hex_digit v) (is_hex-hex_digit v h)) (
    no_sign (scan_digits 16) (hex_digit v) (hex_digit w ∷ []) (is_hex-hex_digit v h)
    ∙ ap pos? (scan_pair v w h k))

-- The pair is read as the byte.
pub to_byte-pair :
    (b : ℕ)
    → IsByte b
    → to_byte (parse_int_radix 16 (hex_digit (b / 16) ∷ hex_digit (b % 16) ∷ [])) ≡ b
to_byte-pair b h =
    ap to_byte (parse_pair (b / 16) (b % 16) (omega arith) (omega arith)) ∙ omega arith

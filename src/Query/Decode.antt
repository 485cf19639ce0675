-- ===== src/Query/Decode.antt =====
-- The decoder of `application/x-www-form-urlencoded`, written after the standard and not after the
-- encoder.
use mathlib.Core.Option
use tlsentinel_server.Common.{
  ℕ, ◌+◌, ◌*◌, ◌/◌, ◌%◌, ◌<◌, Bool, true, false, not, List, [], ◌∷◌, ◌++◌, map, Option, none, some,
  ◌≡◌, refl, sym, ap, ◌∙◌, arith, ◌==◌, if◌then◌else◌, All, All-append, keep, Bool-cases, inl, inr,
  ==_iff,
}
use tlsentinel_server.Text.{Text, is_empty, split, Lacks}
use tlsentinel_server.Text.Parts.{eq_self}
use tlsentinel_server.Text.Numbers.{digit_value}
use tlsentinel_server.Query.{
  upper_digit, percent, form_byte, component_byte, encode_bytes, form_safe, component_safe,
}

pub data Mode : Type 0 where
  plain percent_seen : Mode
  high : ℕ → Mode

-- `none` is a `%` without two hexadecimal digits.
unfoldable pub decode : Mode → Text → Option (List ℕ)
decode plain [] = some []
decode percent_seen [] = none
decode (high d) [] = none
decode plain (c ∷ s) = elim (c == b'%') [
  | true ↦ decode percent_seen s
  | false ↦ Option.map (◌∷◌ (if c == b'+' then 0x20 else c)) (decode plain s)
]
decode percent_seen (c ∷ s) = elim (digit_value 16 c) [ none ↦ none | some d ↦ decode (high d) s ]
decode (high d) (c ∷ s) = elim (digit_value 16 c) [
  | none ↦ none
  | some e ↦ Option.map (◌∷◌ (16 * d + e)) (decode plain s)
]

-- The part before the first unit `u`, and the part behind it.
unfoldable pub cut : ℕ → Text → Text × Text
cut u [] = ([], [])
cut u (c ∷ s) = elim (c == u) [ true ↦ ([], s) | false ↦ (c ∷ (cut u s).0, (cut u s).1) ]

abbrev pub both : Option (List ℕ) → Option (List ℕ) → Option (List ℕ × List ℕ)
both none o = none
both (some k) none = none
both (some k) (some v) = some (k, v)

abbrev pub sequence : List (Option (List ℕ × List ℕ)) → Option (List (List ℕ × List ℕ))
sequence [] = some []
sequence (none ∷ os) = none
sequence (some p ∷ os) = Option.map (◌∷◌ p) (sequence os)

unfoldable pub parse_pair : Text → Option (List ℕ × List ℕ)
unfolding decode cut
parse_pair s = both (decode plain (cut b'=' s).0) (decode plain (cut b'=' s).1)

unfoldable pub parse_query : Text → Option (List (List ℕ × List ℕ))
unfolding parse_pair
parse_query s = sequence (map parse_pair (keep (λ p. not (is_empty p)) (split b'&' s)))

abbrev pub IsByte : ℕ → Type 0
IsByte b = b < 256

-- The units of a string.
abbrev pub IsUnits : Text → Type 0
IsUnits = All (λ c. c < 0x10000)

upper_value : (d : ℕ) → d < 16 → digit_value 16 (upper_digit d) ≡ some d
unfolding digit_value upper_digit
upper_value d h = ground arith

upper_digit-ne : (d : ℕ) → ((upper_digit d == b'&') ≡ false) × ((upper_digit d == b'=') ≡ false)
unfolding upper_digit
upper_digit-ne d = ground arith

decode-percent :
    (b : ℕ) (s : Text)
    → b < 256
    → decode plain (percent b ++ s) ≡ Option.map (◌∷◌ b) (decode plain s)
unfolding decode percent
decode-percent b s h =
    rw (upper_value (b / 16) (omega arith), decode, upper_value (b % 16) (omega arith))
      (ap (λ (c : ℕ). Option.map (◌∷◌ c) (decode plain s)) (omega arith))

-- A test that fails at `u` tells what passes it from `u`.
ne_of_test : (test : ℕ → Bool) (u b : ℕ) → test u ≡ false → test b ≡ true → (b == u) ≡ false
ne_of_test test u b out safe = elim (Bool-cases (b == u)) [
  | inl same ↦ absurd (cc (out, safe, ap test ((==_iff b u).0 same)))
  | inr other ↦ other
]

decode-safe :
    (b : ℕ) (s : Text)
    → (b == b'%') ≡ false
    → (b == b'+') ≡ false
    → decode plain (b ∷ s) ≡ Option.map (◌∷◌ b) (decode plain s)
unfolding decode
decode-safe b s h k = rw (h, decode, k)

abbrev pub Separates : Text → Type 0
Separates s = Lacks b'&' s × Lacks b'=' s

percent-Separates : (b : ℕ) → Separates (percent b)
unfolding percent
percent-Separates b =
    let (amp_h, eq_h) = upper_digit-ne (b / 16) in
    let (amp_l, eq_l) = upper_digit-ne (b % 16) in
    ((refl, (amp_h, (amp_l, tt))), (refl, (eq_h, (eq_l, tt))))

-- An encoder that leaves some bytes as they are, none of them with a meaning in a query.
module _ (safe : ℕ → Bool) (fallback : ℕ → Text) (percent_unsafe : safe b'%' ≡ false)
    (plus_unsafe : safe b'+' ≡ false) (amp_unsafe : safe b'&' ≡ false)
    (eq_unsafe : safe b'=' ≡ false)
    (decoded : (b : ℕ) (s : Text)
      → b < 256
      → decode plain (fallback b ++ s) ≡ Option.map (◌∷◌ b) (decode plain s))
    (separates : (b : ℕ) → Separates (fallback b)) where
  safe_decoded :
      (b : ℕ) (s : Text)
      → b < 256
      → decode plain ((if safe b then b ∷ [] else fallback b) ++ s)
        ≡ Option.map (◌∷◌ b) (decode plain s)
  safe_decoded b s h = elim (Bool-cases (safe b)) [
    | inl kept ↦ rw kept (
        decode-safe b s (ne_of_test safe b'%' b percent_unsafe kept)
          (ne_of_test safe b'+' b plus_unsafe kept))
    | inr lost ↦ rw lost (decoded b s h)
  ]

  safe-Separates : (b : ℕ) → Separates (if safe b then b ∷ [] else fallback b)
  safe-Separates b = elim (Bool-cases (safe b)) [
    | inl kept ↦
        rw kept (
          (ne_of_test safe b'&' b amp_unsafe kept, tt),
          (ne_of_test safe b'=' b eq_unsafe kept, tt),
        )
    | inr lost ↦ rw lost (separates b)
  ]

pub record Encodes (enc : ℕ → Text) : Type 0 where
  pub decoded :
      (b : ℕ) (s : Text) → b < 256 → decode plain (enc b ++ s) ≡ Option.map (◌∷◌ b) (decode plain s)
  pub separates : (b : ℕ) → Separates (enc b)

abbrev spaced : ℕ → Text
spaced b = if b == 0x20 then b'+' ∷ [] else percent b

decode_plus : (s : Text) → decode plain (b'+' ∷ s) ≡ Option.map (◌∷◌ 0x20) (decode plain s)
unfolding decode
decode_plus s = refl

spaced_decoded :
    (b : ℕ) (s : Text)
    → b < 256
    → decode plain (spaced b ++ s) ≡ Option.map (◌∷◌ b) (decode plain s)
spaced_decoded b s h = elim (Bool-cases (b == 0x20)) [
  | inl space ↦ rw space (
      decode_plus s ∙ ap (λ c. Option.map (◌∷◌ c) (decode plain s)) (sym ((==_iff b 0x20).0 space)))
  | inr other ↦ rw other (decode-percent b s h)
]

spaced-Separates : (b : ℕ) → Separates (spaced b)
spaced-Separates b = elim (Bool-cases (b == 0x20)) [
  | inl space ↦ rw space ((refl, tt), (refl, tt))
  | inr other ↦ rw other (percent-Separates b)
]

pub form_byte-Encodes : Encodes form_byte
unfolding form_byte
form_byte-Encodes = record {
  decoded = safe_decoded form_safe spaced refl refl refl refl spaced_decoded spaced-Separates;
  separates = safe-Separates form_safe spaced refl refl refl refl spaced_decoded spaced-Separates;
}

pub component_byte-Encodes : Encodes component_byte
unfolding component_byte
component_byte-Encodes = record {
  decoded =
      safe_decoded component_safe percent refl refl refl refl decode-percent percent-Separates;
  separates =
      safe-Separates component_safe percent refl refl refl refl decode-percent percent-Separates;
}

module _ {enc : ℕ → Text} (e : Encodes enc) where
  pub decode-encode_bytes :
      (bs : List ℕ) → All IsByte bs → decode plain (encode_bytes enc bs) ≡ some bs
  unfolding encode_bytes decode
  decode-encode_bytes [] h = refl
  decode-encode_bytes (b ∷ bs) (h, hs) =
      e.decoded b (encode_bytes enc bs) h ∙ ap (Option.map (◌∷◌ b)) (decode-encode_bytes bs hs)

  pub encode_bytes-Separates : (bs : List ℕ) → Separates (encode_bytes enc bs)
  unfolding encode_bytes
  encode_bytes-Separates [] = (tt, tt)
  encode_bytes-Separates (b ∷ bs) =
      let (amp, eq) = encode_bytes-Separates bs in
      let (amp', eq') = e.separates b in
      (All-append _ (enc b) _ amp' amp, All-append _ (enc b) _ eq' eq)

pub cut-append : (u : ℕ) (p s : Text) → Lacks u p → cut u (p ++ u ∷ s) ≡ (p, s)
unfolding cut
cut-append u [] s h = rw (eq_self u, cut)
cut-append u (c ∷ p) s (other, h) = rw (other, cut) (ap (λ r. (c ∷ r.0, r.1)) (cut-append u p s h))

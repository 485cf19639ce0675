-- ===== src/Text/Numbers/Laws.antt =====
-- `parseInt` after `String(n)` and `toString(16)`.
use tlsentinel_server.Common.{
  ℕ, zero, suc, ◌+◌, ◌-◌, ◌*◌, ◌/◌, ◌%◌, ◌^◌, length, ◌≤◌, ◌<◌, false, [], ◌∷◌, Option, some, ◌≡◌,
  refl, ap, ◌∙◌, arith, ltb, All, Bool-cases, inl, inr, ◌⊎◌,
}
use native.Mathlib.Numerals.{add-one}
use tlsentinel_server.Text.{Text, NoSpace, is_space, trim_start}
use tlsentinel_server.Text.Words.{IsWord}
use tlsentinel_server.Text.Numbers.{
  ℤ, pos, negsuc, digit, digit_value, emit, show_radix, show, show_int, scan, scan_digits,
  scan_auto, parse_int, parse_int_radix, signed, pos?, negate?, negate,
}

digit_value-digit : (b d : ℕ) → b ≤ 36 → d < b → digit_value b (digit d) ≡ some d
unfolding digit_value digit
digit_value-digit b d h k = ground arith

module _ (b : ℕ) (low : 2 ≤ b) (high : b ≤ 36) where
  smaller : (n f : ℕ) → n < suc f → b ≤ n → n / b < f
  smaller n f h k = grind arith

  scan-digit : (acc d : ℕ) (s : Text) → d < b → scan b acc (digit d ∷ s) ≡ scan b (acc * b + d) s
  unfolding scan
  scan-digit acc d s h = rw (digit_value-digit b d high h, scan)

  scan-emit : (f n : ℕ) (out : Text) → n < f → scan b 0 (emit b f n out) ≡ scan b n out
  unfolding emit
  scan-emit zero n out h = elim h [ ]
  scan-emit (suc f) n out h = elim (Bool-cases (ltb n b)) [
    | inl less ↦ rw less (scan-digit 0 n out (ground arith) ∙ ap (λ m. scan b m out) (omega arith))
    | inr more ↦ rw more (
        scan-emit f (n / b) (digit (n % b) ∷ out) (smaller n f h (ground arith))
        ∙ scan-digit (n / b) (n % b) out (omega (arith))
        ∙ ap (λ m. scan b m out) (grind arith))
  ]

abbrev pub IsDigit : ℕ → Type 0
IsDigit c = (b'0' ≤ c) × (c ≤ b'9')

digit-IsDigit : (d : ℕ) → d < 10 → IsDigit (digit d)
unfolding digit
digit-IsDigit d h = ground arith

emit-All-IsDigit : (f n : ℕ) (out : Text) → All IsDigit out → All IsDigit (emit 10 f n out)
unfolding emit
emit-All-IsDigit zero n out h = h
emit-All-IsDigit (suc f) n out h = elim (Bool-cases (ltb n 10)) [
  | inl less ↦ rw less (digit-IsDigit n (ground arith), h)
  | inr more ↦
      rw more (
        emit-All-IsDigit f (n / 10) (digit (n % 10) ∷ out)
          (digit-IsDigit (n % 10) (omega arith), h))
]

abbrev pub IsCons : Text → Type 0
IsCons [] = ⊥
IsCons (c ∷ s) = Unit

emit-IsCons : (b f n c : ℕ) (out : Text) → IsCons (emit b f n (c ∷ out))
unfolding emit
emit-IsCons b zero n c out = tt
emit-IsCons b (suc f) n c out = elim (Bool-cases (ltb n b)) [
  | inl less ↦ rw less tt
  | inr more ↦ rw more (emit-IsCons b f (n / b) (digit (n % b)) (c ∷ out))
]

pub digit-no_space : (c : ℕ) → IsDigit c → is_space c ≡ false
unfolding is_space
digit-no_space c h = ground arith

value_of-IsDigit : (c : ℕ) → IsDigit c → digit_value 10 c ≡ some (c - b'0')
unfolding digit_value
value_of-IsDigit c h = ground arith

scan_digits_of_digits :
    (c : ℕ) (s : Text) → IsDigit c → scan_digits 10 (c ∷ s) ≡ some (scan 10 0 (c ∷ s))
unfolding scan_digits
scan_digits_of_digits c s h =
    rw (value_of-IsDigit c h, scan, scan_digits) (ap (λ m. some (scan 10 m s)) (omega arith))

scan_auto_of_digits :
    (c : ℕ) (s : Text) → All IsDigit s → scan_auto (c ∷ s) ≡ scan_digits 10 (c ∷ s)
unfolding scan_auto
scan_auto_of_digits c [] hs = refl
scan_auto_of_digits c (d ∷ s) (k, _) = ground arith

signed_of_digit :
    (read : Text → Option ℕ) (c : ℕ) (s : Text)
    → IsDigit c
    → signed read (c ∷ s) ≡ pos? (read (c ∷ s))
signed_of_digit read c s h = ground arith

-- Digits in front of a unit that is none are read by `parseInt` as the number that they spell.
pub parse_int_of_digits :
    (c : ℕ) (s : Text)
    → IsDigit c
    → All IsDigit s
    → parse_int (c ∷ s) ≡ some (pos (scan 10 0 (c ∷ s)))
unfolding parse_int trim_start
parse_int_of_digits c s h hs = rw (digit-no_space c h) (
    signed_of_digit scan_auto c s h
    ∙ ap pos? (scan_auto_of_digits c s hs ∙ scan_digits_of_digits c s h))

pub show-digits : (n : ℕ) → All IsDigit (show n) × IsCons (show n)
unfolding show show_radix emit
show-digits n = (emit-All-IsDigit (n + 1) n [] tt, go)
  where
    go : IsCons (emit 10 (n + 1) n [])
    go = rw add-one (elim (Bool-cases (ltb n 10)) [
      | inl less ↦ rw less tt
      | inr more ↦ rw more (emit-IsCons 10 n (n / 10) (digit (n % 10)) [])
    ])

scan-show : (n : ℕ) → scan 10 0 (show n) ≡ n
unfolding show show_radix scan
scan-show n = scan-emit 10 (omega arith) (omega arith) (n + 1) n [] (omega arith)

pub parse_int-show : (n : ℕ) → parse_int (show n) ≡ some (pos n)
parse_int-show n = go (show n) (show-digits n).0 (show-digits n).1 (scan-show n)
  where
    go : (s : Text) → All IsDigit s → IsCons s → scan 10 0 s ≡ n → parse_int s ≡ some (pos n)
    go [] h k e = absurd k
    go (c ∷ s) (h, hs) k e = parse_int_of_digits c s h hs ∙ ap (λ m. some (pos m)) e

pub parse_int_radix-show : (n : ℕ) → parse_int_radix 10 (show n) ≡ some (pos n)
unfolding parse_int_radix trim_start
parse_int_radix-show n = go (show n) (show-digits n).0 (show-digits n).1 (scan-show n)
  where
    go :
        (s : Text)
        → All IsDigit s
        → IsCons s
        → scan 10 0 s ≡ n
        → parse_int_radix 10 s ≡ some (pos n)
    go [] h k e = absurd k
    go (c ∷ s) (h, hs) k e = rw (digit-no_space c h) (
        signed_of_digit (scan_digits 10) c s h
        ∙ ap pos? (scan_digits_of_digits c s h)
        ∙ ap (λ m. some (pos m)) e)

-- Three digits below a thousand.
tenth : (n p : ℕ) → n < 10 * p → n / 10 < p
tenth n p h = omega arith

emit-length :
    (f n k : ℕ) (out : Text) → n < 10 ^ suc k → length (emit 10 f n out) ≤ suc k + length out
unfolding emit
emit-length zero n k out h = omega arith
emit-length (suc f) n zero out h = elim (Bool-cases (ltb n 10)) [
  | inl less ↦ rw less (omega arith)
  | inr more ↦ absurd (ground arith)
]
emit-length (suc f) n (suc k) out h = elim (Bool-cases (ltb n 10)) [
  | inl less ↦ rw less (omega arith)
  | inr more ↦
      let rest =
        emit-length f (n / 10) k (digit (n % 10) ∷ out) (tenth n (10 ^ suc k) (omega arith)) in
      rw more (omega (arith, rest))
]

pub show-length : (n : ℕ) → n < 1000 → length (show n) ≤ 3
unfolding show show_radix
show-length n h = emit-length (n + 1) n 2 [] h

pub show-IsWord : (n : ℕ) → IsWord (show n)
show-IsWord n = go (show n) (show-digits n).0 (show-digits n).1
  where
    spaceless : (s : Text) → All IsDigit s → NoSpace s
    spaceless [] h = tt
    spaceless (c ∷ s) (h, hs) = (digit-no_space c h, spaceless s hs)

    go : (s : Text) → All IsDigit s → IsCons s → IsWord s
    go [] h k = absurd k
    go (c ∷ s) (h, hs) k = (digit-no_space c h, spaceless s hs)

abbrev pub StartsNumeral : Text → Type 0
StartsNumeral [] = ⊥
StartsNumeral (c ∷ s) = IsDigit c ⊎ (c ≡ b'-')

pub show_int-StartsNumeral : (z : ℤ) → StartsNumeral (show_int z)
unfolding show_int
show_int-StartsNumeral (pos n) = go (show n) (show-digits n).0 (show-digits n).1
  where
    go : (s : Text) → All IsDigit s → IsCons s → StartsNumeral s
    go [] h k = absurd k
    go (c ∷ s) (h, hs) k = inl h
show_int-StartsNumeral (negsuc n) = inr refl

pub show_int-IsWord : (z : ℤ) → IsWord (show_int z)
unfolding show_int is_space
show_int-IsWord (pos n) = show-IsWord n
show_int-IsWord (negsuc n) = go (show (n + 1)) (show-IsWord (n + 1))
  where
    go : (s : Text) → IsWord s → IsWord (b'-' ∷ s)
    go [] h = absurd h
    go (c ∷ s) h = (refl, h)

-- Every integer is read back from its decimal print.
pub parse_int-show_int : (z : ℤ) → parse_int (show_int z) ≡ some z
unfolding show_int parse_int trim_start is_space negate
parse_int-show_int (pos n) = parse_int-show n
parse_int-show_int (negsuc n) =
    go (show (n + 1)) (show-digits (n + 1)).0 (show-digits (n + 1)).1 (scan-show (n + 1))
  where
    go :
        (s : Text)
        → All IsDigit s
        → IsCons s
        → scan 10 0 s ≡ n + 1
        → negate? (scan_auto s) ≡ some (negsuc n)
    go [] h k e = absurd k
    go (c ∷ s) (h, hs) k e =
        rw (scan_auto_of_digits c s hs, scan_digits_of_digits c s h, e, add-one) refl

digits_below : (s : Text) → All IsDigit s → All (λ c. c < 0x10000) s
digits_below [] h = tt
digits_below (c ∷ s) (h, hs) = (omega arith, digits_below s hs)

-- The units of a printed integer are ASCII.
pub show_int-below : (z : ℤ) → All (λ c. c < 0x10000) (show_int z)
unfolding show_int
show_int-below (pos n) = digits_below (show n) (show-digits n).0
show_int-below (negsuc n) = (omega arith, digits_below (show (n + 1)) (show-digits (n + 1)).0)

-- ===== src/Text/Numbers.antt =====
-- Numbers as text: `String(n)`, `n.toString(16)` and `parseInt`.
pub mod Laws
pub mod Order
use tlsentinel_server.Common.{
  ℕ, zero, suc, ◌+◌, ◌-◌, ◌*◌, ◌/◌, ◌%◌, Bool, true, false, ◌&&◌, ◌||◌, List, [], ◌∷◌, ◌++◌, Option,
  none, some, leb, ltb, ◌==◌, if◌then◌else◌,
}
use tlsentinel_server.Text.{Text, trim_start}

-- The integers; `negsuc n` is -(n + 1). Numbers are exact: doubles are so below 2 ^ 53.
pub data ℤ : Type 0 where
  pos : ℕ → ℤ
  negsuc : ℕ → ℤ

pub negate : ℕ → ℤ
negate zero = pos 0
negate (suc n) = negsuc n

-- The lower-case digit of `toString`.
unfoldable pub digit : ℕ → ℕ
digit d = if ltb d 10 then b'0' + d else b'a' + (d - 10)

-- The value of a digit in the radix `b`, in either case.
unfoldable pub digit_value : ℕ → ℕ → Option ℕ
digit_value b c =
    let v =
      if leb b'0' c && leb c b'9'
      then c - b'0'
      else if leb b'a' c && leb c b'z'
      then c - b'a' + 10
      else if leb b'A' c && leb c b'Z'
      then c - b'A' + 10
      else 36 in
    if ltb v b then some v else none

-- The digits of `n` in the radix `b`, on fuel: each step divides by the radix.
unfoldable pub emit : ℕ → ℕ → ℕ → Text → Text
emit b zero n out = out
emit b (suc f) n out =
    let rest = emit b f (n / b) (digit (n % b) ∷ out) in if ltb n b then digit n ∷ out else rest

unfoldable pub show_radix : ℕ → ℕ → Text
unfolding emit digit
show_radix b n = emit b (n + 1) n []

unfoldable pub show : ℕ → Text
unfolding show_radix
show n = show_radix 10 n

unfoldable pub show_int : ℤ → Text
unfolding show
show_int (pos n) = show n
show_int (negsuc n) = b'-' ∷ show (n + 1)

-- Reads digits up to the first unit that is none.
unfoldable pub scan : ℕ → ℕ → Text → ℕ
scan b acc [] = acc
scan b acc (c ∷ s) = elim (digit_value b c) [ none ↦ acc | some d ↦ scan b (acc * b + d) s ]

-- `none` is NaN: no digit at all.
unfoldable pub scan_digits : ℕ → Text → Option ℕ
unfolding scan digit_value
scan_digits b [] = none
scan_digits b (c ∷ s) = elim (digit_value b c) [ none ↦ none | some d ↦ some (scan b d s) ]

-- `0x` and `0X`, which `parseInt` without a radix takes for hexadecimal.
unfoldable pub scan_auto : Text → Option ℕ
unfolding scan_digits
scan_auto [] = none
scan_auto (c ∷ []) = scan_digits 10 (c ∷ [])
scan_auto (c ∷ d ∷ s) =
    if c == b'0' && (d == b'x' || d == b'X') then scan_digits 16 s else scan_digits 10 (c ∷ d ∷ s)

abbrev pub pos? : Option ℕ → Option ℤ
pos? none = none
pos? (some n) = some (pos n)

abbrev negate? : Option ℕ → Option ℤ
negate? none = none
negate? (some n) = some (negate n)

abbrev pub signed : (Text → Option ℕ) → Text → Option ℤ
signed read [] = pos? (read [])
signed read (c ∷ s) =
    if c == b'-' then negate? (read s) else if c == b'+' then pos? (read s) else pos? (read (c ∷ s))

-- `parseInt(s)`.
unfoldable pub parse_int : Text → Option ℤ
unfolding scan_auto trim_start negate
parse_int s = signed scan_auto (trim_start s)

-- `parseInt(s, b)`, but that the radix 16 takes no `0x`: it is only called on pairs of digits.
unfoldable pub parse_int_radix : ℕ → Text → Option ℤ
unfolding scan_digits trim_start negate
parse_int_radix b s = signed (scan_digits b) (trim_start s)

-- `a < b`.
abbrev pub less : ℤ → ℤ → Bool
less (pos a) (pos b) = ltb a b
less (pos a) (negsuc b) = false
less (negsuc a) (pos b) = true
less (negsuc a) (negsuc b) = ltb b a

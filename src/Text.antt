-- ===== src/Text.antt =====
-- JavaScript strings as lists of UTF-16 code units, with the operations of the language that the
-- web client calls: `===`, `trim`, `includes`, `padStart`, `padEnd`, `split`, `join` and `replace`.
pub mod Words
pub mod Numbers
pub mod Parts
use Prim.Native.Char.{code}
use Prim.Native.String.{String}
use mathlib.Core.List.{reverse}
use tlsentinel_server.Common.{
  ℕ, zero, suc, ◌-◌, Bool, true, false, ◌&&◌, ◌||◌, List, [], ◌∷◌, ◌++◌, ◌≡◌, ◌↔◌, refl, ap, arith,
  leb, ◌==◌, ==_iff, if◌then◌else◌, length, replicate, All,
}

abbrev pub Text : Type 0
Text = List ℕ

-- A literal of the source; none has a character beyond U+FFFF.
abbrev pub codes : String → Text
codes String.[] = []
codes (String.◌∷◌ c s) = code c ∷ codes s

-- `a === b`.
unfoldable pub text_eq : Text → Text → Bool
text_eq [] [] = true
text_eq [] (d ∷ t) = false
text_eq (c ∷ s) [] = false
text_eq (c ∷ s) (d ∷ t) = c == d && text_eq s t

pub text_eq_iff : (s t : Text) → (text_eq s t ≡ true) ↔ (s ≡ t)
unfolding text_eq
text_eq_iff [] [] = (λ _. refl, λ _. refl)
text_eq_iff [] (d ∷ t) = ground arith
text_eq_iff (c ∷ s) [] = ground arith
text_eq_iff (c ∷ s) (d ∷ t) = ground (arith, text_eq_iff s t)

pub text_eq_refl : (s : Text) → text_eq s s ≡ true
text_eq_refl s = (text_eq_iff s s).1 refl

-- A string is falsy when it is empty.
abbrev pub is_empty {ℓ} : {A : Type ℓ} → List A → Bool
is_empty [] = true
is_empty (c ∷ s) = false

-- The white space of `trim` and of `\s`.
unfoldable pub is_space : ℕ → Bool
is_space c =
    (leb 9 c && leb c 13)
    || (c == 0x20)
    || (c == 0xa0)
    || (c == 0x1680)
    || (leb 0x2000 c && leb c 0x200a)
    || (c == 0x2028)
    || (c == 0x2029)
    || (c == 0x202f)
    || (c == 0x205f)
    || (c == 0x3000)
    || (c == 0xfeff)

unfoldable pub trim_start : Text → Text
trim_start [] = []
trim_start (c ∷ s) = if is_space c then trim_start s else c ∷ s

unfoldable pub trim : Text → Text
unfolding trim_start is_space
trim s = reverse (trim_start (reverse (trim_start s)))

-- `s.includes(c)` for one code unit.
unfoldable pub has_unit : ℕ → Text → Bool
has_unit u [] = false
has_unit u (c ∷ s) = c == u || has_unit u s

unfoldable pub pad_start : ℕ → ℕ → Text → Text
pad_start n u s = replicate (n - length s) u ++ s

unfoldable pub pad_end : ℕ → ℕ → Text → Text
pad_end n u s = s ++ replicate (n - length s) u

-- `s.split(u)` for one code unit: always at least one part.
pub split_from : ℕ → Text → Text → List Text
split_from u cur [] = cur ∷ []
split_from u cur (c ∷ s) = elim (c == u) [
  | true ↦ cur ∷ split_from u [] s
  | false ↦ split_from u (cur ++ c ∷ []) s
]

unfoldable pub split : ℕ → Text → List Text
unfolding split_from
split u s = split_from u [] s

unfoldable pub join : Text → List Text → Text
join sep [] = []
join sep (p ∷ []) = p
join sep (p ∷ q ∷ ps) = p ++ (sep ++ join sep (q ∷ ps))

-- `s.replace(/u/g, t)` for one code unit.
unfoldable pub replace_all : ℕ → Text → Text → Text
replace_all u t [] = []
replace_all u t (c ∷ s) = (if c == u then t else c ∷ []) ++ replace_all u t s

abbrev pub Lacks : ℕ → Text → Type 0
Lacks u = All (λ c. (c == u) ≡ false)

abbrev pub NoSpace : Text → Type 0
NoSpace = All (λ c. is_space c ≡ false)

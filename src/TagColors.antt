-- ===== src/TagColors.antt =====
-- web/src/lib/tag-colors.ts: the colour of a category of tags, a hash of its id. The shift is the
-- one of 32-bit integers; the rest of the arithmetic is not cut to 32 bits.
mod Tests
pub mod Bounds
use tlsentinel_server.Common.{
  ℕ, zero, suc, ◌+◌, ◌-◌, ◌*◌, ◌%◌, List, [], ◌∷◌, Option, none, some, leb, ltb, if◌then◌else◌,
  length, get_elem?,
}
use tlsentinel_server.Text.{Text, codes}
use tlsentinel_server.Text.Numbers.{ℤ, pos, negsuc}

abbrev pub palette : List Text
palette =
    codes "bg-blue-600/80 text-white"
    ∷ codes "bg-violet-600/80 text-white"
    ∷ codes "bg-emerald-600/80 text-white"
    ∷ codes "bg-orange-600/80 text-white"
    ∷ codes "bg-pink-600/80 text-white"
    ∷ codes "bg-teal-600/80 text-white"
    ∷ codes "bg-amber-600/80 text-white"
    ∷ codes "bg-indigo-600/80 text-white"
    ∷ codes "bg-cyan-600/80 text-white"
    ∷ codes "bg-rose-600/80 text-white"
    ∷ []

-- `m - n`, `a + b` and `a - b`.
pub minus : ℕ → ℕ → ℤ
minus m n = if leb n m then pos (m - n) else negsuc (n - m - 1)

unfoldable pub add : ℤ → ℤ → ℤ
unfolding minus
add (pos a) (pos b) = pos (a + b)
add (pos a) (negsuc b) = minus a (suc b)
add (negsuc a) (pos b) = minus b (suc a)
add (negsuc a) (negsuc b) = negsuc (a + b + 1)

pub subtract : ℤ → ℤ → ℤ
unfolding add minus
subtract a (pos b) = add a (minus 0 b)
subtract a (negsuc b) = add a (pos (suc b))

-- `Math.abs`.
abbrev pub abs : ℤ → ℕ
abs (pos n) = n
abs (negsuc n) = suc n

-- The 32-bit integer of a residue.
pub signed_32 : ℕ → ℤ
signed_32 m = if ltb m 0x80000000 then pos m else negsuc (0xffffffff - m)

-- `acc << 5`.
pub shift_5 : ℤ → ℤ
unfolding signed_32
shift_5 (pos n) = signed_32 (32 * n % 0x100000000)
shift_5 (negsuc n) = signed_32 ((0x100000000 - 32 * suc n % 0x100000000) % 0x100000000)

-- The reduction over the units of the id.
pub hash_from : ℤ → Text → ℤ
hash_from acc [] = acc
hash_from acc (c ∷ s) = hash_from (add (subtract (shift_5 acc) acc) (pos c)) s

unfoldable pub category_hash : Text → ℤ
unfolding hash_from
category_hash s = hash_from (pos 0) s

-- `none` is undefined, what an index out of the palette would read.
unfoldable pub category_color : Text → Option Text
unfolding category_hash
category_color [] = get_elem? palette 0
category_color (c ∷ s) = get_elem? palette (abs (category_hash (c ∷ s)) % length palette)

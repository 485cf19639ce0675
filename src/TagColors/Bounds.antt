-- ===== src/TagColors/Bounds.antt =====
-- The size of the hash of `categoryColor`, and its index in the palette.
use tlsentinel_server.Common.{
  ℕ, zero, suc, ◌+◌, ◌-◌, ◌*◌, ◌%◌, ◌≤◌, ◌<◌, List, [], ◌∷◌, none, length, get_elem?, All, ◌≢◌,
  arith,
}
use tlsentinel_server.Text.{Text}
use tlsentinel_server.Text.Numbers.{ℤ, pos, negsuc}
use tlsentinel_server.TagColors.{
  minus, add, subtract, abs, signed_32, shift_5, hash_from, category_hash, category_color, palette,
}

abs-add : (a b : ℤ) → abs (add a b) ≤ abs a + abs b
unfolding add minus
abs-add (pos a) (pos b) = omega arith
abs-add (pos a) (negsuc b) = ground arith
abs-add (negsuc a) (pos b) = ground arith
abs-add (negsuc a) (negsuc b) = omega arith

abs-minus : (b : ℕ) → abs (minus 0 b) ≤ b
unfolding minus
abs-minus b = ground arith

abs-subtract : (a b : ℤ) → abs (subtract a b) ≤ abs a + abs b
unfolding subtract
abs-subtract a (pos b) = omega (arith, abs-add a (minus 0 b), abs-minus b)
abs-subtract a (negsuc b) = omega (arith, abs-add a (pos (suc b)))

abs-signed_32 : (m : ℕ) → m < 0x100000000 → abs (signed_32 m) ≤ 0x80000000
unfolding signed_32
abs-signed_32 m h = ground arith

abs-shift_5 : (a : ℤ) → abs (shift_5 a) ≤ 0x80000000
unfolding shift_5
abs-shift_5 (pos n) = abs-signed_32 (32 * n % 0x100000000) (omega arith)
abs-shift_5 (negsuc n) =
    abs-signed_32 ((0x100000000 - 32 * suc n % 0x100000000) % 0x100000000) (omega arith)

abbrev AreUnits : Text → Type 0
AreUnits = All (λ c. c < 0x10000)

abs-hash_from :
    (acc : ℤ) (s : Text) → AreUnits s → abs (hash_from acc s) ≤ abs acc + length s * 0x80010000
unfolding hash_from
abs-hash_from acc [] h = omega arith
abs-hash_from acc (c ∷ s) (h, hs) =
    let next = add (subtract (shift_5 acc) acc) (pos c) in
    let bound = abs-add (subtract (shift_5 acc) acc) (pos c) in
    omega (arith, abs-hash_from next s hs, bound, abs-subtract (shift_5 acc) acc, abs-shift_5 acc)

get_elem?-below : (xs : List Text) (n : ℕ) → n < length xs → get_elem? xs n ≢ none
get_elem?-below [] n h = absurd (omega arith)
get_elem?-below (x ∷ xs) zero h = λ e. ground arith
get_elem?-below (x ∷ xs) (suc n) h = get_elem?-below xs n (omega arith)

-- The hash of an id of n units is at most n * (2 ^ 31 + 2 ^ 16) in size, and every id has a colour
-- of the palette.
pub category_color_lem :
    (s : Text)
    → All (λ c. c < 0x10000) s
    → (abs (category_hash s) ≤ length s * 0x80010000) × (category_color s ≢ none)
unfolding category_hash category_color
category_color_lem [] h = (omega arith, λ e. ground arith)
category_color_lem (c ∷ s) h =
    (omega (arith, abs-hash_from (pos 0) (c ∷ s) h), get_elem?-below palette _ (omega arith))

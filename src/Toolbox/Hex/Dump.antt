-- ===== src/Toolbox/Hex/Dump.antt =====
-- The lines of the dump.
use tlsentinel_server.Common.{
  ℕ, zero, suc, ◌+◌, ◌*◌, ◌≤◌, true, List, [], ◌∷◌, Option, none, some, ltb, if◌then◌else◌, length,
  ◌≡◌, refl, sym, ap, ◌∙◌, arith, Bool-cases, inl, inr, take, drop, get_elem?, length-drop,
}
use tlsentinel_server.Text.{Text}
use tlsentinel_server.Toolbox.Hex.{dump_line, dump_from, hex_dump}

drop-nil : (n : ℕ) → drop {A = ℕ} n [] ≡ []
drop-nil zero = refl
drop-nil (suc n) = refl

drop-drop : (m n : ℕ) (xs : List ℕ) → drop n (drop m xs) ≡ drop (m + n) xs
drop-drop zero n xs = ap (λ k. drop k xs) {x = n} (omega arith)
drop-drop (suc m) n [] = drop-nil n ∙ sym (drop-nil (suc m + n))
drop-drop (suc m) n (x ∷ xs) =
    drop-drop m n xs ∙ ap (λ k. drop k (x ∷ xs)) {x = suc (m + n)} (omega arith)

-- The bytes of the line `k`.
chunk : ℕ → List ℕ → List ℕ
chunk k bytes = take 16 (drop (16 * k) bytes)

line? : ℕ → ℕ → List ℕ → Option Text
line? i k bytes =
    if ltb (16 * k) (length bytes) then some (dump_line (i + 16 * k) (chunk k bytes)) else none

line?-nil : (i k : ℕ) → line? i k [] ≡ none
unfolding line?
line?-nil i k = ground arith

more : (b : ℕ) (bytes : List ℕ) → ltb 0 (length (b ∷ bytes)) ≡ true
more b bytes = ground arith

line?-zero :
    (i b : ℕ) (bytes : List ℕ) → line? i 0 (b ∷ bytes) ≡ some (dump_line i (take 16 (b ∷ bytes)))
unfolding line? chunk
line?-zero i b bytes =
    rw (more b bytes) (ap (λ j. some (dump_line j (take 16 (b ∷ bytes)))) {x = i + 0} (omega arith))

ltb-drop :
    (k : ℕ) (bytes : List ℕ)
    → ltb (16 * k) (length (drop 16 bytes)) ≡ ltb (16 * suc k) (length bytes)
ltb-drop k bytes = ground (arith, length-drop 16 bytes)

sixteen_more : (i k : ℕ) → i + 16 + 16 * k ≡ i + 16 * suc k
sixteen_more i k = omega arith

sixteen_times : (k : ℕ) → 16 + 16 * k ≡ 16 * suc k
sixteen_times k = omega arith

line?-suc : (i k : ℕ) (bytes : List ℕ) → line? (i + 16) k (drop 16 bytes) ≡ line? i (suc k) bytes
unfolding line? chunk
line?-suc i k bytes =
    rw (ltb-drop k bytes, drop-drop 16 (16 * k) bytes, sixteen_more i k, sixteen_times k) refl

get_elem?-dump_from :
    (f i k : ℕ) (bytes : List ℕ)
    → length bytes ≤ f
    → get_elem? (dump_from f i bytes) k ≡ line? i k bytes
unfolding dump_from
get_elem?-dump_from zero i k [] h = sym (line?-nil i k)
get_elem?-dump_from zero i k (b ∷ bytes) h = absurd (omega arith)
get_elem?-dump_from (suc f) i k [] h = sym (line?-nil i k)
get_elem?-dump_from (suc f) i zero (b ∷ bytes) h = sym (line?-zero i b bytes)
get_elem?-dump_from (suc f) i (suc k) (b ∷ bytes) h =
    get_elem?-dump_from f (i + 16) k (drop 16 (b ∷ bytes))
      (omega (arith, length-drop 16 (b ∷ bytes)))
    ∙ line?-suc i k (b ∷ bytes)

take-length : (n : ℕ) (xs : List ℕ) → length xs ≤ n → take n xs ≡ xs
take-length zero [] h = refl
take-length zero (x ∷ xs) h = absurd (omega arith)
take-length (suc n) [] h = refl
take-length (suc n) (x ∷ xs) h = ap (◌∷◌ x) (take-length n xs (omega arith))

slice-take : (n : ℕ) (xs : List ℕ) → (if ltb n (length xs) then take n xs else xs) ≡ take n xs
slice-take n xs = elim (Bool-cases (ltb n (length xs))) [
  | inl p ↦ rw p refl
  | inr p ↦ rw p (sym (take-length n xs (ground arith)))
]

line?-start :
    (k : ℕ) (xs : List ℕ)
    → line? 0 k xs
      ≡ (if ltb (16 * k) (length xs) then some (dump_line (16 * k) (chunk k xs)) else none)
unfolding line?
line?-start k xs =
    ap (λ i. if ltb (16 * k) (length xs) then some (dump_line i (chunk k xs)) else none)
      {x = 0 + 16 * k} (omega arith)

-- The dump has a line for each sixteen bytes of the first `max_bytes`, and one for what is left;
-- each line begins with the place of its first byte.
pub get_elem?-hex_dump :
    (bytes : List ℕ) (max_bytes k : ℕ)
    → let shown = take max_bytes bytes in
      get_elem? (hex_dump bytes max_bytes).lines k ≡ (
        if ltb (16 * k) (length shown)
        then some (dump_line (16 * k) (take 16 (drop (16 * k) shown)))
        else none)
unfolding hex_dump chunk
get_elem?-hex_dump bytes max_bytes k =
    ap (λ xs. get_elem? (dump_from (length xs) 0 xs) k) (slice-take max_bytes bytes)
    ∙ get_elem?-dump_from (length (take max_bytes bytes)) 0 k (take max_bytes bytes) (omega arith)
    ∙ line?-start k (take max_bytes bytes)

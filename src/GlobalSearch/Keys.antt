-- ===== src/GlobalSearch/Keys.antt =====
-- The highlighted result of web/src/components/layout/GlobalSearch.tsx.
use tlsentinel_server.Common.{
  ℕ, zero, suc, ◌+◌, ◌-◌, ◌%◌, ◌<◌, true, false, List, [], ◌∷◌, ◌++◌, some, ◌≡◌, ◌≢◌, ◌⊎◌, inl, inr,
  refl, sym, ap, ◌∙◌, arith, leb, length, get_elem?, All, Bool-cases, append_assoc, length-append,
}
use mathlib.Core.Path.{subst}
use native.Mathlib.Nat.{mod-add-mod, add-mod_right, mod-eq_of_lt, mod-lt}
use tlsentinel_server.Text.{is_empty}
use tlsentinel_server.Page.{navigated}
use tlsentinel_server.GlobalSearch.{
  Search, FlatItem, Kind, same_kind, items, clamp, settle, step, Event, run, on_key_down,
  arrow_down, arrow_up, enter, key_down, group_from, pick,
}

-- The highlighted place is one of the list, or the first.
abbrev pub IsInside : Search → Type 0
IsInside s = (s.active_idx < length (items s)) ⊎ (s.active_idx ≡ 0)

some_elem : {A : Type 0} (xs : List A) (i : ℕ) → i < length xs → (x : A) × (get_elem? xs i ≡ some x)
some_elem [] i h = absurd (omega arith)
some_elem (x ∷ xs) zero h = (x, refl)
some_elem (x ∷ xs) (suc i) h = some_elem xs i (omega arith)

-- With results, Enter goes to the highlighted one and closes the list.
pub on_key_down-enter :
    (s : Search)
    → IsInside s
    → items s ≢ []
    → (item : FlatItem) × (get_elem? (items s) s.active_idx ≡ some item)
      × ((on_key_down enter s).1 ≡ navigated item.href ∷ [])
      × ((on_key_down enter s).0.open_list ≡ false)
unfolding on_key_down pick
on_key_down-enter s h ne =
    let (item, e) = some_elem (items s) s.active_idx (inside (items s) h ne) in
    (item, e, rw (e, on_key_down) refl, rw (e, on_key_down) refl)
  where
    inside :
        {A : Type 0} (xs : List A)
        → (s.active_idx < length xs) ⊎ (s.active_idx ≡ 0)
        → xs ≢ []
        → s.active_idx < length xs
    inside [] h ne = absurd (ne refl)
    inside (x ∷ xs) (inl h) ne = h
    inside (x ∷ xs) (inr h) ne = omega arith

abbrev pub presses : ℕ → List Event
presses zero = []
presses (suc n) = key_down arrow_down ∷ presses n

filled : {A : Type 0} (xs : List A) (i : ℕ) → i < length xs → is_empty xs ≡ false
filled [] i h = absurd (omega arith)
filled (x ∷ xs) i h = refl

stays : (n i : ℕ) → i < n → leb n i ≡ false
stays n i h = ground arith

arrow_down_lem :
    (s : Search)
    → s.active_idx < length (items s)
    → settle (step (key_down arrow_down) s)
      ≡ (record s { open_list = true; active_idx = (s.active_idx + 1) % length (items s) }, [])
unfolding settle step on_key_down clamp items
arrow_down_lem s h =
    let below : (s.active_idx + 1) % length (items s) < length (items s) = omega arith in
    rw (on_key_down, filled (items s) s.active_idx h, clamp, stays _ _ below) refl

arrow_up_lem :
    (s : Search)
    → s.active_idx < length (items s)
    → settle (step (key_down arrow_up) s)
      ≡ (record s { active_idx = (s.active_idx + length (items s) - 1) % length (items s) }, [])
unfolding settle step on_key_down clamp items
arrow_up_lem s h =
    let below : (s.active_idx + length (items s) - 1) % length (items s) < length (items s) =
      omega arith in
    rw (on_key_down, filled (items s) s.active_idx h, clamp, stays _ _ below) refl

cycled : (n i k : ℕ) → i < n → ((i + 1) % n + k) % n ≡ (i + suc k) % n
cycled n i k h = mod-add-mod (i + 1) n k ∙ ap (λ j. j % n) (omega arith)

down_again :
    (k : ℕ) (s : Search)
    → s.active_idx < length (items s)
    → (run (presses k) s).0.active_idx ≡ (s.active_idx + k) % length (items s)
unfolding run items
down_again zero s h = sym (ap (λ j. j % length (items s)) (omega arith) ∙ mod-eq_of_lt h)
down_again (suc k) s h =
    ap (λ q. (run (presses k) q.0).0.active_idx) (arrow_down_lem s h)
    ∙ down_again k
        (record s { open_list = true; active_idx = (s.active_idx + 1) % length (items s) })
        (mod-lt (s.active_idx + 1) (omega arith))
    ∙ cycled (length (items s)) s.active_idx k h

back : (n i : ℕ) → i < n → ((i + 1) % n + n - 1) % n ≡ i
back n i h =
    let start : (i + 1) % n + n - 1 ≡ (i + 1) % n + (n - 1) = omega arith in
    ap (λ j. j % n) start
    ∙ mod-add-mod (i + 1) n (n - 1)
    ∙ ap (λ j. j % n) (omega arith)
    ∙ add-mod_right i n
    ∙ mod-eq_of_lt h

-- From a highlighted place, as many presses of the arrow down as there are results lead back to it,
-- and an arrow up undoes an arrow down.
pub run-presses :
    (s : Search)
    → s.active_idx < length (items s)
    → ((run (presses (length (items s))) s).0.active_idx ≡ s.active_idx)
      × ((run (key_down arrow_down ∷ key_down arrow_up ∷ []) s).0.active_idx ≡ s.active_idx)
unfolding run items
run-presses s h = (
  down_again (length (items s)) s h ∙ add-mod_right _ _ ∙ mod-eq_of_lt h,
  ap (λ q. (settle (step (key_down arrow_up) q.0)).0.active_idx) (arrow_down_lem s h)
      ∙ ap (λ q. q.0.active_idx)
          (arrow_up_lem
            (record s { open_list = true; active_idx = (s.active_idx + 1) % length (items s) })
            (mod-lt (s.active_idx + 1) (omega arith)))
      ∙ back (length (items s)) s.active_idx h,
)

abbrev IsAt : List FlatItem → FlatItem × ℕ → Type 0
IsAt all q = get_elem? all q.1 ≡ some q.0

at_length :
    (before xs : List FlatItem) (x : FlatItem)
    → get_elem? (before ++ x ∷ xs) (length before) ≡ some x
at_length [] xs x = refl
at_length (y ∷ before) xs x = at_length before xs x

group_from_from :
    (k : Kind) (before xs : List FlatItem)
    → All (IsAt (before ++ xs)) (group_from k (length before) xs)
unfolding group_from
group_from_from k before [] = tt
group_from_from k before (x ∷ xs) =
    let rest : All (IsAt (before ++ x ∷ xs)) (group_from k (length before + 1) xs) =
      subst (λ n. All (IsAt (before ++ x ∷ xs)) (group_from k n xs)) (length-append before (x ∷ []))
        (subst (λ all. All (IsAt all) (group_from k (length (before ++ x ∷ [])) xs))
          (append_assoc before (x ∷ []) xs) (group_from_from k (before ++ x ∷ []) xs)) in
    elim (Bool-cases (same_kind x.kind k)) [
      | inl p ↦ rw (p, group_from) (at_length before xs x, rest)
      | inr p ↦ rw (p, group_from) rest
    ]

-- Each group shows an item with the place that it has in the whole list, so the pointer and the
-- keys mean the same item.
pub group_from-IsAt :
    (k : Kind) (s : Search)
    → All (λ q. get_elem? (items s) q.1 ≡ some q.0) (group_from k 0 (items s))
group_from-IsAt k s = group_from_from k [] (items s)

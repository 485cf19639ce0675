-- ===== src/Calendar/Grid.antt =====
-- The grid that `buildGrid` of web/src/pages/monitor/MonitorCalendarView.tsx makes of a month.
use tlsentinel_server.Common.{
  ℕ, zero, suc, ◌+◌, ◌-◌, ◌%◌, ◌≤◌, ◌<◌, List, [], ◌∷◌, ◌++◌, Option, none, some, ◌≡◌, refl, sym,
  ap, ◌∙◌, arith, ◌==◌, length, take, drop, replicate, get_elem?, All, append_assoc, append-nil,
  length-append, length-drop, length-take, length-replicate, Bool-cases, inl, inr,
}
use tlsentinel_server.Text.{Text}
use tlsentinel_server.Text.Numbers.{ℤ}
use tlsentinel_server.Calendar.{
  date_key, days_from, pad_week, weeks_of, first_dow, days_in_month, grid_cells, build_grid, flat,
}

take_append_drop : {A : Type 0} (n : ℕ) (xs : List A) → take n xs ++ drop n xs ≡ xs
take_append_drop zero xs = refl
take_append_drop (suc n) [] = refl
take_append_drop (suc n) (x ∷ xs) = ap (◌∷◌ x) (take_append_drop n xs)

-- How many cells the last row still needs.
abbrev gap : ℕ → ℕ
gap n = (7 - n % 7) % 7

replicate_more :
    (k m : ℕ) (cells : List (Option Text))
    → m ≡ suc k
    → (cells ++ none ∷ []) ++ replicate k none ≡ cells ++ replicate m none
replicate_more k m cells e = rw e (append_assoc cells (none ∷ []) (replicate k none))

-- The loop that fills the last row ends by its own test, on less fuel than it is given.
pub pad_week_lem :
    (f : ℕ) (cells : List (Option Text))
    → gap (length cells) < f
    → pad_week f cells ≡ cells ++ replicate (gap (length cells)) none
unfolding pad_week
pad_week_lem zero cells h = absurd (omega arith)
pad_week_lem (suc f) cells h = elim (Bool-cases (length cells % 7 == 0)) [
  | inl full ↦
      let none_left : gap (length cells) ≡ 0 = ground arith in
      rw (full, pad_week, none_left) (sym (append-nil cells))
  | inr short ↦
      let longer = length-append cells (none ∷ []) in
      let fewer : gap (length cells) ≡ suc (gap (length (cells ++ none ∷ []))) =
        ground (arith, longer) in
      rw (short, pad_week)
        (pad_week_lem f (cells ++ none ∷ []) (omega (arith, fewer))
          ∙ replicate_more _ _ cells fewer)
]

flat-weeks_of :
    (f : ℕ) (cells : List (Option Text)) → length cells ≤ f → flat (weeks_of f cells) ≡ cells
unfolding weeks_of flat
flat-weeks_of zero [] h = refl
flat-weeks_of zero (c ∷ cells) h = absurd (omega arith)
flat-weeks_of (suc f) [] h = refl
flat-weeks_of (suc f) (c ∷ cells) h =
    ap (◌++◌ (take 7 (c ∷ cells)))
      (flat-weeks_of f (drop 7 (c ∷ cells)) (omega (arith, length-drop 7 (c ∷ cells))))
    ∙ take_append_drop 7 (c ∷ cells)

weeks_of-full :
    (f : ℕ) (cells : List (Option Text))
    → length cells % 7 ≡ 0
    → All (λ w. length w ≡ 7) (weeks_of f cells)
unfolding weeks_of
weeks_of-full zero cells h = tt
weeks_of-full (suc f) [] h = tt
weeks_of-full (suc f) (c ∷ cells) h = (
  omega (arith, length-take 7 (c ∷ cells)),
  weeks_of-full f (drop 7 (c ∷ cells)) (omega (arith, length-drop 7 (c ∷ cells))),
)

length-days_from : (year : ℤ) (month i n : ℕ) → length (days_from year month i n) ≡ n
unfolding days_from
length-days_from year month i zero = refl
length-days_from year month i (suc n) = ap suc (length-days_from year month (i + 1) n)

get_elem?-days_from :
    (year : ℤ) (month i n d : ℕ) (rest : List (Option Text))
    → d < n
    → get_elem? (days_from year month i n ++ rest) d ≡ some (some (date_key year month (i + d + 1)))
unfolding days_from
get_elem?-days_from year month i zero d rest h = absurd (omega arith)
get_elem?-days_from year month i (suc n) zero rest h =
    ap (λ k. some (some (date_key year month k))) (omega arith)
get_elem?-days_from year month i (suc n) (suc d) rest h =
    get_elem?-days_from year month (i + 1) n d rest (omega arith)
    ∙ ap (λ k. some (some (date_key year month k))) (omega arith)

get_elem?-replicate :
    (k i d : ℕ) (cells : List (Option Text))
    → i ≡ k + d
    → get_elem? (replicate k none ++ cells) i ≡ get_elem? cells d
get_elem?-replicate zero i d cells e = ap (get_elem? cells) (omega arith)
get_elem?-replicate (suc k) zero d cells e = absurd (omega arith)
get_elem?-replicate (suc k) (suc i) d cells e = get_elem?-replicate k i d cells (omega arith)

module _ (year : ℤ) (month : ℕ) where
  abbrev pub all_cells : List (Option Text)
  all_cells = flat (build_grid year month)

  abbrev pub fill : ℕ
  fill = gap (length (grid_cells year month))

  padded : pad_week 7 (grid_cells year month) ≡ grid_cells year month ++ replicate fill none
  padded = pad_week_lem 7 (grid_cells year month) (omega arith)

  pub flat-build_grid : all_cells ≡ grid_cells year month ++ replicate fill none
  unfolding build_grid
  flat-build_grid = flat-weeks_of _ _ (omega arith) ∙ padded

  length-grid_cells :
      length (grid_cells year month) ≡ first_dow year month + days_in_month year month
  unfolding grid_cells
  length-grid_cells = omega (
    arith,
    length-append (replicate (first_dow year month) none)
        (days_from year month 0 (days_in_month year month)),
    length-replicate {A = Option Text} (first_dow year month) none,
    length-days_from year month 0 (days_in_month year month),
  )

  length-padded : length (grid_cells year month ++ replicate fill none) % 7 ≡ 0
  length-padded = omega (
    arith,
    length-append (grid_cells year month) (replicate fill none),
    length-replicate {A = Option Text} fill none,
  )

  -- The rows of a month have seven cells each; the day d stands d cells behind its first day, which
  -- is in the first week, and there are less than seven cells behind the last day.
  pub build_grid_lem :
      (d : ℕ)
      → d < days_in_month year month
      → All (λ w. length w ≡ 7) (build_grid year month)
        × (first_dow year month < 7)
        × (get_elem? (flat (build_grid year month)) (first_dow year month + d)
            ≡ some (some (date_key year month (d + 1))))
        × (length (flat (build_grid year month))
            < first_dow year month + days_in_month year month + 7)
  unfolding build_grid grid_cells first_dow
  build_grid_lem d h =
      let cells = flat-build_grid in
      let n = length-append (grid_cells year month) (replicate fill none) in
      let k = length-replicate {A = Option Text} fill none in
      (
        weeks_of-full _ _ (ap (λ c. length c % 7) padded ∙ length-padded),
        omega arith,
        ap (λ c. get_elem? c (first_dow year month + d))
              (cells
                ∙ append_assoc (replicate (first_dow year month) none)
                    (days_from year month 0 (days_in_month year month)) (replicate fill none))
            ∙ get_elem?-replicate (first_dow year month) _ d _ refl
            ∙ get_elem?-days_from year month 0 (days_in_month year month) d (replicate fill none) h
            ∙ ap (λ k. some (some (date_key year month k))) (omega arith),
        omega (arith, ap length cells, n, k, length-grid_cells),
      )

-- ===== src/Calendar/Months.antt =====
-- The months of web/src/pages/monitor/MonitorCalendarView.tsx, and the date that is selected.
use tlsentinel_server.Common.{
  ℕ, zero, suc, ◌+◌, ◌<◌, true, List, [], ◌∷◌, ◌++◌, Option, none, some, ◌≡◌, ◌≢◌, refl, ap, ◌∙◌,
  arith, replicate, All, append-nil, or_else, Bool-cases, inl, inr, not,
}
use tlsentinel_server.Text.{Text, is_empty}
use tlsentinel_server.Text.Numbers.{ℤ, pos, negsuc}
use tlsentinel_server.Text.Parts.{starts_with}
use tlsentinel_server.Calendar.{
  CalendarView, year_before, year_after, prev_month, next_month, month_prefix, date_key, days_from,
  grid_cells, build_grid, flat, present, first_with_certs, first_of, pin_selection, ByDate,
  get_date, first_dow, days_in_month,
}
use tlsentinel_server.Calendar.Grid.{flat-build_grid, fill}

year_after-year_before : (y : ℤ) → year_after (year_before y) ≡ y
unfolding year_after year_before
year_after-year_before (pos zero) = refl
year_after-year_before (pos (suc n)) = refl
year_after-year_before (negsuc n) = refl

year_before-year_after : (y : ℤ) → year_before (year_after y) ≡ y
unfolding year_after year_before
year_before-year_after (pos n) = refl
year_before-year_after (negsuc zero) = refl
year_before-year_after (negsuc (suc n)) = refl

-- The two buttons undo each other, and the month stays one of the twelve.
pub next_month-prev_month :
    (s : CalendarView)
    → s.month < 12
    → (next_month (prev_month s) ≡ s)
      × (prev_month (next_month s) ≡ s)
      × ((prev_month s).month < 12)
      × ((next_month s).month < 12)
unfolding next_month prev_month
next_month-prev_month s h =
    ground (arith, year_after-year_before s.year, year_before-year_after s.year)

starts_with-append : (p s : Text) → starts_with p (p ++ s) ≡ true
unfolding starts_with
starts_with-append [] s = refl
starts_with-append (c ∷ p) s = ground (arith, starts_with-append p s)

abbrev HasPrefix : Text → Text → Type 0
HasPrefix p d = starts_with p d ≡ true

present-append :
    (cells more : List (Option Text)) → present (cells ++ more) ≡ present cells ++ present more
unfolding present
present-append [] more = refl
present-append (none ∷ cells) more = present-append cells more
present-append (some d ∷ cells) more = ap (◌∷◌ d) (present-append cells more)

present-replicate : (n : ℕ) → present (replicate n none) ≡ []
unfolding present
present-replicate zero = refl
present-replicate (suc n) = present-replicate n

days_from-HasPrefix :
    (year : ℤ) (month i n : ℕ)
    → All (HasPrefix (month_prefix year month)) (present (days_from year month i n))
unfolding days_from present date_key
days_from-HasPrefix year month i zero = tt
days_from-HasPrefix year month i (suc n) =
    (starts_with-append (month_prefix year month) _, days_from-HasPrefix year month (i + 1) n)

shown-days :
    (year : ℤ) (month : ℕ)
    → present (flat (build_grid year month))
      ≡ present (days_from year month 0 (days_in_month year month))
unfolding grid_cells
shown-days year month =
    let dates = days_from year month 0 (days_in_month year month) in
    ap present (flat-build_grid year month)
    ∙ present-append (grid_cells year month) (replicate (fill year month) none)
    ∙ ap (◌++◌ (present (grid_cells year month))) (present-replicate (fill year month))
    ∙ append-nil (present (grid_cells year month))
    ∙ present-append (replicate (first_dow year month) none) dates
    ∙ ap (λ front. front ++ present dates) (present-replicate (first_dow year month))

some_day : (year : ℤ) (month n : ℕ) → 0 < n → present (days_from year month 0 n) ≢ []
unfolding days_from present
some_day year month zero h = absurd (omega arith)
some_day year month (suc n) h = λ e. ground arith

month_has_days : (year : ℤ) (month : ℕ) → 0 < days_in_month year month
unfolding days_in_month
month_has_days year month = ground arith

first_with_certs-among :
    (P : Text → Type 0) (m : ByDate) (ds : List Text) (today : Text)
    → All P ds
    → ds ≢ []
    → P (or_else (first_with_certs m ds) (or_else (first_of ds) today))
unfolding first_with_certs
first_with_certs-among P m [] today h k = absurd (k refl)
first_with_certs-among P m (d ∷ ds) today (p, h) k = among (d ∷ ds) (p, h)
  where
    among : (es : List Text) → All P es → P (or_else (first_with_certs m es) d)
    among [] h = p
    among (e ∷ es) (q, h) = elim (Bool-cases (not (is_empty (or_else (get_date e m) [])))) [
      | inl t ↦ rw (t, first_with_certs) q
      | inr t ↦ rw (t, first_with_certs) (among es h)
    ]

in_month :
    (today : Text) (m : ByDate) (s : CalendarView)
    → let days = present (flat (build_grid s.year s.month)) in
      HasPrefix
        (month_prefix s.year s.month)
        (or_else (first_with_certs m days) (or_else (first_of days) today))
in_month today m s =
    let shown = shown-days s.year s.month in
    rw shown (
      first_with_certs-among (HasPrefix (month_prefix s.year s.month)) m _ today
        (days_from-HasPrefix s.year s.month 0 (days_in_month s.year s.month))
        (some_day s.year s.month (days_in_month s.year s.month) (month_has_days s.year s.month)))

-- The effect settles at once: behind it the selected date is of the month that is shown, and the
-- effect changes nothing any more.
pub pin_selection-settles :
    (today : Text) (m : ByDate) (s : CalendarView)
    → let t = pin_selection today m s in
      (starts_with (month_prefix t.year t.month) t.selected_date ≡ true)
      × (pin_selection today m t ≡ t)
unfolding pin_selection
pin_selection-settles today m s =
    elim (Bool-cases (starts_with (month_prefix s.year s.month) s.selected_date)) [
      | inl p ↦ rw (p, pin_selection) (p, rw (p, pin_selection) refl)
      | inr p ↦
          rw (p, pin_selection) (in_month today m s, rw (in_month today m s, pin_selection) refl)
    ]

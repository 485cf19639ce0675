-- ===== src/Calendar.antt =====
-- web/src/pages/monitor/MonitorCalendarView.tsx: the month grid of expiring certificates. The dates
-- are those of the Gregorian calendar, as `Date` counts them in the user's zone.
mod Tests
pub mod Grid
pub mod Groups
pub mod Months
use tlsentinel_server.Common.{
  ℕ, zero, suc, ◌+◌, ◌-◌, ◌*◌, ◌/◌, ◌%◌, Bool, true, false, ◌&&◌, ◌||◌, not, List, [], ◌∷◌, ◌++◌,
  map, Option, none, some, ltb, leb, ◌==◌, if◌then◌else◌, or_else, length, take, drop, replicate,
  sort_by,
}
use tlsentinel_server.Text.Parts.{starts_with}
use tlsentinel_server.Text.{Text, codes, is_empty, text_eq, pad_start}
use tlsentinel_server.Text.Numbers.{ℤ, pos, negsuc, show, show_int, less}
use tlsentinel_server.Api.Certificates.{ExpiringCertItem}

unfoldable pub to_date_key : Text → Text
to_date_key iso = take 10 iso

abbrev pub dash : Text
dash = codes "-"

-- `String(n).padStart(2, '0')`.
unfoldable pub two : ℕ → Text
two n = pad_start 2 b'0' (show n)

-- `${year}-${String(month + 1).padStart(2, '0')}`.
unfoldable pub month_prefix : ℤ → ℕ → Text
unfolding two
month_prefix year month = show_int year ++ (dash ++ two (month + 1))

unfoldable pub date_key : ℤ → ℕ → ℕ → Text
unfolding month_prefix two
date_key year month d = month_prefix year month ++ (dash ++ two d)

unfoldable pub urgency_chip : ℤ → Text
urgency_chip days =
    if less days (pos 0)
    then codes "bg-red-500/15 text-red-600 dark:text-red-400 border-red-400/40"
    else if not (less (pos 30) days)
    then codes "bg-amber-400/15 text-amber-600 dark:text-amber-400 border-amber-400/40"
    else codes "bg-green-400/15 text-green-700 dark:text-green-400 border-green-400/40"

unfoldable pub urgency_dot : ℤ → Text
urgency_dot days =
    if less days (pos 0)
    then codes "bg-red-500"
    else if not (less (pos 30) days)
    then codes "bg-amber-500"
    else codes "bg-emerald-500"

unfoldable pub days_label : ℤ → Text
days_label (negsuc n) = codes "Expired " ++ (show (suc n) ++ codes "d ago")
days_label (pos zero) = codes "Expires today"
days_label (pos (suc n)) = show (suc n) ++ codes "d remaining"

-- A `Map` in the order in which its keys came in: `get`, and `set` of the list with one more.
abbrev pub ByDate : Type 0
ByDate = List (Text × List ExpiringCertItem)

unfoldable pub get_date : Text → ByDate → Option (List ExpiringCertItem)
get_date k [] = none
get_date k ((j, certs) ∷ m) = if text_eq j k then some certs else get_date k m

pub add_cert : Text → ExpiringCertItem → ByDate → ByDate
add_cert k c [] = (k, c ∷ []) ∷ []
add_cert k c ((j, certs) ∷ m) =
    if text_eq j k then (j, certs ++ c ∷ []) ∷ m else (j, certs) ∷ add_cert k c m

pub group_from : ByDate → List ExpiringCertItem → ByDate
group_from m [] = m
group_from m (c ∷ cs) = group_from (add_cert (to_date_key c.not_after) c m) cs

unfoldable pub group_by_date : List ExpiringCertItem → ByDate
unfolding group_from
group_by_date items = group_from [] items

-- `Date` takes a year from 0 to 99 for one of the twentieth century.
abbrev full_year : ℤ → ℤ
full_year (pos n) = if ltb n 100 then pos (1900 + n) else pos n
full_year (negsuc n) = negsuc n

-- The year in its cycle of 400 years, which is 20871 weeks.
abbrev in_cycle : ℤ → ℕ
in_cycle (pos n) = n % 400
in_cycle (negsuc n) = 399 - n % 400

abbrev is_leap : ℕ → Bool
is_leap y = y == 0 || (y % 4 == 0 && not (y % 100 == 0))

abbrev month_length : Bool → ℕ → ℕ
month_length leap m =
    if m == 1
    then (if leap then 29 else 28)
    else if m == 3 || m == 5 || m == 8 || m == 10
    then 30
    else 31

abbrev days_before : Bool → ℕ → ℕ
days_before leap zero = 0
days_before leap (suc m) = days_before leap m + month_length leap m

-- `new Date(year, month + 1, 0).getDate()`.
unfoldable pub days_in_month : ℤ → ℕ → ℕ
days_in_month year month = month_length (is_leap (in_cycle (full_year year))) month

-- `new Date(year, month, 1).getDay()`: the first day of a cycle is a Saturday.
unfoldable pub first_dow : ℤ → ℕ → ℕ
first_dow year month =
    let y = in_cycle (full_year year) in
    (6 + (365 * y + (y + 3) / 4 - (y + 99) / 100 + (y + 399) / 400) + days_before (is_leap y) month)
    % 7

-- `Array.from({ length: n }, (_, i) => …)` from `i` on.
unfoldable pub days_from : ℤ → ℕ → ℕ → ℕ → List (Option Text)
days_from year month i zero = []
days_from year month i (suc n) = some (date_key year month (i + 1)) ∷ days_from year month (i + 1) n

-- `while (cells.length % 7 !== 0) cells.push(null)`, on fuel.
unfoldable pub pad_week : ℕ → List (Option Text) → List (Option Text)
pad_week zero cells = cells
pad_week (suc f) cells = elim (length cells % 7 == 0) [
  | true ↦ cells
  | false ↦ pad_week f (cells ++ none ∷ [])
]

-- The slices of seven, on fuel.
unfoldable pub weeks_of : ℕ → List (Option Text) → List (List (Option Text))
weeks_of zero cells = []
weeks_of (suc f) [] = []
weeks_of (suc f) (c ∷ cells) = take 7 (c ∷ cells) ∷ weeks_of f (drop 7 (c ∷ cells))

unfoldable pub grid_cells : ℤ → ℕ → List (Option Text)
unfolding days_from first_dow days_in_month
grid_cells year month =
    replicate (first_dow year month) none ++ days_from year month 0 (days_in_month year month)

unfoldable pub build_grid : ℤ → ℕ → List (List (Option Text))
unfolding grid_cells pad_week weeks_of
build_grid year month =
    let cells = pad_week 7 (grid_cells year month) in weeks_of (length cells) cells

pub record CalendarView : Type 0 where
  pub year : ℤ
  pub month : ℕ
  pub selected_date : Text

unfoldable pub year_before : ℤ → ℤ
year_before (pos zero) = negsuc 0
year_before (pos (suc n)) = pos n
year_before (negsuc n) = negsuc (suc n)

unfoldable pub year_after : ℤ → ℤ
year_after (pos n) = pos (suc n)
year_after (negsuc zero) = pos 0
year_after (negsuc (suc n)) = negsuc n

unfoldable pub prev_month : CalendarView → CalendarView
unfolding year_before
prev_month s =
    if s.month == 0
    then record s { year = year_before s.year; month = 11 }
    else record s { month = s.month - 1 }

unfoldable pub next_month : CalendarView → CalendarView
unfolding year_after
next_month s =
    if s.month == 11
    then record s { year = year_after s.year; month = 0 }
    else record s { month = s.month + 1 }

-- `grid.flat().filter(d => d !== null)`.
unfoldable pub present : List (Option Text) → List Text
present [] = []
present (none ∷ cells) = present cells
present (some d ∷ cells) = d ∷ present cells

unfoldable pub flat : {A : Type 0} → List (List A) → List A
flat [] = []
flat (w ∷ ws) = w ++ flat ws

-- `flat.find(d => (byDate.get(d)?.length ?? 0) > 0)`.
unfoldable pub first_with_certs : ByDate → List Text → Option Text
first_with_certs m [] = none
first_with_certs m (d ∷ ds) =
    if not (is_empty (or_else (get_date d m) [])) then some d else first_with_certs m ds

abbrev pub first_of : List Text → Option Text
first_of [] = none
first_of (d ∷ ds) = some d

-- The effect that follows a change; `today` is `todayKey()`.
unfoldable pub pin_selection : Text → ByDate → CalendarView → CalendarView
unfolding month_prefix starts_with build_grid present flat first_with_certs
pin_selection today m s =
    let days = present (flat (build_grid s.year s.month)) in
    if starts_with (month_prefix s.year s.month) s.selected_date then s else record s {
      selected_date = or_else (first_with_certs m days) (or_else (first_of days) today);
    }

-- `endpoints` of a day, soonest first; the same order shows the selected day.
unfoldable pub certs_of : Text → ByDate → List ExpiringCertItem
certs_of d m = sort_by (λ a b. less a.days_remaining b.days_remaining) (or_else (get_date d m) [])

-- ===== src/Calendar/Tests.antt =====
-- November 2026 and two certificates, on which the theorems on the calendar are used.
use mathlib.Core.List.{Perm}
use tlsentinel_server.Common.{
  ◌+◌, ◌<◌, true, [], ◌∷◌, none, some, ◌≡◌, ◌↔◌, refl, arith, All, length, get_elem?, or_else,
  IsSortedBy,
}
use tlsentinel_server.Text.{codes}
use tlsentinel_server.Text.Numbers.{pos, negsuc, less}
use tlsentinel_server.Api.Certificates.{ExpiringCertItem}
use tlsentinel_server.Text.Parts.{starts_with}
use tlsentinel_server.Calendar.{
  CalendarView, date_key, month_prefix, build_grid, flat, first_dow, days_in_month, pad_week,
  pin_selection, group_by_date, get_date, certs_of,
}
use tlsentinel_server.Calendar.Grid.{build_grid_lem, pad_week_lem}
use tlsentinel_server.Calendar.Groups.{on_day, get_date-group_by_date, certs_of-group_by_date}
use tlsentinel_server.Calendar.Months.{pin_selection-settles}

abbrev november : CalendarView
november = record { year = pos 2026; month = 10; selected_date = codes "2026-10-31" }

-- It begins on a Sunday.
november_begins : first_dow (pos 2026) 10 ≡ 0
unfolding first_dow
november_begins = refl

february_of_a_leap_year : days_in_month (pos 2028) 1 ≡ 29
unfolding days_in_month
february_of_a_leap_year = refl

abbrev cert : ExpiringCertItem
cert = record {
  endpoint_id = codes "e1";
  endpoint_name = codes "API";
  endpoint_type = codes "host";
  fingerprint = codes "ab";
  common_name = codes "a.org";
  sans = [];
  issuer_cn = [];
  not_after = codes "2026-11-28T00:00:00Z";
  days_remaining = pos 2;
  tags = [];
}

abbrev late : ExpiringCertItem
late = record cert { not_after = codes "2026-11-20T00:00:00Z"; days_remaining = negsuc 5 }

build_grid_lem_example :
    All (λ w. length w ≡ 7) (build_grid (pos 2026) 10)
    × (first_dow (pos 2026) 10 < 7)
    × (get_elem? (flat (build_grid (pos 2026) 10)) (first_dow (pos 2026) 10 + 29)
        ≡ some (some (date_key (pos 2026) 10 30)))
    × (length (flat (build_grid (pos 2026) 10))
        < first_dow (pos 2026) 10 + days_in_month (pos 2026) 10 + 7)
unfolding days_in_month
build_grid_lem_example = build_grid_lem (pos 2026) 10 29 (omega arith)

pad_week_lem_example :
    pad_week 7 (none ∷ none ∷ []) ≡ none ∷ none ∷ none ∷ none ∷ none ∷ none ∷ none ∷ []
pad_week_lem_example = pad_week_lem 7 (none ∷ none ∷ []) (omega arith)

get_date-group_by_date_example :
    (or_else (get_date (codes "2026-11-28") (group_by_date (cert ∷ late ∷ []))) []
      ≡ on_day (codes "2026-11-28") (cert ∷ late ∷ []))
    × ((get_date (codes "2026-11-28") (group_by_date (cert ∷ late ∷ [])) ≡ none)
        ↔ (on_day (codes "2026-11-28") (cert ∷ late ∷ []) ≡ []))
get_date-group_by_date_example = get_date-group_by_date (codes "2026-11-28") (cert ∷ late ∷ [])

certs_of-group_by_date_example :
    Perm
      (certs_of (codes "2026-11-28") (group_by_date (cert ∷ late ∷ [])))
      (on_day (codes "2026-11-28") (cert ∷ late ∷ []))
    × IsSortedBy
        (λ a b. less a.days_remaining b.days_remaining)
        (certs_of (codes "2026-11-28") (group_by_date (cert ∷ late ∷ [])))
certs_of-group_by_date_example = certs_of-group_by_date (codes "2026-11-28") (cert ∷ late ∷ [])

pin_selection-settles_example :
    let m = group_by_date (cert ∷ late ∷ []) in
    let t = pin_selection (codes "2026-11-26") m november in
    (starts_with (month_prefix t.year t.month) t.selected_date ≡ true)
    × (pin_selection (codes "2026-11-26") m t ≡ t)
pin_selection-settles_example =
    pin_selection-settles (codes "2026-11-26") (group_by_date (cert ∷ late ∷ [])) november

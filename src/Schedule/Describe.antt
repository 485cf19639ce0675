-- ===== src/Schedule/Describe.antt =====
-- `describeCron`, which web/src/pages/settings/MaintenancePage.tsx and
-- web/src/pages/discovery/DiscoveryNetworksPage.tsx each have a version of.
use tlsentinel_server.Common.{
  ℕ, Bool, true, false, ◌&&◌, ◌||◌, not, List, [], ◌∷◌, ◌++◌, Option, none, some, ◌≡◌, refl, ap,
  ◌∙◌, arith, if◌then◌else◌, All, all, get_elem?, or_else, leb, ◌⊎◌, inl, inr,
}
use tlsentinel_server.Text.{Text, codes, text_eq, text_eq_refl, trim, join, pad_start}
use tlsentinel_server.Text.Words.{IsWord, split_spaces, split_spaces-join, trim-join}
use tlsentinel_server.Text.Numbers.{ℤ, pos, negsuc, parse_int, show, show_int}
use tlsentinel_server.Text.Numbers.Laws.{parse_int-show, show-digits, IsDigit, IsCons, show-IsWord}
use tlsentinel_server.Schedule.{
  Frequency, hourly, daily, weekly, monthly, custom, Schedule, star, space, is_star,
  schedule_to_cron,
}
use tlsentinel_server.Schedule.RoundTrip.{star-IsWord, show_int-ne-star}

abbrev pub day_names : List Text
day_names =
    codes "Sun"
    ∷ codes "Mon"
    ∷ codes "Tue"
    ∷ codes "Wed"
    ∷ codes "Thu"
    ∷ codes "Fri"
    ∷ codes "Sat"
    ∷ []

-- `n >= 0 && n <= 6 ? DAYS[n] : dow`, where a NaN `n` fails the test.
abbrev pub day_name : Option ℤ → Text → Text
day_name none dow = dow
day_name (some (pos n)) dow = or_else (get_elem? day_names n) dow
day_name (some (negsuc n)) dow = dow

abbrev pub clock : Text → Text → Text
clock hour min = codes " at " ++ (pad_start 2 b'0' hour ++ (codes ":" ++ pad_start 2 b'0' min))

-- The last four returns of both versions.
abbrev pub by_day : Text → Text → Text → Text → Text
by_day expr dom dow time =
    if is_star dom && is_star dow
    then codes "Daily" ++ time
    else if is_star dom && not (is_star dow)
    then codes "Weekly (" ++ (day_name (parse_int dow) dow ++ (codes ")" ++ time))
    else if not (is_star dom) && is_star dow
    then codes "Monthly" ++ time
    else expr

-- `/^\d+$/`.
unfoldable pub is_simple : Text → Bool
is_simple [] = false
is_simple (c ∷ s) = all (λ u. leb b'0' u && leb u b'9') (c ∷ s)

abbrev pub is_plain : Text → Bool
is_plain p = is_star p || is_simple p

job_fields : Text → Text → Text → Text → Text → Text → Text
job_fields expr min hour dom mon dow =
    if not (is_star mon)
    then expr
    else if not (all is_plain (min ∷ hour ∷ dom ∷ dow ∷ []))
    then expr
    else if is_star hour && is_star dom && is_star dow
    then if is_star min
      then expr
      else if text_eq min (codes "0")
      then codes "Hourly"
      else codes "Hourly at :" ++ pad_start 2 b'0' min
    else if is_star hour || is_star min
    then expr
    else by_day expr dom dow (clock hour min)

job_parts : Text → List Text → Text
job_parts expr (min ∷ hour ∷ dom ∷ mon ∷ dow ∷ []) = job_fields expr min hour dom mon dow
job_parts expr _ = expr

-- The version of MaintenancePage.tsx.
pub job_describe_cron : Text → Text
unfolding job_parts
job_describe_cron expr = job_parts expr (split_spaces (trim expr))

network_parts : Text → List Text → Text
network_parts expr (min ∷ hour ∷ dom ∷ mon ∷ dow ∷ []) =
    by_day expr dom dow (if not (is_star hour) && not (is_star min) then clock hour min else [])
network_parts expr _ = expr

-- The version of DiscoveryNetworksPage.tsx.
pub network_describe_cron : Text → Text
unfolding network_parts
network_describe_cron expr = network_parts expr (split_spaces (trim expr))

abbrev pub five : Text → Text → Text → Text → Text → Text
five min hour dom mon dow = join space (min ∷ hour ∷ dom ∷ mon ∷ dow ∷ [])

job_describe_cron-five :
    (min hour dom mon dow : Text)
    → All IsWord (min ∷ hour ∷ dom ∷ mon ∷ dow ∷ [])
    → job_describe_cron (five min hour dom mon dow)
      ≡ job_fields (five min hour dom mon dow) min hour dom mon dow
unfolding job_describe_cron
job_describe_cron-five min hour dom mon dow (h, hs) =
    let expr = five min hour dom mon dow in
    ap (λ t. job_parts expr (split_spaces t)) (trim-join min _ h hs)
    ∙ ap (job_parts expr) (split_spaces-join min _ h hs)

network_describe_cron-five :
    (min hour dom mon dow : Text)
    → All IsWord (min ∷ hour ∷ dom ∷ mon ∷ dow ∷ [])
    → network_describe_cron (five min hour dom mon dow)
      ≡ network_parts (five min hour dom mon dow) (min ∷ hour ∷ dom ∷ mon ∷ dow ∷ [])
unfolding network_describe_cron
network_describe_cron-five min hour dom mon dow (h, hs) =
    let expr = five min hour dom mon dow in
    ap (λ t. network_parts expr (split_spaces t)) (trim-join min _ h hs)
    ∙ ap (network_parts expr) (split_spaces-join min _ h hs)

job_hourly :
    job_describe_cron (join space (codes "0" ∷ star ∷ star ∷ star ∷ star ∷ [])) ≡ codes "Hourly"
unfolding job_describe_cron job_fields is_simple split_spaces trim text_eq join
job_hourly = refl

network_hourly :
    network_describe_cron (join space (codes "0" ∷ star ∷ star ∷ star ∷ star ∷ [])) ≡ codes "Daily"
unfolding network_describe_cron split_spaces trim text_eq join
network_hourly = refl

-- Five words of which one is not plain, or whose month is not `*`, are shown as they stand.
pub job_describe_cron_raw :
    (min hour dom mon dow : Text)
    → All IsWord (min ∷ hour ∷ dom ∷ mon ∷ dow ∷ [])
    → (is_star mon ≡ false) ⊎ (all is_plain (min ∷ hour ∷ dom ∷ dow ∷ []) ≡ false)
    → job_describe_cron (five min hour dom mon dow) ≡ five min hour dom mon dow
unfolding job_fields
job_describe_cron_raw min hour dom mon dow hs (inl h) =
    job_describe_cron-five min hour dom mon dow hs ∙ rw h
job_describe_cron_raw min hour dom mon dow hs (inr h) =
    job_describe_cron-five min hour dom mon dow hs ∙ ground arith

is_simple_of_digits : (s : Text) → All IsDigit s → IsCons s → is_simple s ≡ true
unfolding is_simple
is_simple_of_digits [] h k = absurd k
is_simple_of_digits (c ∷ []) (h, hs) k = ground arith
is_simple_of_digits (c ∷ d ∷ s) (h, hs) k = ground (arith, is_simple_of_digits (d ∷ s) hs tt)

show-is_simple : (n : ℕ) → is_simple (show n) ≡ true
show-is_simple n = is_simple_of_digits (show n) (show-digits n).0 (show-digits n).1

show-ne-star : (n : ℕ) → is_star (show n) ≡ false
unfolding show_int
show-ne-star n = show_int-ne-star (pos n)

module _ (h m : ℕ) where
  abbrev timed : Text → Text → Text
  timed dom dow = five (show m) (show h) dom star dow

  timed-IsWord :
      (dom dow : Text)
      → IsWord dom
      → IsWord dow
      → All IsWord (show m ∷ show h ∷ dom ∷ star ∷ dow ∷ [])
  timed-IsWord dom dow p q = (show-IsWord m, (show-IsWord h, (p, (star-IsWord, (q, tt)))))

  job_describe_cron-timed :
      (dom dow : Text)
      → IsWord dom
      → IsWord dow
      → is_plain dom ≡ true
      → is_plain dow ≡ true
      → job_describe_cron (timed dom dow) ≡ by_day (timed dom dow) dom dow (clock (show h) (show m))
  unfolding job_fields text_eq
  job_describe_cron-timed dom dow p q x y =
      job_describe_cron-five _ _ dom star dow (timed-IsWord dom dow p q)
      ∙ rw (show-ne-star h, show-ne-star m, show-is_simple h, show-is_simple m, x, y)

  network_describe_cron-timed :
      (dom dow : Text)
      → IsWord dom
      → IsWord dow
      → network_describe_cron (timed dom dow)
        ≡ by_day (timed dom dow) dom dow (clock (show h) (show m))
  unfolding network_parts
  network_describe_cron-timed dom dow p q =
      network_describe_cron-five _ _ dom star dow (timed-IsWord dom dow p q)
      ∙ rw (show-ne-star h, show-ne-star m)

abbrev pub picked : Frequency → ℕ → ℕ → ℕ → ℕ → Schedule
picked f h m w d = record {
  frequency = f;
  hour = pos h;
  minute = pos m;
  weekday = pos w;
  day = pos d;
}

-- The phrase for what a user picks, written without cron expressions; `hourly` is left to the page.
abbrev pub phrase : Text → Frequency → ℕ → ℕ → ℕ → Text
phrase each_hour hourly h m w = each_hour
phrase each_hour daily h m w = codes "Daily" ++ clock (show h) (show m)
phrase each_hour weekly h m w =
    codes "Weekly ("
    ++ (or_else (get_elem? day_names w) (show w) ++ (codes ")" ++ clock (show h) (show m)))
phrase each_hour monthly h m w = codes "Monthly" ++ clock (show h) (show m)
phrase each_hour custom h m w = each_hour

by_day_daily : (e t : Text) → by_day e star star t ≡ codes "Daily" ++ t
unfolding text_eq
by_day_daily e t = refl

by_day_weekly :
    (e t : Text) (w : ℕ)
    → by_day e star (show w) t
      ≡ codes "Weekly (" ++ (or_else (get_elem? day_names w) (show w) ++ (codes ")" ++ t))
by_day_weekly e t w = rw (text_eq_refl star, show-ne-star w, parse_int-show w)

by_day_monthly : (e t : Text) (d : ℕ) → by_day e (show d) star t ≡ codes "Monthly" ++ t
by_day_monthly e t d = rw (text_eq_refl star, show-ne-star d)

star-is_plain : is_plain star ≡ true
unfolding text_eq
star-is_plain = refl

show-is_plain : (n : ℕ) → is_plain (show n) ≡ true
show-is_plain n = rw (show-ne-star n) (show-is_simple n)

-- The maintenance page gives every schedule that can be picked the phrase of its frequency, time
-- and weekday.
pub job_describe_cron-schedule_to_cron :
    (f : Frequency) (h m w d : ℕ)
    → job_describe_cron (schedule_to_cron (picked f h m w d)) ≡ phrase (codes "Hourly") f h m w
unfolding schedule_to_cron show_int
job_describe_cron-schedule_to_cron hourly h m w d = job_hourly
job_describe_cron-schedule_to_cron daily h m w d =
    job_describe_cron-timed h m star star star-IsWord star-IsWord star-is_plain star-is_plain
    ∙ by_day_daily _ _
job_describe_cron-schedule_to_cron weekly h m w d =
    job_describe_cron-timed h m star (show w) star-IsWord (show-IsWord w) star-is_plain
      (show-is_plain w)
    ∙ by_day_weekly _ _ w
job_describe_cron-schedule_to_cron monthly h m w d =
    job_describe_cron-timed h m (show d) star (show-IsWord d) star-IsWord (show-is_plain d)
      star-is_plain
    ∙ by_day_monthly _ _ d
job_describe_cron-schedule_to_cron custom h m w d = job_hourly

-- The discovery page does so too, but for the hourly schedule, which it calls `Daily`.
pub network_describe_cron-schedule_to_cron :
    (f : Frequency) (h m w d : ℕ)
    → network_describe_cron (schedule_to_cron (picked f h m w d)) ≡ phrase (codes "Daily") f h m w
unfolding schedule_to_cron show_int
network_describe_cron-schedule_to_cron hourly h m w d = network_hourly
network_describe_cron-schedule_to_cron daily h m w d =
    network_describe_cron-timed h m star star star-IsWord star-IsWord ∙ by_day_daily _ _
network_describe_cron-schedule_to_cron weekly h m w d =
    network_describe_cron-timed h m star (show w) star-IsWord (show-IsWord w) ∙ by_day_weekly _ _ w
network_describe_cron-schedule_to_cron monthly h m w d =
    network_describe_cron-timed h m (show d) star (show-IsWord d) star-IsWord ∙ by_day_monthly _ _ d
network_describe_cron-schedule_to_cron custom h m w d = network_hourly

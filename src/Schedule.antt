-- ===== src/Schedule.antt =====
-- web/src/components/SchedulePicker.tsx: cron expressions as schedules and back, and the state of
-- the picker.
pub mod RoundTrip
pub mod Picker
pub mod Describe
mod Tests
use tlsentinel_server.Common.{
  ℕ, Bool, true, false, ◌&&◌, not, List, [], ◌∷◌, Option, none, some, ◌≡◌, refl, if◌then◌else◌,
}
use tlsentinel_server.Text.{Text, codes, text_eq, trim, join}
use tlsentinel_server.Text.Words.{split_spaces}
use tlsentinel_server.Text.Numbers.{ℤ, pos, parse_int, show_int}

pub data Frequency : Type 0 where
  hourly daily weekly monthly custom : Frequency

pub record Schedule : Type 0 where
  pub frequency : Frequency
  pub hour : ℤ
  pub minute : ℤ
  pub weekday : ℤ
  pub day : ℤ

abbrev pub star : Text
star = codes "*"

abbrev is_star : Text → Bool
is_star s = text_eq s star

-- The return statements of `cronToSchedule` behind the two `parseInt` calls for the time.
pub timed_schedule : Text → Text → ℤ → ℤ → Option Schedule
timed_schedule dom dow h m =
    if is_star dom && is_star dow
    then some (record { frequency = daily; hour = h; minute = m; weekday = pos 0; day = pos 1 })
    else if is_star dom && not (is_star dow)
    then elim (parse_int dow) [
      | none ↦ none
      | some d ↦
          some (record { frequency = weekly; hour = h; minute = m; weekday = d; day = pos 1 })
    ]
    else if not (is_star dom) && is_star dow
    then elim (parse_int dom) [
      | none ↦ none
      | some d ↦
          some (record { frequency = monthly; hour = h; minute = m; weekday = pos 0; day = d })
    ]
    else none

-- The five fields; the month is read and never used.
pub fields_to_schedule : Text → Text → Text → Text → Option Schedule
fields_to_schedule min hr dom dow =
    if text_eq min (codes "0") && is_star hr && is_star dom && is_star dow
    then some
        (record { frequency = hourly; hour = pos 0; minute = pos 0; weekday = pos 0; day = pos 1 })
    else elim (parse_int hr) [
      | none ↦ none
      | some h ↦ elim (parse_int min) [ none ↦ none | some m ↦ timed_schedule dom dow h m ]
    ]

parts_to_schedule : List Text → Option Schedule
parts_to_schedule (min ∷ hr ∷ dom ∷ mon ∷ dow ∷ []) = fields_to_schedule min hr dom dow
parts_to_schedule _ = none

unfoldable pub cron_to_schedule : Text → Option Schedule
unfolding parts_to_schedule fields_to_schedule timed_schedule
cron_to_schedule expr = parts_to_schedule (split_spaces (trim expr))

abbrev space : Text
space = codes " "

-- A template literal whose parts are separated by single spaces.
schedule_fields : Schedule → Frequency → List Text
schedule_fields s hourly = codes "0" ∷ star ∷ star ∷ star ∷ star ∷ []
schedule_fields s daily = show_int s.minute ∷ show_int s.hour ∷ star ∷ star ∷ star ∷ []
schedule_fields s weekly =
    show_int s.minute ∷ show_int s.hour ∷ star ∷ star ∷ show_int s.weekday ∷ []
schedule_fields s monthly = show_int s.minute ∷ show_int s.hour ∷ show_int s.day ∷ star ∷ star ∷ []
schedule_fields s custom = codes "0" ∷ star ∷ star ∷ star ∷ star ∷ []

unfoldable pub schedule_to_cron : Schedule → Text
unfolding schedule_fields join
schedule_to_cron s = join space (schedule_fields s s.frequency)

abbrev pub default_sched : Schedule
default_sched = record {
  frequency = daily;
  hour = pos 2;
  minute = pos 0;
  weekday = pos 0;
  day = pos 1;
}

nightly_cron : schedule_to_cron default_sched ≡ codes "0 2 * * *"
unfolding schedule_to_cron show_int
nightly_cron = refl

nightly_schedule : cron_to_schedule (codes " 0 2 * * * ") ≡ some default_sched
unfolding cron_to_schedule parse_int split_spaces trim text_eq
nightly_schedule = refl

every_quarter : cron_to_schedule (codes "*/15 * * * *") ≡ none
unfolding cron_to_schedule parse_int split_spaces trim text_eq
every_quarter = refl

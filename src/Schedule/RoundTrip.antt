-- ===== src/Schedule/RoundTrip.antt =====
-- `cronToSchedule` after `scheduleToCron`.
use tlsentinel_server.Common.{false, [], ◌∷◌, some, ◌≡◌, refl, ap, ◌∙◌, arith, All}
use tlsentinel_server.Text.{Text, codes, text_eq, text_eq_refl, is_space, join}
use tlsentinel_server.Text.Words.{IsWord, split_spaces, split_spaces-join, trim-join}
use tlsentinel_server.Text.Numbers.{ℤ, pos, show_int}
use tlsentinel_server.Text.Numbers.Laws.{
  StartsNumeral, show_int-StartsNumeral, show_int-IsWord, parse_int-show_int,
}
use tlsentinel_server.Schedule.{
  Frequency, hourly, daily, weekly, monthly, custom, Schedule, star, space, timed_schedule,
  fields_to_schedule, parts_to_schedule, cron_to_schedule, schedule_fields, schedule_to_cron,
}

-- What a cron expression keeps of a schedule: the fields that its frequency uses.
abbrev pub kept_by : Schedule → Frequency → Schedule
kept_by s hourly = record {
  frequency = hourly;
  hour = pos 0;
  minute = pos 0;
  weekday = pos 0;
  day = pos 1;
}
kept_by s daily = record {
  frequency = daily;
  hour = s.hour;
  minute = s.minute;
  weekday = pos 0;
  day = pos 1;
}
kept_by s weekly = record {
  frequency = weekly;
  hour = s.hour;
  minute = s.minute;
  weekday = s.weekday;
  day = pos 1;
}
kept_by s monthly = record {
  frequency = monthly;
  hour = s.hour;
  minute = s.minute;
  weekday = pos 0;
  day = s.day;
}
kept_by s custom = record {
  frequency = hourly;
  hour = pos 0;
  minute = pos 0;
  weekday = pos 0;
  day = pos 1;
}

-- White space around and between five words does not matter, and neither does the fourth word.
pub cron_to_schedule-join :
    (min hr dom mon dow : Text)
    → All IsWord (min ∷ hr ∷ dom ∷ mon ∷ dow ∷ [])
    → cron_to_schedule (join space (min ∷ hr ∷ dom ∷ mon ∷ dow ∷ []))
      ≡ fields_to_schedule min hr dom dow
unfolding cron_to_schedule parts_to_schedule
cron_to_schedule-join min hr dom mon dow (h, hs) =
    ap (λ t. parts_to_schedule (split_spaces t)) (trim-join min _ h hs)
    ∙ ap parts_to_schedule (split_spaces-join min _ h hs)

pub show_int-ne-star : (z : ℤ) → text_eq (show_int z) star ≡ false
unfolding text_eq
show_int-ne-star z = go (show_int z) (show_int-StartsNumeral z)
  where
    go : (s : Text) → StartsNumeral s → text_eq s star ≡ false
    go [] h = absurd h
    go (c ∷ s) h = ground arith

pub star-IsWord : IsWord star
unfolding is_space
star-IsWord = (refl, tt)

pub zero-IsWord : IsWord (codes "0")
unfolding is_space
zero-IsWord = (refl, tt)

pub fields_to_schedule-timed :
    (m h : ℤ) (dom dow : Text)
    → fields_to_schedule (show_int m) (show_int h) dom dow ≡ timed_schedule dom dow h m
unfolding fields_to_schedule
fields_to_schedule-timed m h dom dow =
    ground (arith, show_int-ne-star h, parse_int-show_int h, parse_int-show_int m)

fields_hourly :
    (s : Schedule) → fields_to_schedule (codes "0") star star star ≡ some (kept_by s hourly)
unfolding fields_to_schedule text_eq
fields_hourly s = refl

module _ (m h z : ℤ) where
  pub timed_daily :
      timed_schedule star star h m
      ≡ some
          (kept_by (record { frequency = daily; hour = h; minute = m; weekday = z; day = z }) daily)
  unfolding timed_schedule text_eq
  timed_daily = refl

  timed_weekly :
      timed_schedule star (show_int z) h m
      ≡ some (
          kept_by (record { frequency = daily; hour = h; minute = m; weekday = z; day = z }) weekly)
  unfolding timed_schedule
  timed_weekly = ground (arith, show_int-ne-star z, parse_int-show_int z, text_eq_refl star)

  timed_monthly :
      timed_schedule (show_int z) star h m
      ≡ some (
          kept_by
            (record { frequency = daily; hour = h; minute = m; weekday = z; day = z })
            monthly)
  unfolding timed_schedule
  timed_monthly = ground (arith, show_int-ne-star z, parse_int-show_int z, text_eq_refl star)

-- Loading the cron expression of a schedule gives the schedule back, but for the fields that its
-- frequency does not use; the expression of a custom schedule is the hourly one.
pub cron_to_schedule-schedule_to_cron :
    (s : Schedule) → cron_to_schedule (schedule_to_cron s) ≡ some (kept_by s s.frequency)
unfolding schedule_to_cron
cron_to_schedule-schedule_to_cron s = go s.frequency
  where
    w : (z : ℤ) → IsWord (show_int z)
    w z = show_int-IsWord z

    clock :
        (dom dow : Text)
        → IsWord dom
        → IsWord dow
        → cron_to_schedule
            (join space (show_int s.minute ∷ show_int s.hour ∷ dom ∷ star ∷ dow ∷ []))
          ≡ timed_schedule dom dow s.hour s.minute
    clock dom dow p q =
        cron_to_schedule-join _ _ dom star dow (w s.minute, (w s.hour, (p, (star-IsWord, (q, tt)))))
        ∙ fields_to_schedule-timed s.minute s.hour dom dow

    wild :
        cron_to_schedule (join space (codes "0" ∷ star ∷ star ∷ star ∷ star ∷ []))
        ≡ some (kept_by s hourly)
    wild =
        cron_to_schedule-join (codes "0") star star star star
          (zero-IsWord, (star-IsWord, (star-IsWord, (star-IsWord, (star-IsWord, tt)))))
        ∙ fields_hourly s

    go : (f : Frequency) → cron_to_schedule (join space (schedule_fields s f)) ≡ some (kept_by s f)
    go hourly = wild
    go daily = clock star star star-IsWord star-IsWord ∙ timed_daily s.minute s.hour (pos 0)
    go weekly = clock star _ star-IsWord (w s.weekday) ∙ timed_weekly s.minute s.hour s.weekday
    go monthly = clock _ star (w s.day) star-IsWord ∙ timed_monthly s.minute s.hour s.day
    go custom = wild

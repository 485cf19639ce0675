-- ===== src/Schedule/Tests.antt =====
-- The schedule theorems at concrete schedules.
use tlsentinel_server.Common.{some, ◌≡◌, refl}
use tlsentinel_server.Text.{codes}
use tlsentinel_server.Text.Numbers.{pos, show_int}
use tlsentinel_server.Schedule.{weekly, Schedule, default_sched, cron_to_schedule, schedule_to_cron}
use tlsentinel_server.Schedule.RoundTrip.{kept_by, cron_to_schedule-schedule_to_cron}
use tlsentinel_server.Schedule.Picker.{
  Picker, value_changed, preview_cron, handle, edit, hour, handle-settles,
}

abbrev mondays : Schedule
mondays = record {
  frequency = weekly;
  hour = pos 9;
  minute = pos 30;
  weekday = pos 1;
  day = pos 17;
}

cron_to_schedule-schedule_to_cron_example :
    cron_to_schedule (schedule_to_cron mondays) ≡ some (kept_by mondays weekly)
cron_to_schedule-schedule_to_cron_example = cron_to_schedule-schedule_to_cron mondays

abbrev nightly : Picker
nightly = record { sched = default_sched; custom_expr = codes "0 2 * * *" }

reported : (handle (edit (hour (pos 5))) nightly).1 ≡ some (codes "0 5 * * *")
unfolding handle schedule_to_cron show_int
reported = refl

handle-settles_example :
    (preview_cron (handle (edit (hour (pos 5))) nightly).0 ≡ codes "0 5 * * *")
    × (preview_cron (value_changed (codes "0 5 * * *") (handle (edit (hour (pos 5))) nightly).0)
        ≡ codes "0 5 * * *")
handle-settles_example = handle-settles (edit (hour (pos 5))) nightly (codes "0 5 * * *") reported

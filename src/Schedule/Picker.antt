-- ===== src/Schedule/Picker.antt =====
-- The state of `SchedulePicker`: what it shows, and what it reports to its parent by `onChange`.
use tlsentinel_server.Common.{Option, none, some, ◌≡◌, refl, sym, ap, ◌∙◌, arith, [], ◌∷◌}
use tlsentinel_server.Text.{Text, join}
use tlsentinel_server.Text.Words.{IsWord}
use tlsentinel_server.Text.Numbers.{ℤ, pos, show_int}
use tlsentinel_server.Text.Numbers.Laws.{show_int-IsWord}
use tlsentinel_server.Schedule.{
  Frequency, hourly, daily, weekly, monthly, custom, Schedule, default_sched, star, space,
  cron_to_schedule, schedule_to_cron,
}
use tlsentinel_server.Schedule.RoundTrip.{
  kept_by, star-IsWord, cron_to_schedule-join, fields_to_schedule-timed, timed_daily,
  cron_to_schedule-schedule_to_cron,
}

-- The two `useState` values.
pub record Picker : Type 0 where
  pub sched : Schedule
  pub custom_expr : Text

abbrev initial : Text → Option Schedule → Picker
initial value none = record {
  sched = record default_sched { frequency = custom };
  custom_expr = value;
}
initial value (some parsed) = record { sched = parsed; custom_expr = value }

pub init_from_value : Text → Picker
init_from_value value = initial value (cron_to_schedule value)

-- The `useEffect` on `value`.
pub value_changed : Text → Picker → Picker
unfolding init_from_value
value_changed value p = elim p.sched.frequency [ custom ↦ p | _ ↦ init_from_value value ]

-- The `Partial<Schedule>` that a control hands to `update`.
pub data Patch : Type 0 where
  frequency : Frequency → Patch
  hour minute weekday day : ℤ → Patch

abbrev patched : Patch → Schedule → Schedule
patched (frequency f) s = record s { frequency = f }
patched (hour z) s = record s { hour = z }
patched (minute z) s = record s { minute = z }
patched (weekday z) s = record s { weekday = z }
patched (day z) s = record s { day = z }

-- The second part is the argument of `onChange`, if it is called.
abbrev report : Schedule → Picker → Frequency → Picker × Option Text
report next p custom = (record p { sched = next }, none)
report next p f = (record p { sched = next }, some (schedule_to_cron next))

pub update : Patch → Picker → Picker × Option Text
update patch p = report (patched patch p.sched) p (patched patch p.sched).frequency

-- The expression that the picker stands for.
pub preview_cron : Picker → Text
preview_cron p = elim p.sched.frequency [ custom ↦ p.custom_expr | _ ↦ schedule_to_cron p.sched ]

pub handle_frequency_change : Frequency → Picker → Picker × Option Text
unfolding preview_cron update
handle_frequency_change custom p =
    let current = preview_cron p in
    (record { sched = record p.sched { frequency = custom }; custom_expr = current }, some current)
handle_frequency_change f p = update (frequency f) p

pub handle_custom_change : Text → Picker → Picker × Option Text
handle_custom_change expr p = (record p { custom_expr = expr }, some expr)

-- The three ways in which a user changes the picker. The text box is shown for `custom` only.
pub data Event : Type 0 where
  choose : Frequency → Event
  edit : Patch → Event
  type_custom : Text → Event

abbrev typed : Text → Picker → Frequency → Picker × Option Text
typed expr p custom = handle_custom_change expr p
typed expr p f = (p, none)

unfoldable pub handle : Event → Picker → Picker × Option Text
unfolding handle_frequency_change handle_custom_change update
handle (choose f) p = handle_frequency_change f p
handle (edit patch) p = update patch p
handle (type_custom expr) p = typed expr p p.sched.frequency

reloaded :
    (s : Schedule)
    → preview_cron (initial (schedule_to_cron s) (cron_to_schedule (schedule_to_cron s)))
      ≡ preview_cron (initial (schedule_to_cron s) (some (kept_by s s.frequency)))
reloaded s =
    ap (λ o. preview_cron (initial (schedule_to_cron s) o)) (cron_to_schedule-schedule_to_cron s)

settles_at :
    (f : Frequency) (h m w d : ℤ) (c : Text)
    → (let p : Picker = record {
      sched = record { frequency = f; hour = h; minute = m; weekday = w; day = d };
      custom_expr = c;
    } in
        preview_cron (value_changed (preview_cron p) p) ≡ preview_cron p)
unfolding preview_cron value_changed schedule_to_cron
settles_at hourly h m w d c =
    reloaded (record { frequency = hourly; hour = h; minute = m; weekday = w; day = d })
settles_at daily h m w d c =
    reloaded (record { frequency = daily; hour = h; minute = m; weekday = w; day = d })
settles_at weekly h m w d c =
    reloaded (record { frequency = weekly; hour = h; minute = m; weekday = w; day = d })
settles_at monthly h m w d c =
    reloaded (record { frequency = monthly; hour = h; minute = m; weekday = w; day = d })
settles_at custom h m w d c = refl

settles : (p : Picker) → preview_cron (value_changed (preview_cron p) p) ≡ preview_cron p
settles p =
    settles_at p.sched.frequency p.sched.hour p.sched.minute p.sched.weekday p.sched.day
      p.custom_expr

reports :
    (e : Event) (p : Picker) (t : Text) → (handle e p).1 ≡ some t → preview_cron (handle e p).0 ≡ t
unfolding handle preview_cron
reports (choose f) p t h = ground arith
reports (edit patch) p t h = ground arith
reports (type_custom expr) p t h = ground arith

-- What a change reports is what the picker shows afterwards, also when the parent hands the
-- reported expression back as the new value.
pub handle-settles :
    (e : Event) (p : Picker) (t : Text)
    → (handle e p).1 ≡ some t
    → (preview_cron (handle e p).0 ≡ t) × (preview_cron (value_changed t (handle e p).0) ≡ t)
handle-settles e p t h =
    let shown = reports e p t h in
    let q = (handle e p).0 in
    (shown, ap (λ u. preview_cron (value_changed u q)) (sym shown) ∙ settles q ∙ shown)

-- The month of an expression is lost: an expression for given months only, at a given time, is
-- shown by the picker, and reported at the next change, as the one for every day of the year.
pub month_is_lost :
    (m h : ℤ) (mon : Text)
    → IsWord mon
    → preview_cron (init_from_value (join space (show_int m ∷ show_int h ∷ star ∷ mon ∷ star ∷ [])))
      ≡ join space (show_int m ∷ show_int h ∷ star ∷ star ∷ star ∷ [])
unfolding preview_cron init_from_value schedule_to_cron
month_is_lost m h mon hm =
    let expr = join space (show_int m ∷ show_int h ∷ star ∷ mon ∷ star ∷ []) in
    ap (λ o. preview_cron (initial expr o))
      (cron_to_schedule-join (show_int m) (show_int h) star mon star
          (show_int-IsWord m, (show_int-IsWord h, (star-IsWord, (hm, (star-IsWord, tt)))))
        ∙ fields_to_schedule-timed m h star star
        ∙ timed_daily m h (pos 0))

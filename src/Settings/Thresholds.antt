-- ===== src/Settings/Thresholds.antt =====
-- web/src/pages/settings/GeneralSettingsPage.tsx: the days before expiry at which alerts are sent.
pub mod Invariant
use tlsentinel_server.Common.{
  Bool, true, false, ◌&&◌, ◌||◌, not, List, [], ◌∷◌, ◌++◌, Option, none, some, if◌then◌else◌, keep,
  any, sort_by,
}
use tlsentinel_server.Text.{Text, codes, is_empty, trim}
use tlsentinel_server.Text.Numbers.{ℤ, pos, negsuc, less, parse_int_radix, show_int}
use tlsentinel_server.Client.{Call}
use tlsentinel_server.Page.{Answer, answered, refused, broken, error_text}
use tlsentinel_server.Api.Settings.{AlertThresholdsResponse, set_alert_thresholds}

abbrev pub default_thresholds : List ℤ
default_thresholds = pos 30 ∷ pos 14 ∷ pos 7 ∷ pos 1 ∷ []

pub record GeneralSettings : Type 0 where
  pub thresholds : List ℤ
  pub input : Text
  pub loading : Bool
  pub saving : Bool
  pub error : Option Text
  pub success : Bool

unfoldable pub opened : GeneralSettings
opened = record {
  thresholds = [];
  input = [];
  loading = true;
  saving = false;
  error = none;
  success = false;
}

-- `a === b`.
abbrev pub equals : ℤ → ℤ → Bool
equals a b = not (less a b) && not (less b a)

abbrev pub in_range : ℤ → Bool
in_range v = not (less v (pos 1)) && not (less (pos 365) v)

-- `[...prev, val].sort((a, b) => b - a)`.
unfoldable pub with_threshold : ℤ → List ℤ → List ℤ
with_threshold v ts = sort_by (λ a b. less b a) (ts ++ v ∷ [])

unfoldable pub loaded : Answer AlertThresholdsResponse → GeneralSettings → GeneralSettings
loaded (answered r) s = record s { thresholds = r.thresholds; loading = false }
loaded _ s = record s { thresholds = default_thresholds; loading = false }

-- `addThreshold`, on what `parseInt` gives; `none` is NaN.
unfoldable pub add_value : Option ℤ → GeneralSettings → GeneralSettings
unfolding with_threshold
add_value none s = record s { error = some (codes "Enter a value between 1 and 365.") }
add_value (some v) s =
    if not (in_range v)
    then record s { error = some (codes "Enter a value between 1 and 365.") }
    else if any (equals v) s.thresholds
    then record s { error = some (show_int v ++ codes " is already in the list.") }
    else record s { thresholds = with_threshold v s.thresholds; input = []; error = none }

unfoldable pub add_threshold : GeneralSettings → GeneralSettings
unfolding add_value
add_threshold s = add_value (parse_int_radix 10 (trim s.input)) s

unfoldable pub remove_threshold : ℤ → GeneralSettings → GeneralSettings
remove_threshold v s = record s {
  thresholds = keep (λ t. not (equals t v)) s.thresholds;
  error = none;
}

-- `resetToDefaults` up to its `await`, with the call that it waits for.
unfoldable pub reset_to_defaults : GeneralSettings → GeneralSettings × Option Call
reset_to_defaults s = (
  record s { thresholds = default_thresholds; error = none; saving = true; success = false },
  some (set_alert_thresholds default_thresholds),
)

unfoldable pub handle_save : GeneralSettings → GeneralSettings × Option Call
handle_save s =
    if is_empty s.thresholds
    then (record s { error = some (codes "At least one threshold is required.") }, none)
    else (
      record s { saving = true; error = none; success = false },
      some (set_alert_thresholds s.thresholds),
    )

-- Behind the `await` of both, which differ in the message.
unfoldable pub settled : Text → Answer AlertThresholdsResponse → GeneralSettings → GeneralSettings
settled fallback (answered r) s = record s {
  thresholds = r.thresholds;
  success = true;
  saving = false;
}
settled fallback r s = record s { error = error_text fallback r; saving = false }

pub data Event : Type 0 where
  type_input : Text → Event
  add reset save success_over : Event
  remove : ℤ → Event
  load_answer reset_answer save_answer : Answer AlertThresholdsResponse → Event

unfoldable pub step : Event → GeneralSettings → GeneralSettings
unfolding loaded add_threshold remove_threshold reset_to_defaults handle_save settled
step (type_input text) s = record s { input = text }
step add s = add_threshold s
step (remove v) s = remove_threshold v s
step reset s = (reset_to_defaults s).0
step save s = (handle_save s).0
step success_over s = record s { success = false }
step (load_answer r) s = loaded r s
step (reset_answer r) s = settled (codes "Failed to reset thresholds.") r s
step (save_answer r) s = settled (codes "Failed to save thresholds.") r s

unfoldable pub run : List Event → GeneralSettings → GeneralSettings
unfolding step
run [] s = s
run (e ∷ es) s = run es (step e s)

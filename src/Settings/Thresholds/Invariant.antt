-- ===== src/Settings/Thresholds/Invariant.antt =====
-- The list of web/src/pages/settings/GeneralSettingsPage.tsx: its order, its range, no value twice.
use mathlib.Core.List.{Nodup}
use mathlib.Core.List.Perm
use mathlib.Core.Logic.Or
use tlsentinel_server.Common.{true, List, ◌≡◌, ◌↔◌, arith, All, IsSortedBy}
use tlsentinel_server.Text.{Text}
use tlsentinel_server.Text.Numbers.{ℤ, pos, negsuc, less}
use tlsentinel_server.Page.{Answer, answered}
use tlsentinel_server.Api.Settings.{AlertThresholdsResponse}
use tlsentinel_server.Settings.Thresholds.{
  Event, equals, in_range, load_answer, reset_answer, save_answer,
}

-- Descending, from 1 to 365, and no value twice.
pub record IsThresholds (ts : List ℤ) : Type 0 where
  pub descending : IsSortedBy (λ a b. less b a) ts
  pub in_bounds : All (λ v. in_range v ≡ true) ts
  pub distinct : Nodup ts

pub equals_iff : (a b : ℤ) → (equals a b ≡ true) ↔ (a ≡ b)
equals_iff (pos a) (pos b) = ground arith
equals_iff (pos a) (negsuc b) = ground arith
equals_iff (negsuc a) (pos b) = ground arith
equals_iff (negsuc a) (negsuc b) = ground arith

abbrev pub KeepsThresholds : Answer AlertThresholdsResponse → Type 0
KeepsThresholds (answered r) = IsThresholds r.thresholds
KeepsThresholds _ = Unit

-- The answers of the server hold such lists.
abbrev pub IsKept : Event → Type 0
IsKept (load_answer r) = KeepsThresholds r
IsKept (reset_answer r) = KeepsThresholds r
IsKept (save_answer r) = KeepsThresholds r
IsKept _ = Unit

-- ===== src/Common/Keeping.antt =====
-- What a filter keeps.
use mathlib.Core.Path.{◌≡◌}
use mathlib.Core.Logic.{inl, inr}
use mathlib.Core.Logic.Or
use mathlib.Core.Bool.{Bool, true, false}
use mathlib.Core.List.{List, [], ◌∷◌, Mem, Nodup, Nodup-cons, mem-cons}
use tlsentinel_server.Common.Tests.{Bool-cases}
use tlsentinel_server.Common.Lists.{All, keep}
use tlsentinel_server.Common.Sorting.{IsSortedBy}

module _ {A : Type 0} (p : A → Bool) where
  pub All-keep : (P : A → Type 0) (xs : List A) → All P xs → All P (keep p xs)
  All-keep P [] h = tt
  All-keep P (x ∷ xs) (q, h) = elim (Bool-cases (p x)) [
    | inl e ↦ rw e (q, All-keep P xs h)
    | inr e ↦ rw e (All-keep P xs h)
  ]

  -- Each element that is kept passes the test.
  pub keep-All : (xs : List A) → All (λ x. p x ≡ true) (keep p xs)
  keep-All [] = tt
  keep-All (x ∷ xs) = elim (Bool-cases (p x)) [
    | inl e ↦ rw e (e, keep-All xs)
    | inr e ↦ rw e (keep-All xs)
  ]

  pub IsSortedBy-keep :
      (before : A → A → Bool) (xs : List A) → IsSortedBy before xs → IsSortedBy before (keep p xs)
  IsSortedBy-keep before [] h = tt
  IsSortedBy-keep before (x ∷ xs) (h, k) = elim (Bool-cases (p x)) [
    | inl e ↦ rw e (All-keep (λ y. before y x ≡ false) xs h, IsSortedBy-keep before xs k)
    | inr e ↦ rw e (IsSortedBy-keep before xs k)
  ]

  kept-mem : (a : A) (xs : List A) → ¬ Mem a xs → ¬ Mem a (keep p xs)
  kept-mem a [] h = h
  kept-mem a (x ∷ xs) h = elim (Bool-cases (p x)) [
    | inl e ↦ rw e (λ m.
        Or.elim (hlevel) (mem-cons.0 m) (λ q. h (mem-cons.1 (Or.inl q)))
          (λ r. kept-mem a xs (λ s. h (mem-cons.1 (Or.inr s))) r))
    | inr e ↦ rw e (kept-mem a xs (λ s. h (mem-cons.1 (Or.inr s))))
  ]

  pub Nodup-keep : (xs : List A) → Nodup xs → Nodup (keep p xs)
  Nodup-keep [] h = h
  Nodup-keep (x ∷ xs) h = elim (Bool-cases (p x)) [
    | inl e ↦
        rw e (Nodup-cons.1 (kept-mem x xs (Nodup-cons.0 h).0, Nodup-keep xs (Nodup-cons.0 h).1))
    | inr e ↦ rw e (Nodup-keep xs (Nodup-cons.0 h).1)
  ]

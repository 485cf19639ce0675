-- ===== src/Text/Parts.antt =====
-- `s.includes(t)` for texts, and `split` after `join`.
use tlsentinel_server.Common.{
  ℕ, Bool, true, false, ◌||◌, ◌&&◌, List, [], ◌∷◌, ◌++◌, append_assoc, append-nil, ◌==◌, ◌≡◌, sym,
  ap, ◌∙◌, arith, All, Bool-cases, inl, inr, refl,
}
use tlsentinel_server.Text.{Text, Lacks, split_from, split, join, has_unit}

-- `s.startsWith(t)`.
unfoldable pub starts_with : Text → Text → Bool
starts_with [] s = true
starts_with (c ∷ t) [] = false
starts_with (c ∷ t) (d ∷ s) = c == d && starts_with t s

unfoldable pub includes_text : Text → Text → Bool
unfolding starts_with
includes_text t [] = starts_with t []
includes_text t (c ∷ s) = starts_with t (c ∷ s) || includes_text t s

split_from-append :
    (u : ℕ) (cur p s : Text) → Lacks u p → split_from u cur (p ++ s) ≡ split_from u (cur ++ p) s
unfolding split_from
split_from-append u cur [] s h = ap (λ t. split_from u t s) (sym (append-nil cur))
split_from-append u cur (c ∷ p) s (other, h) =
    rw (other, split_from)
      (split_from-append u (cur ++ c ∷ []) p s h
        ∙ ap (λ t. split_from u t s) (append_assoc cur (c ∷ []) p))

pub eq_self : (u : ℕ) → (u == u) ≡ true
eq_self u = ground arith

split_from-join :
    (u : ℕ) (cur p : Text) (ps : List Text)
    → All (Lacks u) (p ∷ ps)
    → split_from u cur (join (u ∷ []) (p ∷ ps)) ≡ (cur ++ p) ∷ ps
unfolding join split_from
split_from-join u cur p [] (h, _) =
    ap (split_from u cur) (sym (append-nil p)) ∙ split_from-append u cur p [] h
split_from-join u cur p (q ∷ ps) (h, hs) =
    split_from-append u cur p (u ∷ join (u ∷ []) (q ∷ ps)) h
    ∙ rw (eq_self u, split_from) (ap (◌∷◌ (cur ++ p)) (split_from-join u [] q ps hs))

-- Parts that lack the separator are split back.
pub split-join :
    (u : ℕ) (p : Text) (ps : List Text)
    → All (Lacks u) (p ∷ ps)
    → split u (join (u ∷ []) (p ∷ ps)) ≡ p ∷ ps
unfolding split
split-join u p ps h = split_from-join u [] p ps h

pub has_unit-append :
    (v : ℕ) (s t : Text)
    → has_unit v (s ++ t) ≡ false
    → (has_unit v s ≡ false) × (has_unit v t ≡ false)
unfolding has_unit
has_unit-append v [] t h = (refl, h)
has_unit-append v (c ∷ s) t h =
    let (k, r) = has_unit-append v s t (ground arith) in (ground (arith, k), r)

has_unit-split_from :
    (u v : ℕ) (cur s : Text)
    → (u == v) ≡ false
    → All (λ p. has_unit v p ≡ false) (split_from u cur s)
    → (has_unit v cur ≡ false) × (has_unit v s ≡ false)
unfolding split_from has_unit
has_unit-split_from u v cur [] other (h, _) = (h, refl)
has_unit-split_from u v cur (c ∷ s) other h = elim (Bool-cases (c == u)) [
  | inl p ↦
      let parts : All (λ p. has_unit v p ≡ false) (cur ∷ split_from u [] s) =
        rw (p, split_from) at h in
      let rest : has_unit v s ≡ false = (has_unit-split_from u v [] s other parts.1).1 in
      (parts.0, ground arith)
  | inr p ↦
      let parts : All (λ p. has_unit v p ≡ false) (split_from u (cur ++ c ∷ []) s) =
        rw (p, split_from) at h in
      let (before, rest) = has_unit-split_from u v (cur ++ c ∷ []) s other parts in
      let (start, unit) = has_unit-append v cur (c ∷ []) before in (start, ground arith)
]

-- What no part has, other than the separator, the text does not have.
pub has_unit-split :
    (u v : ℕ) (s : Text)
    → (u == v) ≡ false
    → All (λ p. has_unit v p ≡ false) (split u s)
    → has_unit v s ≡ false
unfolding split
has_unit-split u v s other h = (has_unit-split_from u v [] s other h).1

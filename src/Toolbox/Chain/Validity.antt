-- ===== src/Toolbox/Chain/Validity.antt =====
-- When a chain passes the check.
use tlsentinel_server.Common.{
  ℕ, ◌≤◌, Bool, true, false, ◌&&◌, not, List, [], ◌∷◌, ◌++◌, Option, if◌then◌else◌, ◌≡◌, ◌↔◌, refl,
  ap, arith, All, Bool-cases, inl, inr,
}
use tlsentinel_server.Text.{Text, codes, text_eq_iff, is_empty}
use tlsentinel_server.Toolbox.Chain.{
  Certificate, is_expired, is_ca, time_errors, ca_errors, behind_first, is_incomplete, Built, built,
  not_built, leaf_of, chain_errors, checked, build_chain,
}

-- A certificate in its time.
abbrev pub IsCurrent : ℕ → Certificate → Type 0
IsCurrent now c = (c.not_before ≤ now) × (now ≤ c.not_after)

-- The last certificate, where there is one, was issued by itself.
abbrev pub EndsInRoot : List Certificate → Type 0
EndsInRoot [] = Unit
EndsInRoot (c ∷ []) = c.issuer ≡ c.subject
EndsInRoot (c ∷ d ∷ cs) = EndsInRoot (d ∷ cs)

time_errors_iff :
    (now : ℕ) (cs : List Certificate)
    → (is_empty (time_errors now cs) ≡ true) ↔ All (IsCurrent now) cs
unfolding time_errors
time_errors_iff now [] = ground arith
time_errors_iff now (c ∷ cs) = elim (Bool-cases (is_expired now c)) [
  | inl p ↦ rw p ((λ h. ground arith), (λ (k, _). ground arith))
  | inr p ↦ rw p (
    (λ h. ((ground arith, ground arith), (time_errors_iff now cs).0 h)),
    (λ (_, hs). (time_errors_iff now cs).1 hs),
  )
]

ca_errors_iff :
    (cs : List Certificate) → (is_empty (ca_errors cs) ≡ true) ↔ All (λ c. is_ca c ≡ true) cs
unfolding ca_errors
ca_errors_iff [] = ground arith
ca_errors_iff (c ∷ cs) = elim (Bool-cases (is_ca c)) [
  | inl p ↦ rw p ((λ h. (refl, (ca_errors_iff cs).0 h)), (λ (_, hs). (ca_errors_iff cs).1 hs))
  | inr p ↦ rw p ((λ h. ground arith), (λ (k, _). ground arith))
]

is_incomplete_iff : (cs : List Certificate) → (is_incomplete cs ≡ false) ↔ EndsInRoot cs
unfolding is_incomplete
is_incomplete_iff [] = ground arith
is_incomplete_iff (c ∷ []) = ground (arith, text_eq_iff c.issuer c.subject)
is_incomplete_iff (c ∷ d ∷ cs) = is_incomplete_iff (d ∷ cs)

is_empty-append : (s t : List Text) → is_empty (s ++ t) ≡ (is_empty s && is_empty t)
is_empty-append [] t = refl
is_empty-append (e ∷ s) t = refl

-- What the check demands of a chain.
abbrev pub IsSoundChain : ℕ → List Certificate → Type 0
IsSoundChain now chain =
    All (IsCurrent now) chain × All (λ c. is_ca c ≡ true) (behind_first chain) × EndsInRoot chain

root_error :
    (cs : List Certificate)
    → is_empty (
        if is_incomplete cs
        then codes "Chain is incomplete — root certificate not found." ∷ []
        else [])
      ≡ not (is_incomplete cs)
root_error cs = elim (Bool-cases (is_incomplete cs)) [ inl p ↦ rw p refl | inr p ↦ rw p refl ]

chain_errors_iff :
    (now : ℕ) (cs : List Certificate)
    → (is_empty (chain_errors now cs) ≡ true) ↔ IsSoundChain now cs
unfolding chain_errors
chain_errors_iff now cs =
    rw
      (
        is_empty-append (time_errors now cs),
        is_empty-append (ca_errors (behind_first cs)),
        root_error cs,
      )
      (
        (λ h. (
          (time_errors_iff now cs).0 (ground arith),
          (ca_errors_iff (behind_first cs)).0 (ground arith),
          (is_incomplete_iff cs).0 (ground arith),
        )),
        (λ (t, k, r).
            rw
              (
                (time_errors_iff now cs).1 t,
                (ca_errors_iff (behind_first cs)).1 k,
                (is_incomplete_iff cs).1 r,
              )
              refl),
      )

chain_in : Built → List Certificate
chain_in (built cs) = cs
chain_in (not_built message) = []

was_built : Built → Bool
was_built (built cs) = true
was_built (not_built message) = false

checked_iff :
    (now : ℕ) (certs : List Certificate) (o : Built)
    → ((checked now certs o).valid ≡ true)
      ↔ ((chain : List Certificate) × (o ≡ built chain) × IsSoundChain now chain)
unfolding checked chain_in was_built
checked_iff now certs (not_built message) =
    ((λ h. ground arith), (λ (chain, p, _). ground (arith, ap was_built p)))
checked_iff now certs (built cs) = (
  (λ h. (cs, refl, (chain_errors_iff now cs).0 h)),
  (λ (chain, p, sound). (chain_errors_iff now cs).1 (rw (ap chain_in p) sound)),
)

module _ (build : List Certificate → Option Certificate → Built) where
  -- A set of certificates is called a valid chain exactly when the builder makes a chain of it
  -- that has all its certificates in their time, all but the first marked as authorities, and a
  -- last one that was issued by itself.
  pub build_chain_iff :
      (now : ℕ) (certs : List Certificate)
      → ((build_chain build now certs).valid ≡ true) ↔ (
          (chain : List Certificate) × (build certs (leaf_of certs) ≡ built chain)
          × IsSoundChain now chain)
  unfolding build_chain
  build_chain_iff now certs = checked_iff now certs (build certs (leaf_of certs))

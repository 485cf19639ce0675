-- ===== src/Toolbox/Csr/Names.antt =====
-- Host names: the labels that they are made of, and names that may stand in both fields.
use tlsentinel_server.Common.{
  ℕ, suc, ◌≤◌, Bool, true, false, ◌&&◌, ◌||◌, List, [], ◌∷◌, ◌++◌, none, some, ◌==◌, ◌≡◌, ◌≢◌, ◌↔◌,
  ◌⊎◌, refl, ap, arith, All-append, All, Bool-cases, inl, inr, length,
}
use tlsentinel_server.Text.{Text, codes, is_empty, trim, split, has_unit, text_eq, text_eq_iff}
use tlsentinel_server.Text.Parts.{has_unit-split}
use tlsentinel_server.Toolbox.Csr.{
  is_alphanumeric, label_rest, hostname_label, labels_ok, is_valid_hostname, dns, ip, classify_san,
  validate_cn,
}

abbrev IsAlphanumeric : ℕ → Type 0
IsAlphanumeric c = is_alphanumeric c ≡ true

-- A unit of a label.
abbrev IsInner : ℕ → Type 0
IsInner c = (is_alphanumeric c || c == b'-') ≡ true

-- A letter or digit, or two with letters, digits and hyphens between them; at most 63 units.
abbrev pub IsLabel : Text → Type 0
IsLabel s =
    (length s ≤ 63)
    × (((c : ℕ) × (s ≡ c ∷ []) × IsAlphanumeric c)
        ⊎ ((c : ℕ) × (m : Text) × (d : ℕ) × (s ≡ c ∷ (m ++ d ∷ []))
            × IsAlphanumeric c
            × All IsInner m
            × IsAlphanumeric d))

abbrev pub IsWildcard : Bool → Text → Type 0
IsWildcard allow_wildcard s = (allow_wildcard ≡ true) × (s ≡ codes "*")

-- The labels of a name, of which the first may be the star where that is allowed.
abbrev pub AreLabels : Bool → List Text → Type 0
AreLabels allow_wildcard [] = Unit
AreLabels allow_wildcard (l ∷ ls) = (IsWildcard allow_wildcard l ⊎ IsLabel l) × All IsLabel ls

abbrev EndsWell : Bool → Text → Type 0
EndsWell ends s =
    ((s ≡ []) × (ends ≡ true))
    ⊎ ((m : Text) × (d : ℕ) × (s ≡ m ++ d ∷ []) × All IsInner m × IsAlphanumeric d)

label_rest-EndsWell : (ends : Bool) (s : Text) → label_rest ends s ≡ true → EndsWell ends s
unfolding label_rest
label_rest-EndsWell ends [] h = inl (refl, h)
label_rest-EndsWell ends (c ∷ s) h =
    let inner : IsInner c = ground arith in
    let rest : label_rest (is_alphanumeric c) s ≡ true = ground arith in
    elim (label_rest-EndsWell (is_alphanumeric c) s rest) [
      | inl (p, k) ↦ inr ([], c, ap (◌∷◌ c) p, tt, k)
      | inr (m, d, p, hs, k) ↦ inr (c ∷ m, d, ap (◌∷◌ c) p, (inner, hs), k)
    ]

label_rest-inner :
    (m : Text) (ends : Bool) (d : ℕ)
    → All IsInner m
    → IsAlphanumeric d
    → label_rest ends (m ++ d ∷ []) ≡ true
unfolding label_rest
label_rest-inner [] ends d h k = rw k refl
label_rest-inner (c ∷ m) ends d (h, hs) k = rw h (label_rest-inner m (is_alphanumeric c) d hs k)

hostname_label-IsLabel : (s : Text) → length s ≤ 63 → hostname_label s ≡ true → IsLabel s
unfolding hostname_label
hostname_label-IsLabel [] b h = ground arith
hostname_label-IsLabel (c ∷ s) b h =
    let first : IsAlphanumeric c = ground arith in
    let rest : label_rest true s ≡ true = ground arith in
    elim (label_rest-EndsWell true s rest) [
      | inl (p, k) ↦ (b, inl (c, ap (◌∷◌ c) p, first))
      | inr (m, d, p, hs, k) ↦ (b, inr (c, m, d, ap (◌∷◌ c) p, first, hs, k))
    ]

IsLabel-hostname_label : (s : Text) → IsLabel s → hostname_label s ≡ true
unfolding hostname_label label_rest
IsLabel-hostname_label s (b, inl (c, p, h)) = rw p (rw h refl)
IsLabel-hostname_label s (b, inr (c, m, d, p, h, hs, k)) =
    rw p (rw h (label_rest-inner m true d hs k))

IsLabel-not_empty : (s : Text) → IsLabel s → is_empty s ≡ false
IsLabel-not_empty [] (b, inl (c, p, h)) = ground arith
IsLabel-not_empty [] (b, inr (c, m, d, p, h, hs, k)) = ground arith
IsLabel-not_empty (c ∷ s) h = refl

-- The labels behind the first, and all where there may be no star.
labels_ok-All : (w : Bool) (ls : List Text) → labels_ok w false ls ≡ true → All IsLabel ls
unfolding labels_ok
labels_ok-All w [] h = tt
labels_ok-All w (l ∷ ls) h =
    let b : length l ≤ 63 = ground arith in
    let k : hostname_label l ≡ true = ground arith in
    let rest : labels_ok w false ls ≡ true = ground arith in
    (hostname_label-IsLabel l b k, labels_ok-All w ls rest)

All-labels_ok : (w : Bool) (ls : List Text) → All IsLabel ls → labels_ok w false ls ≡ true
unfolding labels_ok
All-labels_ok w [] h = refl
All-labels_ok w (l ∷ ls) ((b, h), hs) =
    ground
      (arith, IsLabel-not_empty l (b, h), IsLabel-hostname_label l (b, h), All-labels_ok w ls hs)

labels_ok-AreLabels : (w : Bool) (ls : List Text) → labels_ok w true ls ≡ true → AreLabels w ls
unfolding labels_ok
labels_ok-AreLabels w [] h = tt
labels_ok-AreLabels w (l ∷ ls) h = elim (Bool-cases (w && text_eq l (codes "*"))) [
  | inl p ↦
      let star : (w ≡ true) × (text_eq l (codes "*") ≡ true) = ground arith in
      let rest : labels_ok w false ls ≡ true = ground arith in
      (inl (star.0, (text_eq_iff l (codes "*")).0 star.1), labels_ok-All w ls rest)
  | inr p ↦
      let b : length l ≤ 63 = ground arith in
      let k : hostname_label l ≡ true = ground arith in
      let rest : labels_ok w false ls ≡ true = ground arith in
      (inr (hostname_label-IsLabel l b k), labels_ok-All w ls rest)
]

AreLabels-labels_ok : (w : Bool) (ls : List Text) → AreLabels w ls → labels_ok w true ls ≡ true
unfolding labels_ok text_eq
AreLabels-labels_ok w [] h = refl
AreLabels-labels_ok w (l ∷ ls) (inl (p, q), hs) = rw (p, q) (All-labels_ok w ls hs)
AreLabels-labels_ok w (l ∷ ls) (inr (b, h), hs) =
    ground
      (arith, IsLabel-not_empty l (b, h), IsLabel-hostname_label l (b, h), All-labels_ok w ls hs)

-- A name is accepted exactly when it is not empty, has 253 units at most, and each part between
-- its dots is a label; where a wildcard is allowed, the first part may be a star.
pub is_valid_hostname_iff :
    (s : Text) (allow_wildcard : Bool)
    → (is_valid_hostname s allow_wildcard ≡ true)
      ↔ ((s ≢ []) × (length s ≤ 253) × AreLabels allow_wildcard (split b'.' s))
unfolding is_valid_hostname
is_valid_hostname_iff [] w = (λ h. ground arith, λ k. absurd (k.0 refl))
is_valid_hostname_iff (c ∷ s) w =
    let labels = split b'.' (c ∷ s) in
    (
      λ h.
          let b : suc (length s) ≤ 253 = ground arith in
          let k : labels_ok w true labels ≡ true = ground arith in
          ((λ e. ground arith), b, labels_ok-AreLabels w labels k),
      λ (_, b, k). ground (arith, AreLabels-labels_ok w labels k),
    )

-- Text without an at sign.
abbrev NoAt : Text → Type 0
NoAt s = has_unit b'@' s ≡ false

All-inner_NoAt : (s : Text) → All IsInner s → NoAt s
unfolding is_alphanumeric has_unit
All-inner_NoAt [] h = refl
All-inner_NoAt (c ∷ s) (h, hs) = ground (arith, All-inner_NoAt s hs)

alphanumeric-IsInner : (c : ℕ) → IsAlphanumeric c → IsInner c
alphanumeric-IsInner c h = rw h refl

IsLabel-NoAt : (s : Text) → IsLabel s → NoAt s
IsLabel-NoAt s (_, inl (c, p, h)) = rw p (All-inner_NoAt (c ∷ []) (alphanumeric-IsInner c h, tt))
IsLabel-NoAt s (_, inr (c, m, d, p, h, hs, k)) = rw p (
    All-inner_NoAt (c ∷ (m ++ d ∷ []))
      (alphanumeric-IsInner c h, All-append IsInner m (d ∷ []) hs (alphanumeric-IsInner d k, tt)))

All-NoAt : (ls : List Text) → All IsLabel ls → All NoAt ls
All-NoAt [] h = tt
All-NoAt (l ∷ ls) (h, hs) = (IsLabel-NoAt l h, All-NoAt ls hs)

AreLabels-NoAt : (w : Bool) (ls : List Text) → AreLabels w ls → All NoAt ls
unfolding has_unit
AreLabels-NoAt w [] h = tt
AreLabels-NoAt w (l ∷ ls) (inl (_, p), hs) = (rw p refl, All-NoAt ls hs)
AreLabels-NoAt w (l ∷ ls) (inr h, hs) = (IsLabel-NoAt l h, All-NoAt ls hs)

is_valid_hostname-NoAt : (s : Text) (w : Bool) → is_valid_hostname s w ≡ true → NoAt s
is_valid_hostname-NoAt s w h =
    has_unit-split b'.' b'@' s refl (AreLabels-NoAt w _ ((is_valid_hostname_iff s w).0 h).2)

-- A common name that is not blank shows no error exactly when it would be an alternative name of
-- the type dns or ip.
pub validate_cn-eq-none_iff :
    (value : Text)
    → is_empty (trim value) ≡ false
    → (validate_cn value ≡ none)
      ↔ ((classify_san value ≡ some ip) ⊎ (classify_san value ≡ some dns))
unfolding validate_cn classify_san
validate_cn-eq-none_iff value h = (
  λ k. ground (arith, is_valid_hostname-NoAt (trim value) true),
  λ k. ground (arith, is_valid_hostname-NoAt (trim value) true),
)

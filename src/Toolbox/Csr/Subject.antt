-- ===== src/Toolbox/Csr/Subject.antt =====
-- What of the form comes into the request.
use tlsentinel_server.Common.{
  true, false, not, List, [], ◌∷◌, ◌++◌, append_assoc, map, some, ◌≡◌, refl, sym, ap, ◌∙◌, arith,
  keep, all, is_some, All, Bool-cases, Option-cases, inl, inr,
}
use tlsentinel_server.Text.{Text, codes, is_empty, trim, join}
use tlsentinel_server.Toolbox.Csr.{classify_san}
use tlsentinel_server.Toolbox.Csr.Request.{
  SubjectFields, part, subject_parts, subject_name, SanEntry, classified, san_entries, san_error,
  can_generate,
}

-- The type of an entry is the one of its value.
abbrev pub IsClassified : SanEntry → Type 0
IsClassified e = classify_san e.value ≡ some e.type

abbrev not_blank : List Text → List Text
not_blank sans = keep (λ v. not (is_empty v)) (map trim sans)

classified-All : (vs : List Text) → All IsClassified (classified vs)
unfolding classified
classified-All [] = tt
classified-All (v ∷ vs) = elim (Option-cases (classify_san v)) [
  | inl p ↦ rw p (classified-All vs)
  | inr (t, p) ↦ rw p (p, classified-All vs)
]

classified-keeps :
    (vs : List Text)
    → all (λ v. is_some (classify_san v)) vs ≡ true
    → map (λ e. e.value) (classified vs) ≡ vs
unfolding classified
classified-keeps [] h = refl
classified-keeps (v ∷ vs) h = elim (Option-cases (classify_san v)) [
  | inl p ↦ ground arith
  | inr (t, p) ↦ rw p (ap (◌∷◌ v) (classified-keeps vs (rw p at h)))
]

-- No error of the form is left: every value that is not blank has a type.
errors-classified :
    (sans : List Text)
    → all (λ e. not (is_some e)) (map san_error sans) ≡ true
    → all (λ v. is_some (classify_san v)) (not_blank sans) ≡ true
unfolding san_error
errors-classified [] h = refl
errors-classified (s ∷ sans) h = elim (Bool-cases (is_empty (trim s))) [
  | inl p ↦ rw p (errors-classified sans (rw p at h))
  | inr p ↦ elim (Bool-cases (is_some (classify_san (trim s)))) [
    | inl q ↦ rw (p, q) (errors-classified sans (rw (p, q) at h))
    | inr q ↦ ground arith
  ]
]

-- When the form can be sent, the request names each alternative that is not blank, in order and
-- without the white space at its ends, with the type that the checks give it.
pub can_generate-san_entries :
    (cn : Text) (sans : List Text)
    → can_generate cn sans ≡ true
    → (map (λ e. e.value) (san_entries sans) ≡ keep (λ v. not (is_empty v)) (map trim sans))
      × All (λ e. classify_san e.value ≡ some e.type) (san_entries sans)
unfolding can_generate san_entries
can_generate-san_entries cn sans h = (
  classified-keeps (not_blank sans) (errors-classified sans (ground arith)),
  classified-All (not_blank sans),
)

not_empty-append : (s t : Text) → is_empty s ≡ false → is_empty (s ++ t) ≡ false
not_empty-append [] t h = ground arith
not_empty-append (c ∷ s) t h = refl

part-of_text : (key v : Text) → is_empty v ≡ false → part key v ≡ (key ++ b'=' ∷ v) ∷ []
part-of_text key v h = rw h refl

-- Two parts joined by hand.
join-merge :
    (sep p q : Text) (before after : List Text)
    → join sep (before ++ (p ++ (sep ++ q)) ∷ after) ≡ join sep (before ++ p ∷ q ∷ after)
unfolding join
join-merge sep p q [] [] = refl
join-merge sep p q [] (r ∷ after) = append_assoc p (sep ++ q) _ ∙ ap (◌++◌ p) (append_assoc sep q _)
join-merge sep p q (a ∷ []) after = ap (λ t. a ++ (sep ++ t)) (join-merge sep p q [] after)
join-merge sep p q (a ∷ b ∷ before) after =
    ap (λ t. a ++ (sep ++ t)) (join-merge sep p q (b ∷ before) after)

-- A separator in the organization is not escaped: what is behind it is read as another part of
-- the name, here the organizational unit that the form has left empty.
pub subject_name-unescaped :
    (f : SubjectFields) (org unit : Text)
    → is_empty org ≡ false
    → is_empty unit ≡ false
    → subject_name (record f { o = org ++ (codes ", OU=" ++ unit); ou = [] })
      ≡ subject_name (record f { o = org; ou = unit })
unfolding subject_name subject_parts
subject_name-unescaped f org unit h k =
    let before = part (codes "CN") f.cn in
    let after =
      part (codes "L") f.l
      ++ (part (codes "ST") f.st ++ (part (codes "C") f.c ++ part (codes "E") f.email)) in
    let named = λ (ps : List Text). join (codes ", ") (before ++ ps) in
    ap (λ ps. named (ps ++ after))
      (part-of_text (codes "O") _ (not_empty-append org (codes ", OU=" ++ unit) h))
    ∙ join-merge (codes ", ") (codes "O=" ++ org) (codes "OU=" ++ unit) before after
    ∙ sym (
        ap (λ ps. named (ps ++ (part (codes "OU") unit ++ after))) (part-of_text (codes "O") org h)
        ∙ ap (λ ps. named ((codes "O=" ++ org) ∷ (ps ++ after))) (part-of_text (codes "OU") unit k))

-- ===== src/BulkImport/Line.antt =====
-- Lines of a CSV file: their fields, plain or quoted, as a spreadsheet writes them and `parseLine`
-- of BulkImportDialog.tsx reads them.
use tlsentinel_server.Common.{
  ℕ, Bool, true, false, ◌&&◌, not, List, [], ◌∷◌, ◌++◌, append_assoc, append-nil, map, ◌≡◌, refl,
  sym, ap, ◌∙◌, arith, ◌==◌, ==_iff, if◌then◌else◌, All, Bool-cases, inl, inr,
}
use tlsentinel_server.Text.{Text, trim, join, Lacks}
use tlsentinel_server.BulkImport.{quote, comma, fields_from, parse_line}

-- A field as a spreadsheet writes it: plain, or in quotes with its quotes doubled.
pub data Field : Type 0 where
  plain quoted : Text → Field

abbrev pub text_of : Field → Text
text_of (plain t) = t
text_of (quoted t) = t

abbrev pub doubled : Text → Text
doubled [] = []
doubled (c ∷ s) = if c == quote then quote ∷ quote ∷ doubled s else c ∷ doubled s

abbrev pub print_field : Field → Text
print_field (plain t) = t
print_field (quoted t) = quote ∷ (doubled t ++ quote ∷ [])

-- Plain text holds no quote and no comma; quoted text may hold anything.
abbrev pub IsField : Field → Type 0
IsField (plain t) = Lacks quote t × Lacks comma t
IsField (quoted t) = Unit

-- What may follow a field: nothing, or a comma.
data IsEnd : Text → Type 0 where
  at_end : IsEnd []
  at_comma : (s : Text) → IsEnd (comma ∷ s)

-- A unit that is no quote, and no comma that ends the field, is kept.
fields_from-unit :
    (in_quotes : Bool) (cur : Text) (c : ℕ) (s : Text)
    → (c == quote) ≡ false
    → (c == comma && not in_quotes) ≡ false
    → fields_from in_quotes cur (c ∷ s) ≡ fields_from in_quotes (cur ++ c ∷ []) s
unfolding fields_from
fields_from-unit in_quotes cur c [] h k = rw (h, fields_from, k, fields_from)
fields_from-unit in_quotes cur c (d ∷ s) h k = rw (h, fields_from, k, fields_from)

fields_from-comma :
    (cur s : Text) → fields_from false cur (comma ∷ s) ≡ trim cur ∷ fields_from false [] s
unfolding fields_from
fields_from-comma cur [] = refl
fields_from-comma cur (d ∷ s) = refl

fields_from-quote : (s : Text) → fields_from false [] (quote ∷ s) ≡ fields_from true [] s
unfolding fields_from
fields_from-quote [] = refl
fields_from-quote (d ∷ s) = refl

fields_from-close :
    (cur s : Text) → IsEnd s → fields_from true cur (quote ∷ s) ≡ fields_from false cur s
unfolding fields_from
fields_from-close cur [] at_end = refl
fields_from-close cur _ (at_comma s) = refl

fields_from-plain :
    (cur t s : Text)
    → Lacks quote t
    → Lacks comma t
    → fields_from false cur (t ++ s) ≡ fields_from false (cur ++ t) s
fields_from-plain cur [] s h k = ap (λ r. fields_from false r s) (sym (append-nil cur))
fields_from-plain cur (c ∷ t) s (p, h) (q, k) =
    fields_from-unit false cur c (t ++ s) p (rw q refl)
    ∙ fields_from-plain (cur ++ c ∷ []) t s h k
    ∙ ap (λ r. fields_from false r s) (append_assoc cur (c ∷ []) t)

fields_from-doubled :
    (cur t s : Text)
    → IsEnd s
    → fields_from true cur (doubled t ++ quote ∷ s) ≡ fields_from false (cur ++ t) s
unfolding fields_from
fields_from-doubled cur [] s e =
    fields_from-close cur s e ∙ ap (λ r. fields_from false r s) (sym (append-nil cur))
fields_from-doubled cur (c ∷ t) s e = elim (Bool-cases (c == quote)) [
  | inl h ↦ rw h (
      fields_from-doubled (cur ++ quote ∷ []) t s e
      ∙ ap (λ r. fields_from false r s)
          (append_assoc cur (quote ∷ []) t ∙ ap (λ d. cur ++ d ∷ t) (sym ((==_iff c quote).0 h))))
  | inr h ↦ rw h (
      fields_from-unit true cur c (doubled t ++ quote ∷ s) h (ground arith)
      ∙ fields_from-doubled (cur ++ c ∷ []) t s e
      ∙ ap (λ r. fields_from false r s) (append_assoc cur (c ∷ []) t))
]

-- One field, up to what ends it.
fields_from-field :
    (f : Field) (s : Text)
    → IsField f
    → IsEnd s
    → fields_from false [] (print_field f ++ s) ≡ fields_from false (text_of f) s
fields_from-field (plain t) s (h, k) e = fields_from-plain [] t s h k
fields_from-field (quoted t) s h e =
    fields_from-quote ((doubled t ++ quote ∷ []) ++ s)
    ∙ ap (fields_from true []) (append_assoc (doubled t) (quote ∷ []) s)
    ∙ fields_from-doubled [] t s e

fields_from-join :
    (f : Field) (fs : List Field)
    → All IsField (f ∷ fs)
    → fields_from false [] (join (comma ∷ []) (map print_field (f ∷ fs)))
      ≡ map (λ g. trim (text_of g)) (f ∷ fs)
unfolding fields_from join
fields_from-join f [] (h, _) =
    ap (fields_from false []) (sym (append-nil (print_field f))) ∙ fields_from-field f [] h at_end
fields_from-join f (g ∷ fs) (h, hs) =
    fields_from-field f _ h (at_comma _)
    ∙ fields_from-comma (text_of f) (join (comma ∷ []) (map print_field (g ∷ fs)))
    ∙ ap (◌∷◌ (trim (text_of f))) (fields_from-join g fs hs)

-- A line of one field or more, each printed plain or in quotes with its quotes doubled, is read
-- as the text of its fields without the white space at their ends, whatever a quoted field holds.
pub parse_line-join :
    (f : Field) (fs : List Field)
    → All IsField (f ∷ fs)
    → parse_line (join (comma ∷ []) (map print_field (f ∷ fs)))
      ≡ map (λ g. trim (text_of g)) (f ∷ fs)
unfolding parse_line
parse_line-join f fs hs = fields_from-join f fs hs

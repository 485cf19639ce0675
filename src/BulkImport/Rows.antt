-- ===== src/BulkImport/Rows.antt =====
-- The rows that a file is read to: their numbers, and which of them may be imported.
use mathlib.Core.Option.{map as map_option}
use tlsentinel_server.Common.{
  ℕ, suc, zero, ◌+◌, false, List, [], ◌∷◌, Option, none, some, ◌≡◌, ◌≢◌, ◌↔◌, ◌⊎◌, inl, inr, refl,
  ap, ◌∙◌, arith, get_elem?,
}
use tlsentinel_server.Text.{Text, text_eq, text_eq_iff, is_empty}
use tlsentinel_server.Types.Requests.{BulkImportRow}
use tlsentinel_server.BulkImport.{
  host, saml, manual, known_type, validate, parsed_row, rows_from, rows_of_lines, missing,
  csv_lines, parse_csv, headers_of,
}

-- A field that is there and is not blank.
abbrev pub IsGiven : Option Text → Type 0
IsGiven none = ⊥
IsGiven (some []) = ⊥
IsGiven (some (c ∷ s)) = Unit

-- What the server needs of an endpoint, by its type.
abbrev pub IsImportable : BulkImportRow → Type 0
IsImportable r =
    (r.name ≢ [])
    × (((r.type ≡ host) × IsGiven r.dns_name)
        ⊎ ((r.type ≡ saml) × IsGiven r.url)
        ⊎ (r.type ≡ manual))

missing_iff : (o : Option Text) → (missing o ≡ false) ↔ IsGiven o
missing_iff none = ground arith
missing_iff (some []) = ground arith
missing_iff (some (c ∷ s)) = ground arith

is_empty_iff : (s : Text) → (is_empty s ≡ false) ↔ (s ≢ [])
is_empty_iff [] = (λ h. ground arith, λ h. absurd (h refl))
is_empty_iff (c ∷ s) = (λ h. ground arith, λ h. refl)

validate-none : (r : BulkImportRow) → IsImportable r → validate r ≡ none
unfolding validate known_type text_eq
validate-none r (h, inl (p, q)) = rw ((is_empty_iff r.name).1 h, p, (missing_iff r.dns_name).1 q)
validate-none r (h, inr (inl (p, q))) = rw ((is_empty_iff r.name).1 h, p, (missing_iff r.url).1 q)
validate-none r (h, inr (inr p)) = rw ((is_empty_iff r.name).1 h, p)

IsImportable-of_none : (r : BulkImportRow) → validate r ≡ none → IsImportable r
unfolding validate known_type
IsImportable-of_none r h = ground (
  arith,
  is_empty_iff r.name,
  missing_iff r.dns_name,
  missing_iff r.url,
  text_eq_iff r.type host,
  text_eq_iff r.type saml,
  text_eq_iff host r.type,
  text_eq_iff saml r.type,
  text_eq_iff manual r.type,
)

-- A row has no validation error exactly when it has a name and is a host with a DNS name, a SAML
-- endpoint with a URL, or manual.
pub validate-eq-none_iff : (r : BulkImportRow) → (validate r ≡ none) ↔ IsImportable r
validate-eq-none_iff r = (IsImportable-of_none r, validate-none r)

module _ (to_lower_case : Text → Text) where
  get_elem?-rows_from :
      (headers : List Text) (n i : ℕ) (lines : List Text)
      → get_elem? (rows_from to_lower_case headers n lines) i
        ≡ map_option (parsed_row to_lower_case headers (n + i)) (get_elem? lines i)
  unfolding rows_from
  get_elem?-rows_from headers n i [] = refl
  get_elem?-rows_from headers n zero (line ∷ lines) =
      ap (λ m. some (parsed_row to_lower_case headers m line)) (omega arith)
  get_elem?-rows_from headers n (suc i) (line ∷ lines) =
      get_elem?-rows_from headers (n + 1) i lines
      ∙ ap (λ m. map_option (parsed_row to_lower_case headers m) (get_elem? lines i)) (omega arith)

  -- Each line that is not blank, behind the first, is a row, in the order of the file and numbered
  -- from 2 on; it has the values of the line under the names of the first line, lowered and
  -- underscored, and there is no other row.
  pub get_elem?-parse_csv :
      (text header : Text) (lines : List Text) (i : ℕ)
      → csv_lines text ≡ header ∷ lines
      → get_elem? (parse_csv to_lower_case text) i
        ≡ map_option
            (parsed_row to_lower_case (headers_of to_lower_case header) (2 + i))
            (get_elem? lines i)
  unfolding parse_csv rows_of_lines
  get_elem?-parse_csv text header lines i h =
      rw h (get_elem?-rows_from (headers_of to_lower_case header) 2 i lines)

-- ===== src/BulkImport.antt =====
-- web/src/components/BulkImportDialog.tsx: reading a CSV file of endpoints. `toLowerCase` is a
-- parameter, since it rests on the tables of Unicode.
mod Tests
pub mod Line
pub mod Rows
pub mod Dialog
pub mod Imports
use tlsentinel_server.Common.{
  ℕ, ◌+◌, Bool, true, false, ◌&&◌, ◌||◌, not, List, [], ◌∷◌, ◌++◌, map, Option, none, some, leb,
  ltb, ◌==◌, if◌then◌else◌, or_else, keep, any, length, suc,
}
use tlsentinel_server.Text.{Text, codes, is_empty, text_eq, trim, is_space}
use tlsentinel_server.Text.Numbers.{ℤ, pos, negsuc, parse_int_radix}
use tlsentinel_server.Types.Requests.{BulkImportRow}

abbrev pub quote : ℕ
quote = b'"'

abbrev pub comma : ℕ
comma = b','

-- The loop of `parseLine`, which sees the unit and the one behind it.
pub fields_from : Bool → Text → Text → List Text
fields_from in_quotes cur [] = trim cur ∷ []
fields_from in_quotes cur (c ∷ []) = elim (c == quote) [
  | true ↦ fields_from (not in_quotes) cur []
  | false ↦ elim (c == comma && not in_quotes) [
    | true ↦ trim cur ∷ fields_from in_quotes [] []
    | false ↦ fields_from in_quotes (cur ++ c ∷ []) []
  ]
]
fields_from in_quotes cur (c ∷ d ∷ s) = elim (c == quote) [
  | true ↦ elim (in_quotes && d == quote) [
    | true ↦ fields_from in_quotes (cur ++ quote ∷ []) s
    | false ↦ fields_from (not in_quotes) cur (d ∷ s)
  ]
  | false ↦ elim (c == comma && not in_quotes) [
    | true ↦ trim cur ∷ fields_from in_quotes [] (d ∷ s)
    | false ↦ fields_from in_quotes (cur ++ c ∷ []) (d ∷ s)
  ]
]

unfoldable pub parse_line : Text → List Text
unfolding fields_from trim
parse_line line = fields_from false [] line

-- `text.replace(/^\uFEFF/, '')`.
strip_bom : Text → Text
strip_bom [] = []
strip_bom (c ∷ s) = if c == 0xfeff then s else c ∷ s

-- `clean.split(/\r?\n/)`.
lines_from : Text → Text → List Text
lines_from cur [] = cur ∷ []
lines_from cur (c ∷ []) = elim (c == 10) [
  | true ↦ cur ∷ lines_from [] []
  | false ↦ lines_from (cur ++ c ∷ []) []
]
lines_from cur (c ∷ d ∷ s) = elim (c == 10) [
  | true ↦ cur ∷ lines_from [] (d ∷ s)
  | false ↦ elim (c == 13 && d == 10) [
    | true ↦ cur ∷ lines_from [] s
    | false ↦ lines_from (cur ++ c ∷ []) (d ∷ s)
  ]
]

unfoldable pub csv_lines : Text → List Text
unfolding strip_bom lines_from trim
csv_lines text = keep (λ l. not (is_empty (trim l))) (lines_from [] (strip_bom text))

-- `h.replace(/\s+/g, '_')`; the first argument says that the last unit read was white space.
underscored : Bool → Text → Text
underscored gap [] = []
underscored gap (c ∷ s) = elim (is_space c) [
  | true ↦ (if gap then [] else b'_' ∷ []) ++ underscored true s
  | false ↦ c ∷ underscored false s
]

-- `headers.forEach((h, j) => { raw[h] = values[j] ?? '' })`, as the assignments in order.
assignments : List Text → List Text → List (Text × Text)
assignments [] values = []
assignments (h ∷ hs) [] = (h, []) ∷ assignments hs []
assignments (h ∷ hs) (v ∷ vs) = (h, v) ∷ assignments hs vs

-- `raw[k]`: what was assigned last.
pub raw_get : Text → List (Text × Text) → Option Text
raw_get k [] = none
raw_get k ((h, v) ∷ raw) = elim (raw_get k raw) [
  | some w ↦ some w
  | none ↦ if text_eq h k then some v else none
]

-- `v || undefined`.
abbrev non_empty : Option Text → Option Text
non_empty none = none
non_empty (some []) = none
non_empty (some (c ∷ s)) = some (c ∷ s)

abbrev non_zero : ℤ → Option ℤ
non_zero (pos n) = if n == 0 then none else some (pos n)
non_zero (negsuc n) = some (negsuc n)

-- `raw['port'] ? parseInt(raw['port'], 10) : 0`, and 0 for NaN.
abbrev port_of : Option Text → ℤ
port_of none = pos 0
port_of (some []) = pos 0
port_of (some (c ∷ s)) = or_else (parse_int_radix 10 (c ∷ s)) (pos 0)

abbrev pub host : Text
host = codes "host"

abbrev pub saml : Text
saml = codes "saml"

abbrev pub manual : Text
manual = codes "manual"

pub known_type : Text → Bool
known_type type = text_eq host type || text_eq saml type || text_eq manual type

pub record ParsedRow : Type 0 where
  pub row_num : ℕ
  pub raw : List (Text × Text)
  pub row : BulkImportRow
  pub validation_error : Option Text

abbrev missing : Option Text → Bool
missing none = true
missing (some s) = is_empty s

unfoldable pub validate : BulkImportRow → Option Text
unfolding known_type
validate r =
    if is_empty r.name
    then some (codes "name is required")
    else if not (known_type r.type)
    then some (codes "unknown type \"" ++ (r.type ++ codes "\""))
    else if text_eq r.type host && missing r.dns_name
    then some (codes "dns_name is required for host")
    else if text_eq r.type saml && missing r.url
    then some (codes "url is required for saml")
    else none

module _ (to_lower_case : Text → Text) where
  pub row_of : List (Text × Text) → BulkImportRow
  row_of raw = record {
    name = or_else (raw_get (codes "name") raw) [];
    type = to_lower_case (or_else (non_empty (raw_get (codes "type") raw)) host);
    dns_name = non_empty (raw_get (codes "dns_name") raw);
    port = non_zero (port_of (raw_get (codes "port") raw));
    ip_address = non_empty (raw_get (codes "ip_address") raw);
    url = non_empty (raw_get (codes "url") raw);
    scanner_id = none;
    notes = non_empty (raw_get (codes "notes") raw);
  }

  pub parsed_row : List Text → ℕ → Text → ParsedRow
  parsed_row headers row_num line =
      let raw = assignments headers (parse_line line) in
      record {
        row_num = row_num;
        raw = raw;
        row = row_of raw;
        validation_error = validate (row_of raw);
      }

  pub rows_from : List Text → ℕ → List Text → List ParsedRow
  rows_from headers n [] = []
  rows_from headers n (line ∷ lines) = parsed_row headers n line ∷ rows_from headers (n + 1) lines

  pub headers_of : Text → List Text
  headers_of line = map (λ h. underscored false (to_lower_case h)) (parse_line line)

  pub rows_of_lines : List Text → List ParsedRow
  rows_of_lines [] = []
  rows_of_lines (header ∷ lines) = rows_from (headers_of header) 2 lines

  -- With fewer than two lines there is no row, which the empty list of lines behind the header is.
  unfoldable pub parse_csv : Text → List ParsedRow
  unfolding rows_of_lines rows_from parsed_row row_of headers_of assignments raw_get underscored
  parse_csv text = rows_of_lines (csv_lines text)

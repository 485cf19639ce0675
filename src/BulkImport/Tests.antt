-- ===== src/BulkImport/Tests.antt =====
-- A file of two rows and a line of three fields, on which the theorems are used.
use tlsentinel_server.Common.{
  ◌+◌, false, ◌&&◌, [], ◌∷◌, map, none, some, ◌≡◌, refl, leb, if◌then◌else◌, All,
}
use tlsentinel_server.Text.{Text, codes, is_empty, join, trim, trim_start, is_space, text_eq}
use tlsentinel_server.Text.Numbers.{pos, parse_int_radix}
use tlsentinel_server.Types.Requests.{BulkImportResponse, BulkImportRow}
use tlsentinel_server.BulkImport.{
  fields_from, rows_of_lines, rows_from, row_of, raw_get, known_type, strip_bom, lines_from,
  underscored, assignments, host, parse_line, parse_csv, validate, csv_lines, headers_of,
  parsed_row,
}
use tlsentinel_server.BulkImport.Line.{plain, quoted, parse_line-join}
use tlsentinel_server.BulkImport.Dialog.{
  initial, import_end, answered, run, close, file_read, import, on_close, on_complete,
  import_endpoints,
}
use tlsentinel_server.BulkImport.Imports.{run-IsSound, run-imports, IsSound}

-- `toLowerCase` on ASCII.
abbrev lower : Text → Text
lower = map (λ c. if leb 65 c && leb c 90 then c + 32 else c)

abbrev api_row : BulkImportRow
api_row = record {
  name = codes "API";
  type = host;
  dns_name = some (codes "a.org");
  port = some (pos 8443);
  ip_address = none;
  url = none;
  scanner_id = none;
  notes = none;
}

abbrev file : Text
file = codes "Name,DNS name,Port\n\nAPI,a.org,8443\n"

abbrev response : BulkImportResponse
response = record { created = pos 1; failed = pos 0; results = [] }

parse_line-join_example :
    parse_line (codes "a b,\"x,\"\"y\"\" \",") ≡ codes "a b" ∷ codes "x,\"y\"" ∷ [] ∷ []
unfolding parse_line join
parse_line-join_example =
    parse_line-join (plain (codes "a b")) (quoted (codes "x,\"y\" ") ∷ plain [] ∷ [])
      (((refl, (refl, (refl, tt))), (refl, (refl, (refl, tt)))), (tt, ((tt, tt), tt)))

file_lines : csv_lines file ≡ codes "Name,DNS name,Port" ∷ codes "API,a.org,8443" ∷ []
unfolding csv_lines strip_bom lines_from trim trim_start is_space
file_lines = refl

-- The row that the file is read to.
file_rows : map (λ r. r.row) (parse_csv lower file) ≡ api_row ∷ []
unfolding parse_csv csv_lines strip_bom lines_from trim trim_start is_space rows_of_lines rows_from
    parsed_row row_of headers_of assignments raw_get underscored text_eq parse_line fields_from
    parse_int_radix
file_rows = refl

file_is_valid : All (λ r. r.validation_error ≡ none) (parse_csv lower file)
unfolding parse_csv csv_lines strip_bom lines_from trim trim_start is_space rows_of_lines rows_from
    parsed_row row_of headers_of assignments raw_get underscored text_eq parse_line fields_from
    parse_int_radix validate known_type
file_is_valid = (refl, tt)

file_has_rows : is_empty (parse_csv lower file) ≡ false
unfolding parse_csv csv_lines strip_bom lines_from trim trim_start is_space rows_of_lines rows_from
file_has_rows = refl

run-IsSound_example :
    All IsSound
      (run lower (file_read file ∷ import ∷ import_end (answered response) ∷ close ∷ []) initial).1
run-IsSound_example =
    run-IsSound lower (file_read file ∷ import ∷ import_end (answered response) ∷ close ∷ [])

run-imports_example :
    run lower (file_read file ∷ import ∷ import_end (answered response) ∷ close ∷ []) initial ≡ (
      initial,
      import_endpoints (record { rows = map (λ r. r.row) (parse_csv lower file) })
          ∷ on_close
          ∷ on_complete
          ∷ [],
    )
run-imports_example = run-imports lower file response file_has_rows file_is_valid

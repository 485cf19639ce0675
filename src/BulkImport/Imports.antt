-- ===== src/BulkImport/Imports.antt =====
-- What the dialog sends to the server and tells the page.
use tlsentinel_server.Common.{
  ℕ, ◌+◌, false, ◌&&◌, List, [], ◌∷◌, map, none, some, keep, is_some, ◌≡◌, ◌≢◌, refl, sym, ◌∙◌, All,
  All-append, append-nil, arith, if◌then◌else◌, Bool-cases, inl, inr, Option-cases,
}
use tlsentinel_server.Text.{Text, is_empty}
use tlsentinel_server.Types.Requests.{BulkImportResponse}
use tlsentinel_server.BulkImport.{
  ParsedRow, parsed_row, rows_from, rows_of_lines, csv_lines, parse_csv, validate,
}
use tlsentinel_server.BulkImport.Rows.{IsImportable, validate-eq-none_iff}
use tlsentinel_server.BulkImport.Dialog.{
  DialogState, Effect, on_close, on_complete, import_endpoints, Event, close, back, file_error,
  import, choose_file, file_read, import_end, answered, refused, broken, initial, valid_rows, step,
  run, handle_import, import_enabled, handle_close, results, reset, reader_loaded, reader_failed,
  handle_file_change, import_settled, is_results, is_positive,
}

-- The error shown with a row is the one of its data.
abbrev IsChecked : ParsedRow → Type 0
IsChecked r = r.validation_error ≡ validate r.row

abbrev AreChecked : DialogState → Type 0
AreChecked s = All IsChecked s.rows

-- A request to import sends a row at least, and none that may not be imported.
abbrev pub IsSound : Effect → Type 0
IsSound on_close = Unit
IsSound on_complete = Unit
IsSound (import_endpoints req) = (req.rows ≢ []) × All IsImportable req.rows

valid_rows-IsImportable :
    (rows : List ParsedRow)
    → All IsChecked rows
    → All IsImportable (map (λ r. r.row) (valid_rows rows))
unfolding valid_rows
valid_rows-IsImportable [] h = tt
valid_rows-IsImportable (r ∷ rows) (p, h) = elim (Option-cases r.validation_error) [
  | inl q ↦ rw q ((validate-eq-none_iff r.row).0 (sym p ∙ q), valid_rows-IsImportable rows h)
  | inr (e, q) ↦ rw q (valid_rows-IsImportable rows h)
]

map-not_empty : (rows : List ParsedRow) → is_empty rows ≡ false → map (λ r. r.row) rows ≢ []
map-not_empty [] h = ground arith
map-not_empty (r ∷ rows) h = λ e. ground arith

handle_import-IsSound :
    (s : DialogState)
    → AreChecked s
    → AreChecked (handle_import s).0 × All IsSound (handle_import s).1
unfolding handle_import
handle_import-IsSound s h = elim (Bool-cases (is_empty (valid_rows s.rows))) [
  | inl p ↦ rw p (h, tt)
  | inr p ↦ rw p (h, ((map-not_empty _ p, valid_rows-IsImportable s.rows h), tt))
]

module _ (to_lower_case : Text → Text) where
  rows_from-AreChecked :
      (headers : List Text) (n : ℕ) (lines : List Text)
      → All IsChecked (rows_from to_lower_case headers n lines)
  unfolding rows_from parsed_row
  rows_from-AreChecked headers n [] = tt
  rows_from-AreChecked headers n (line ∷ lines) = (refl, rows_from-AreChecked headers (n + 1) lines)

  rows_of_lines-AreChecked : (lines : List Text) → All IsChecked (rows_of_lines to_lower_case lines)
  unfolding rows_of_lines
  rows_of_lines-AreChecked [] = tt
  rows_of_lines-AreChecked (header ∷ lines) = rows_from-AreChecked _ 2 lines

  parse_csv-AreChecked : (text : Text) → All IsChecked (parse_csv to_lower_case text)
  unfolding parse_csv
  parse_csv-AreChecked text = rows_of_lines-AreChecked (csv_lines text)

  reader_loaded-AreChecked :
      (text : Text) (s : DialogState)
      → AreChecked s
      → AreChecked (reader_loaded to_lower_case text s)
  unfolding reader_loaded
  reader_loaded-AreChecked text s h = elim (Bool-cases (is_empty (parse_csv to_lower_case text))) [
    | inl p ↦ rw p h
    | inr p ↦ rw p (parse_csv-AreChecked text)
  ]

  step-AreChecked :
      (e : Event) (s : DialogState)
      → AreChecked s
      → AreChecked (step to_lower_case e s).0 × All IsSound (step to_lower_case e s).1
  unfolding step handle_close reset handle_file_change reader_failed import_settled handle_import
  step-AreChecked close s h = elim (Bool-cases (is_results s.stage && is_positive s.created)) [
    | inl p ↦ rw p (tt, (tt, (tt, tt)))
    | inr p ↦ rw p (tt, (tt, tt))
  ]
  step-AreChecked back s h = (tt, tt)
  step-AreChecked (choose_file none) s h = (h, tt)
  step-AreChecked (choose_file (some name)) s h = (h, tt)
  step-AreChecked (file_read text) s h = (reader_loaded-AreChecked text s h, tt)
  step-AreChecked file_error s h = (h, tt)
  step-AreChecked import s h = elim (Bool-cases (import_enabled s)) [
    | inl p ↦ rw p (handle_import-IsSound s h)
    | inr p ↦ rw p (h, tt)
  ]
  step-AreChecked (import_end (answered resp)) s h = (h, tt)
  step-AreChecked (import_end (refused message)) s h = (h, tt)
  step-AreChecked (import_end broken) s h = (h, tt)

  run-AreChecked :
      (es : List Event) (s : DialogState) → AreChecked s → All IsSound (run to_lower_case es s).1
  unfolding run
  run-AreChecked [] s h = tt
  run-AreChecked (e ∷ es) s h =
      let (k, p) = step-AreChecked e s h in All-append IsSound _ _ p (run-AreChecked es _ k)

  -- Whatever files are read and whatever buttons are used, in whatever order the files and the
  -- answers of the server arrive, each request to import has a row, and each of its rows has a
  -- name, a known type, and the DNS name or the URL that its type needs.
  pub run-IsSound : (es : List Event) → All IsSound (run to_lower_case es initial).1
  run-IsSound es = run-AreChecked es initial tt

  valid_rows_of_valid :
      (rows : List ParsedRow) → All (λ r. r.validation_error ≡ none) rows → valid_rows rows ≡ rows
  unfolding valid_rows
  valid_rows_of_valid [] h = refl
  valid_rows_of_valid (r ∷ rows) (p, h) = rw (p, valid_rows_of_valid rows h) refl

  none_invalid :
      (rows : List ParsedRow)
      → All (λ r. r.validation_error ≡ none) rows
      → keep (λ r. is_some r.validation_error) rows ≡ []
  none_invalid [] h = refl
  none_invalid (r ∷ rows) (p, h) = rw (p, none_invalid rows h) refl

  -- A file with a row at least and no invalid row is imported whole: the dialog sends the data of
  -- all its rows in their order, and when it is closed on the answer it starts over, and tells
  -- the page to read the list again exactly if the server created an endpoint.
  pub run-imports :
      (text : Text) (resp : BulkImportResponse)
      → is_empty (parse_csv to_lower_case text) ≡ false
      → All (λ r. r.validation_error ≡ none) (parse_csv to_lower_case text)
      → run to_lower_case
          (file_read text ∷ import ∷ import_end (answered resp) ∷ close ∷ [])
          initial
        ≡ (
          initial,
          import_endpoints (record { rows = map (λ r. r.row) (parse_csv to_lower_case text) })
              ∷ on_close
              ∷ (if is_positive resp.created then on_complete ∷ [] else []),
        )
  unfolding run step reader_loaded handle_import import_enabled import_settled handle_close reset
  run-imports text resp p h =
      rw
        (
          p,
          valid_rows_of_valid _ h,
          none_invalid _ h,
          p,
          append-nil (if is_positive resp.created then on_complete ∷ [] else []),
        )
        refl

  -- An import that is answered after the dialog was closed is not told to the page, whatever it
  -- created: the dialog tells only that it was closed, and its next opening shows the results.
  pub late_answer :
      (s : DialogState) (resp : BulkImportResponse)
      → is_results s.stage ≡ false
      → run to_lower_case (close ∷ import_end (answered resp) ∷ []) s ≡ (
        record initial {
          stage = results;
          row_results = resp.results;
          created = resp.created;
          failed = resp.failed;
        },
        on_close ∷ [],
      )
  unfolding run step import_settled handle_close reset
  late_answer s resp h = rw h refl

-- ===== src/BulkImport/Dialog.antt =====
-- The dialog of web/src/components/BulkImportDialog.tsx: its state and its handlers, as a step for
-- each event. What a handler calls outside of the dialog is the list of effects it returns.
use tlsentinel_server.Common.{
  Bool, true, false, ◌&&◌, ◌||◌, not, List, [], ◌∷◌, ◌++◌, map, Option, none, some, keep, is_some,
  ltb, if◌then◌else◌,
}
use tlsentinel_server.Text.{Text, codes, is_empty}
use tlsentinel_server.Text.Numbers.{ℤ, pos, negsuc}
use tlsentinel_server.Types.Requests.{BulkImportRequest, BulkImportResponse, BulkImportRowResult}
use tlsentinel_server.BulkImport.{ParsedRow, parse_csv}

pub data Stage : Type 0 where
  upload preview results : Stage

pub record DialogState : Type 0 where
  pub stage : Stage
  pub rows : List ParsedRow
  pub file_name : Option Text
  pub parse_error : Option Text
  pub importing : Bool
  pub import_error : Option Text
  pub row_results : List BulkImportRowResult
  pub created : ℤ
  pub failed : ℤ

abbrev pub initial : DialogState
initial = record {
  stage = upload;
  rows = [];
  file_name = none;
  parse_error = none;
  importing = false;
  import_error = none;
  row_results = [];
  created = pos 0;
  failed = pos 0;
}

pub data Effect : Type 0 where
  on_close on_complete : Effect
  import_endpoints : BulkImportRequest → Effect

-- What ends the call of the server: its answer, an `ApiError` with its message, or another error.
pub data ImportEnd : Type 0 where
  answered : BulkImportResponse → ImportEnd
  refused : Text → ImportEnd
  broken : ImportEnd

pub data Event : Type 0 where
  close back file_error import : Event
  choose_file : Option Text → Event
  file_read : Text → Event
  import_end : ImportEnd → Event

abbrev pub is_results : Stage → Bool
is_results results = true
is_results _ = false

abbrev pub is_positive : ℤ → Bool
is_positive (pos n) = ltb 0 n
is_positive (negsuc n) = false

-- `reset`; it leaves nothing of the state before.
unfoldable pub reset : DialogState → DialogState
reset s = initial

unfoldable pub handle_close : DialogState → DialogState × List Effect
unfolding reset
handle_close s = (
  reset s,
  on_close ∷ (if is_results s.stage && is_positive s.created then on_complete ∷ [] else []),
)

-- `handleFileChange` up to the start of the reader.
unfoldable pub handle_file_change : Option Text → DialogState → DialogState
handle_file_change none s = s
handle_file_change (some name) s = record s { file_name = some name; parse_error = none }

unfoldable pub valid_rows : List ParsedRow → List ParsedRow
valid_rows rows = keep (λ r. not (is_some r.validation_error)) rows

-- `reader.onload`.
module _ (to_lower_case : Text → Text) where
  unfoldable pub reader_loaded : Text → DialogState → DialogState
  reader_loaded text s =
      let parsed = parse_csv to_lower_case text in
      if is_empty parsed
      then record s {
        parse_error = some (
            codes
              "No data rows found. Make sure the file has a header row and at least one data row.");
      }
      else record s { rows = parsed; stage = preview }

-- `reader.onerror`.
unfoldable pub reader_failed : DialogState → DialogState
reader_failed s = record s { parse_error = some (codes "Failed to read file.") }

-- `handleImport` up to its `await`.
unfoldable pub handle_import : DialogState → DialogState × List Effect
handle_import s = if is_empty (valid_rows s.rows) then (s, []) else (
  record s { importing = true; import_error = none },
  import_endpoints (record { rows = map (λ r. r.row) (valid_rows s.rows) }) ∷ [],
)

-- `handleImport` behind its `await`, on the state of that time.
unfoldable pub import_settled : ImportEnd → DialogState → DialogState
import_settled (answered resp) s = record s {
  row_results = resp.results;
  created = resp.created;
  failed = resp.failed;
  stage = results;
  importing = false;
}
import_settled (refused message) s = record s { import_error = some message; importing = false }
import_settled broken s = record s {
  import_error = some (codes "Import failed.");
  importing = false;
}

-- The guard of the button of the preview: it is not disabled.
unfoldable pub import_enabled : DialogState → Bool
import_enabled s = not (
    s.importing
    || is_empty (valid_rows s.rows)
    || not (is_empty (keep (λ r. is_some r.validation_error) s.rows)))

module _ (to_lower_case : Text → Text) where
  unfoldable pub step : Event → DialogState → DialogState × List Effect
  step close s = handle_close s
  step back s = (reset s, [])
  step (choose_file name) s = (handle_file_change name s, [])
  step (file_read text) s = (reader_loaded to_lower_case text s, [])
  step file_error s = (reader_failed s, [])
  step import s = if import_enabled s then handle_import s else (s, [])
  step (import_end end) s = (import_settled end s, [])

  unfoldable pub run : List Event → DialogState → DialogState × List Effect
  run [] s = (s, [])
  run (e ∷ es) s = let (t, out) = step e s in let (u, rest) = run es t in (u, out ++ rest)

-- ===== src/Formatter.antt =====
-- MultilineFormatter.format and the replacements of csv_parser (reana_job_controller/utils.py). The
-- formatter of the standard library and the reader of the module csv are parameters.
use Prim.Native.String.{◌++◌}
use reana_job_controller.Prelude.{
  Bool, List, Option, String, [], if◌then◌else◌, none, refl, some, true, ◌∷◌, ◌≡◌,
}
use reana_job_controller.Text.{concat, join}
use reana_job_controller.Text.Parts.{lstrip, rstrip, splitlines, strip}
use reana_job_controller.Dict.{Dict, lookup}

-- logging.LogRecord, by the two attributes that are written
pub record LogRecord : Type 0 where
  pub msg : String
  pub message : String

-- The loop over the lines: `format_line` is Formatter.format for a record with that `msg`.
unfoldable pub format_lines : (String → String) → List String → String
format_lines format_line [] = ""
format_lines format_line (line ∷ lines) =
    format_line line ++ ("\n" ++ format_lines format_line lines)

-- the formatted text and the record as it is left
unfoldable pub format : (String → String) → LogRecord → String × LogRecord
unfolding format_lines
format format_line log_record =
    let output = strip (format_lines format_line (splitlines log_record.msg)) in
    (output, record log_record { message = output })

-- `skip_trailing_space`: each line without the white space around it
strip_lines : List String → List String
strip_lines [] = []
strip_lines (line ∷ lines) = strip line ∷ strip_lines lines

-- A value that is a key of the replacements is replaced; None is no key.
abbrev replaced : Dict (Option String) → Option String → Option String
replaced replacements none = none
replaced replacements (some value) = elim (lookup value replacements) [
  | none ↦ some value
  | some other ↦ other
]

replace_row : Dict (Option String) → Dict (Option String) → Dict (Option String)
replace_row replacements [] = []
replace_row replacements ((key, value) ∷ row) =
    (key, replaced replacements value) ∷ replace_row replacements row

replace_rows : Dict (Option String) → List (Dict (Option String)) → List (Dict (Option String))
unfolding replace_row
replace_rows replacements [] = []
replace_rows replacements (row ∷ rows) =
    replace_row replacements row ∷ replace_rows replacements rows

-- csv_parser: `read` is csv.DictReader with the field names, the delimiter and skipinitialspace.
unfoldable pub csv_parser :
    (String → List (Dict (Option String)))
    → Bool
    → Dict (Option String)
    → String
    → List (Dict (Option String))
unfolding strip_lines replace_rows
csv_parser read skip_trailing_space replacements input_csv = replace_rows replacements (
    read
      (if skip_trailing_space then join "\n" (strip_lines (splitlines input_csv)) else input_csv))

two_lines :
    (format (λ line. concat ("INFO | " ∷ line ∷ [])) (record { msg = "a\nb"; message = "" })).0
    ≡ "INFO | a\nINFO | b"
unfolding format splitlines concat rstrip lstrip
two_lines = refl

replaced_undefined :
    csv_parser
      (λ text. (("ExitCode", some text) ∷ ("JobId", none) ∷ []) ∷ [])
      true
      (("undefined", none) ∷ [])
      " undefined "
    ≡ (("ExitCode", none) ∷ ("JobId", none) ∷ []) ∷ []
unfolding csv_parser splitlines rstrip lstrip join lookup
replaced_undefined = refl

-- ===== src/Cli/Config/Files.antt =====
-- The files of the configuration in src/cli/commands/config.rs: `config init`, `validate` and
-- `edit`. The file is its text, if it is there; each call of the file system can fail, and so can
-- the editor and the reading of an answer. The parsers of TOML are parameters.
use palingenesis.Prelude.{
  ℕ, ◌+◌, Bool, true, false, not, ◌||◌, Option, none, some, List, [], ◌∷◌, ◌++◌, map, Result, ok,
  err, leb, ◌==◌, if◌then◌else◌,
}
use palingenesis.Prelude.Io.{Io, ◌>>=◌, ◌>>◌, give, call_or}
use palingenesis.Prelude.Text.{utf8_len, Text, codes, text_eq, trim, is_empty, to_ascii_lowercase}
use palingenesis.Prelude.Number.{decimal}
use palingenesis.Prelude.Float.{FloatOps}
use palingenesis.Config.Schema.{Config}
use palingenesis.Config.Validation
use palingenesis.Config.Validation.{ValidationResult, ValidationError, ValidationWarning, is_valid}
use palingenesis.Config.Check.{validate_config}
use palingenesis.Cli.Session.{Printed, out, error_out}
use palingenesis.Cli.Config.Default.{generate_default_config_toml}

pub data ValidationStatus : Type 0 where
  valid missing invalid : ValidationStatus

-- What was printed, and the file.
pub record Terminal : Type 0 where
  pub file : Option Text
  pub printed : List Printed

abbrev pub Step : Type 0 → Type 0
Step = Io Terminal Text

abbrev pub call : Option Text → Step (Unit {0})
call = call_or λ e. e

abbrev pub print : Printed → Step (Unit {0})
print p s = (ok tt, record s { printed = s.printed ++ p ∷ [] })

abbrev pub write_file : Option Text → Text → Step (Unit {0})
write_file none text s = (ok tt, record s { file = some text })
write_file (some e) text s = (err e, s)

-- What the commands meet.
pub record World : Type 0 where
  pub path : Text
  -- The line that is read, or the error.
  pub answer : Result Text Text
  pub has_parent : Bool
  pub create_dir_all : Option Text
  pub write : Option Text
  -- The permissions are warnings.
  pub set_dir_permissions : Option Text
  pub set_file_permissions : Option Text

unfoldable pub is_yes : Text → Bool
unfolding codes text_eq trim
is_yes input =
    text_eq (to_ascii_lowercase (trim input)) (codes "y")
    || text_eq (to_ascii_lowercase (trim input)) (codes "yes")

unfoldable pub confirm_overwrite : World → Step Bool
unfolding is_yes codes
confirm_overwrite w = do
  print (out (codes "Config already exists at " ++ w.path ++ codes ". Overwrite? [y/N] "))
  input ← give w.answer
  give (ok (is_yes input))

abbrev pub warn_of : Text → Option Text → Step (Unit {0})
warn_of what none = give (ok tt)
warn_of what (some e) =
    print (error_out (codes "Warning: failed to set " ++ what ++ codes " permissions: " ++ e))

abbrev pub make_parent : World → Bool → Step (Unit {0})
make_parent w false = give (ok tt)
make_parent w true = do call w.create_dir_all; warn_of (codes "directory") w.set_dir_permissions

abbrev pub write_default : World → Step (Unit {0})
write_default w = do
  make_parent w w.has_parent
  write_file w.write generate_default_config_toml
  warn_of (codes "config file") w.set_file_permissions
  print (out (codes "\u{1b}[32mConfig created at " ++ w.path ++ codes "\u{1b}[0m"))
  print (out (codes "Edit with: palingenesis config edit"))

-- Whether the file may be written.
abbrev pub may_write : World → (force : Bool) → Option Text → Step Bool
may_write w force none = give (ok true)
may_write w true (some text) = give (ok true)
may_write w false (some text) = confirm_overwrite w

abbrev pub write_or_abort : World → Bool → Step (Unit {0})
write_or_abort w true = write_default w
write_or_abort w false = print (out (codes "Aborted."))

unfoldable pub handle_init : (force : Bool) → World → Step (Unit {0})
unfolding confirm_overwrite codes generate_default_config_toml
handle_init force w = do allowed ← λ s. may_write w force s.file s; write_or_abort w allowed

-- The position of an offset in bytes, counted over the characters from the one at `idx`.
unfoldable pub line_col_from : (offset idx line column : ℕ) → Text → ℕ × ℕ
line_col_from offset idx line column [] = (line, column)
line_col_from offset idx line column (c ∷ contents) =
    let below = line_col_from offset (idx + utf8_len (c ∷ [])) (line + 1) 1 contents in
    let right = line_col_from offset (idx + utf8_len (c ∷ [])) line (column + 1) contents in
    if leb offset idx then (line, column) else if c == 10 then below else right

abbrev pub line_col_from_offset : Text → ℕ → ℕ × ℕ
line_col_from_offset contents offset = line_col_from offset 0 1 1 contents

-- What the parsers say: of TOML, an error with the start of its span; of the configuration, an error.
pub record Parsers (F : Type 0) : Type 0 where
  pub syntax : Text → Result (Unit {0}) (Text × Option ℕ)
  pub config : Text → Result (Config F) Text

-- `env::var`, and `command_exists`.
pub record Machine : Type 0 where
  pub var : Text → Option Text
  pub command_exists : Text → Bool

abbrev set_to_something : Option Text → Option Text
set_to_something none = none
set_to_something (some value) = if is_empty (trim value) then none else some value

-- On Unix.
unfoldable pub find_editor : Machine → Result Text Text
unfolding codes trim
find_editor m = elim (set_to_something (m.var (codes "EDITOR"))) [
  | some editor ↦ ok editor
  | none ↦ elim (set_to_something (m.var (codes "VISUAL"))) [
    | some visual ↦ ok visual
    | none ↦
        if m.command_exists (codes "vi")
        then ok (codes "vi")
        else if m.command_exists (codes "nano")
        then ok (codes "nano")
        else err (
            codes "No editor found. Set the EDITOR environment variable (e.g., export EDITOR=vim).")
  ]
]

module _ {F : Type 0} (fl : FloatOps F) (outside : Validation.Outside) (parsers : Parsers F) where
  abbrev located : Text → Option ℕ → List Printed
  located contents none = []
  located contents (some offset) =
      let (line, column) = line_col_from_offset contents offset in
      error_out (codes "  at line " ++ decimal line ++ codes ", column " ++ decimal column)
      ∷ error_out (codes "  Suggestion: check syntax near line " ++ decimal line)
      ∷ []

  abbrev suggested : Option Text → List Printed
  suggested none = []
  suggested (some s) = error_out (codes "    Suggestion: " ++ s) ∷ []

  abbrev error_lines : List ValidationError → List Printed
  error_lines [] = []
  error_lines (e ∷ errors) =
      error_out (codes "  " ++ e.field ++ codes ": " ++ e.message) ∷ suggested e.suggestion
      ++ error_lines errors

  abbrev warning_line : ValidationWarning → Printed
  warning_line w = error_out (codes "Warning: " ++ w.field ++ codes ": " ++ w.message)

  abbrev judged : ValidationResult → ValidationStatus × List Printed
  judged result =
      if not (is_valid result)
      then (
        invalid,
        map warning_line result.warnings
            ++ (error_out (codes "\u{1b}[31mConfiguration errors:\u{1b}[0m")
                ∷ error_lines result.errors),
      )
      else (
        valid,
        map warning_line result.warnings
            ++ (out (codes "\u{1b}[32mConfiguration valid\u{1b}[0m") ∷ []),
      )

  -- The file, if it is there, as it is read.
  unfoldable pub validate_config_at_path :
      Option (Result Text Text) → Result ValidationStatus Text × List Printed
  unfolding codes line_col_from is_valid validate_config
  validate_config_at_path none =
      (ok missing, out (codes "No config file found, will use defaults") ∷ [])
  validate_config_at_path (some (err e)) = (err e, [])
  validate_config_at_path (some (ok contents)) = elim (parsers.syntax contents) [
    | err (message, start) ↦ (
      ok invalid,
      error_out (codes "\u{1b}[31mConfiguration syntax error:\u{1b}[0m")
          ∷ error_out (codes "  " ++ message)
          ∷ located contents start,
    )
    | ok _ ↦ elim (parsers.config contents) [
      | err message ↦ (
        ok invalid,
        error_out (codes "\u{1b}[31mConfiguration value error:\u{1b}[0m")
            ∷ error_out (codes "  " ++ message)
            ∷ error_out (codes "  Suggestion: ensure values match the expected types")
            ∷ [],
      )
      | ok config ↦
          let (status, lines) = judged (validate_config fl outside config) in (ok status, lines)
    ]
  ]

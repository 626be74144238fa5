-- ===== src/Monitor/Frontmatter.antt =====
-- src/monitor/frontmatter.rs: the frontmatter of a session file, and the sessions parsed so far.
-- Reading a file and parsing YAML (serde_yaml) are parameters.
pub mod Extract
use palingenesis.Prelude.{
  List, [], ◌∷◌, ◌++◌, Bool, Option, none, some, Result, ok, err, ◌>>=◌, ◌>>◌, ensure_not,
  if◌then◌else◌,
}
use palingenesis.Prelude.Text.{Text, codes, text_eq, trim}
use palingenesis.Monitor.Session.{Session, SessionState}

-- `std::io::Error`: whether its kind is `NotFound`, and its text.
pub data IoError : Type 0 where
  not_found : Text → IoError
  other : Text → IoError

abbrev pub io_text : IoError → Text
io_text (not_found message) = message
io_text (other message) = message

pub data ParseError : Type 0 where
  io : IoError → ParseError
  no_frontmatter : ParseError
  invalid_frontmatter : Text → ParseError
  file_not_found : Text → ParseError

-- What the code asks of the file system: a whole file, or its lines one by one.
pub record Files : Type 0 where
  pub read_to_string : Text → Result Text IoError
  pub open_lines : Text → Result (List (Result Text IoError)) IoError

abbrev pub delimiter : Text → Bool
delimiter line = text_eq (trim line) (codes "---")

-- The loop over the lines behind the first one.
unfoldable pub collect : Text → List (Result Text IoError) → Result Text ParseError
collect frontmatter [] = err no_frontmatter
collect frontmatter (err e ∷ lines) = err (io e)
collect frontmatter (ok line ∷ lines) =
    let rest = collect (frontmatter ++ line ++ 10 ∷ []) lines in
    if delimiter line then ok frontmatter else rest

abbrev open_error : Text → IoError → ParseError
open_error path (not_found message) = file_not_found path
open_error path (other message) = io (other message)

unfoldable pub extract_lines : List (Result Text IoError) → Result Text ParseError
unfolding collect
extract_lines [] = err no_frontmatter
extract_lines (err e ∷ lines) = err (io e)
extract_lines (ok first_line ∷ lines) =
    if delimiter first_line then collect [] lines else err no_frontmatter

module _ (files : Files) (from_yaml : Text → Result SessionState Text) where
  unfoldable pub extract_frontmatter : Text → Result Text ParseError
  unfolding extract_lines
  extract_frontmatter path = elim (files.open_lines path) [
    | err e ↦ err (open_error path e)
    | ok lines ↦ extract_lines lines
  ]

  unfoldable pub parse_session : Text → Result Session ParseError
  unfolding extract_frontmatter
  parse_session path = do
    frontmatter ← extract_frontmatter path
    elim (from_yaml frontmatter) [
      | err message ↦ err (invalid_frontmatter message)
      | ok state ↦ ok (record { path = path; state = state })
    ]

-- ===== src/Monitor/Process/Proc.antt =====
-- The processes under /proc of src/monitor/process.rs, on Linux. The entries of the directory and
-- their files are given; `from_utf8_lossy` and the last part of a path are parameters.
pub mod Arguments
use palingenesis.Prelude.{
  ℕ, zero, suc, ◌+◌, ◌-◌, Bool, true, false, not, ◌||◌, Option, none, some, List, [], ◌∷◌, ◌++◌,
  Result, ok, err, ltb, leb, ◌==◌, length, take, drop, any, cons?, get_elem?, get_or, ◌^◌,
  if◌then◌else◌,
}
use palingenesis.Prelude.Words.{max_u32}
use palingenesis.Prelude.Text.{Text, codes, contains, is_empty, trim, split_whitespace}
use palingenesis.Prelude.Number.{parse_uint, scan}
use palingenesis.Prelude.Int.{ℤ, pos, negsuc}
use palingenesis.Monitor.Frontmatter.{IoError}
use palingenesis.Monitor.Events.{ProcessInfo}
use palingenesis.Monitor.Process.{ProcessError, io}

abbrev pub Bytes : Type 0
Bytes = List ℕ

-- An entry of the directory: its name where it is UTF-8, and what reading its files gives.
pub record ProcEntry : Type 0 where
  pub name : Option Text
  pub cmdline : Result Bytes IoError
  pub cwd : Option Text

pub record Outside : Type 0 where
  -- `String::from_utf8_lossy`
  pub lossy : Bytes → Text
  -- `Path::file_name`, where it is UTF-8.
  pub file_name : Text → Option Text

-- `fields[49].parse::<i32>().ok()`
unfoldable pub parse_i32 : Text → Option ℤ
unfolding parse_uint scan
parse_i32 [] = none
parse_i32 (c ∷ digits) =
    if c == b'-' then negative digits else map_pos (parse_uint (2 ^ 31 - 1) (c ∷ digits))
  where
    map_pos : Option ℕ → Option ℤ
    map_pos none = none
    map_pos (some n) = some (pos n)

    negated : ℕ → ℤ
    negated zero = pos 0
    negated (suc n) = negsuc n

    map_neg : Option ℕ → Option ℤ
    map_neg none = none
    map_neg (some n) = some (negated n)

    negative : Text → Option ℤ
    negative digits = if is_empty digits then none else map_neg (scan (2 ^ 31) 0 digits)

-- What stands behind the last closing parenthesis.
unfoldable pub after_paren : Text → Option Text
after_paren [] = none
after_paren (c ∷ rest) = elim (after_paren rest) [
  | some later ↦ some later
  | none ↦ if c == 41 then some rest else none
]

unfoldable pub parse_exit_code_from_stat : Text → Option ℤ
unfolding after_paren parse_i32 trim split_whitespace
parse_exit_code_from_stat stat = elim (after_paren stat) [
  | none ↦ none
  | some rest ↦ elim (get_elem? (split_whitespace (trim rest)) 49) [
    | none ↦ none
    | some field ↦ parse_i32 field
  ]
]

module _ (out : Outside) where
  -- An argument that is not empty is pushed.
  abbrev pub push : Bytes → List Text → List Text
  push slice args = let arg = out.lossy slice in if is_empty arg then args else args ++ arg ∷ []

  abbrev pub slice : Bytes → ℕ → ℕ → Bytes
  slice bytes start end = take (end - start) (drop start bytes)

  -- The loop over the bytes from the index on.
  unfoldable pub parse_from : Bytes → Bytes → (idx start : ℕ) → List Text → List Text
  parse_from bytes [] idx start args =
      if ltb start (length bytes) then push (drop start bytes) args else args
  parse_from bytes (byte ∷ rest) idx start args = elim (byte == 0) [
    | false ↦ parse_from bytes rest (suc idx) start args
    | true ↦
        parse_from bytes rest (suc idx) (suc idx)
          (if ltb start idx then push (slice bytes start idx) args else args)
  ]

  unfoldable pub parse_cmdline : Bytes → List Text
  unfolding parse_from
  parse_cmdline bytes = parse_from bytes bytes 0 0 []

  unfoldable pub command_name_matches : Text → Bool
  unfolding codes contains
  command_name_matches value = contains (get_or (out.file_name value) value) (codes "opencode")

  unfoldable pub is_opencode_command : List Text → Bool
  unfolding command_name_matches
  is_opencode_command [] = false
  is_opencode_command (first ∷ args) =
      if command_name_matches first then true else any command_name_matches (first ∷ args)

  abbrev listed_command : ℕ → Option Text → List Text → Option ProcessInfo
  listed_command id cwd args =
      if not (is_opencode_command args)
      then none
      else some (record { pid = id; command_line = args; start_time = none; working_dir = cwd })

  -- What an entry adds to the list: it is passed over unless its name is a process ID, its command
  -- line can be read, and it is the assistant's.
  unfoldable pub listed_entry : Result ProcEntry IoError → Option ProcessInfo
  unfolding parse_uint parse_cmdline is_opencode_command
  listed_entry (err e) = none
  listed_entry (ok entry) = elim (entry.name) [
    | none ↦ none
    | some name ↦ elim (parse_uint max_u32 name) [
      | none ↦ none
      | some id ↦ elim (entry.cmdline) [
        | err e ↦ none
        | ok bytes ↦ listed_command id entry.cwd (parse_cmdline bytes)
      ]
    ]
  ]

  abbrev list_entries : List (Result ProcEntry IoError) → List ProcessInfo
  list_entries [] = []
  list_entries (entry ∷ rest) = cons? (listed_entry entry) (list_entries rest)

  unfoldable pub enumerate_opencode_processes :
      Result (List (Result ProcEntry IoError)) IoError → Result (List ProcessInfo) ProcessError
  unfolding listed_entry
  enumerate_opencode_processes (err e) = err (io e)
  enumerate_opencode_processes (ok entries) = ok (list_entries entries)

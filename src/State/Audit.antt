-- ===== src/State/Audit.antt =====
-- src/state/audit.rs: the audit log. The log is the texts of `audit.jsonl` and of its rotated files
-- `audit.jsonl.1`, `audit.jsonl.2` and so on; each call of the file system can fail. The JSON of an
-- entry and the JSON values of its metadata (serde_json) are parameters, and an instant is a number.
pub mod Entries
pub mod Query
pub mod Rotation
use palingenesis.Prelude.{
  ℕ, zero, suc, ◌+◌, Bool, Option, none, some, List, [], ◌∷◌, ◌++◌, Result, ok, err, ltb, ◌==◌,
  if◌then◌else◌, is_some, take, ◌-◌, ◌*◌,
}
use palingenesis.Prelude.Io.{Io, ◌>>=◌, ◌>>◌, give, call_or}
use palingenesis.Prelude.Text.{utf8_len, Text}
use palingenesis.Monitor.Frontmatter.{IoError}
use palingenesis.State.Audit.Entries.{AuditEntry}

pub data AuditError : Type 0 where
  io : IoError → AuditError
  serialization deserialization : Text → AuditError

-- `AuditConfig`; its path and mode are those of the log.
pub record AuditConfig : Type 0 where
  pub max_size : ℕ
  pub max_files : ℕ

abbrev pub default_audit_config : AuditConfig
default_audit_config = record { max_size = 10 * 1024 * 1024; max_files = 5 }

-- `audit.jsonl`, and `audit.jsonl.i` at the index i.
pub record Log : Type 0 where
  pub current : Option Text
  pub rotated : ℕ → Option Text

-- What goes wrong in one call of the logger; `none` is a call that works.
pub record Faults : Type 0 where
  pub metadata : Option IoError
  -- At the index i, the move of the i-th rotated file; at 0, that of the log itself.
  pub rename : ℕ → Option IoError
  pub remove : Option IoError
  pub open_file : Option IoError
  pub permissions : Option IoError
  pub lock : Option IoError
  -- The error, and how much of the line was written before it.
  pub write : Option (IoError × ℕ)
  pub flush : Option IoError
  pub unlock : Option IoError

abbrev pub Step : Type 0
Step = Io Log AuditError (Unit {0})

abbrev pub call : Option IoError → Step
call = call_or io

abbrev pub done : Step
done = give (ok tt)

-- The files with another text at an index.
abbrev pub set : ℕ → Option Text → (ℕ → Option Text) → ℕ → Option Text
set i text files j = if j == i then text else files j

abbrev pub move : ℕ → (ℕ → Option Text) → ℕ → Option Text
move i files = set i none (set (suc i) (files i) files)

-- `fs::rename` of the i-th rotated file to the next index.
abbrev pub rename_rotated : Option IoError → ℕ → Step
rename_rotated (some e) i log = (err (io e), log)
rename_rotated none i log = (ok tt, record log { rotated = move i log.rotated })

-- The loop over `(1..=n).rev()`.
unfoldable pub shift : Faults → ℕ → Step
shift faults zero = done
shift faults (suc n) = do
  λ log.
      if is_some (log.rotated (suc n))
      then rename_rotated (faults.rename (suc n)) (suc n) log
      else (ok tt, log)
  shift faults n

abbrev pub rename_current : Option IoError → Step
rename_current (some e) log = (err (io e), log)
rename_current none log =
    (ok tt, record { current = none; rotated = set 1 log.current log.rotated })

abbrev pub remove_rotated : Option IoError → ℕ → Step
remove_rotated (some e) i log = (err (io e), log)
remove_rotated none i log = (ok tt, record log { rotated = set i none log.rotated })

-- `remove_file` of the file beyond the last, where it exists.
abbrev pub remove_oldest : AuditConfig → Faults → Step
remove_oldest config faults log =
    let oldest = suc config.max_files in
    if is_some (log.rotated oldest) then remove_rotated faults.remove oldest log else (ok tt, log)

unfoldable pub rotate : AuditConfig → Faults → Step
unfolding shift
rotate config faults = do
  shift faults (config.max_files - 1)
  rename_current (faults.rename 0)
  remove_oldest config faults

-- The rest of `maybe_rotate`, for a log that exists and its text; its length is in bytes.
abbrev pub rotate_text : AuditConfig → Faults → Option Text → Step
rotate_text config faults none = done
rotate_text config faults (some text) = do
  call faults.metadata
  if ltb (utf8_len text) config.max_size then done else rotate config faults

unfoldable pub maybe_rotate : AuditConfig → Faults → Step
unfolding rotate
maybe_rotate config faults log = rotate_text config faults log.current log

abbrev text_or_empty : Option Text → Text
text_or_empty none = []
text_or_empty (some text) = text

-- `create(true).append(true)`, and the permissions.
unfoldable pub open_for_append : Faults → Step
open_for_append faults = do
  call faults.open_file
  λ log. (ok tt, record log { current = some (text_or_empty log.current) })
  call faults.permissions

abbrev append : Text → Log → Log
append text log = record log { current = some (text_or_empty log.current ++ text) }

-- `writeln!`
abbrev pub write_line : Option (IoError × ℕ) → Text → Step
write_line none line log = (ok tt, append line log)
write_line (some (e, n)) line log = (err (io e), append (take n line) log)

-- The JSON of an entry, on one line.
pub record EntryJson (V : Type 0) : Type 0 where
  pub to_string : AuditEntry V → Result Text Text
  pub from_str : Text → Result (AuditEntry V) Text

abbrev serialized : Result Text Text → Result Text AuditError
serialized (ok text) = ok text
serialized (err message) = err (serialization message)

unfoldable pub log_entry : {V : Type 0} → EntryJson V → AuditConfig → Faults → AuditEntry V → Step
unfolding maybe_rotate open_for_append
log_entry json config faults entry = do
  maybe_rotate config faults
  text ← give (serialized (json.to_string entry))
  open_for_append faults
  call faults.lock
  write_line faults.write (text ++ 10 ∷ [])
  call faults.flush
  call faults.unlock

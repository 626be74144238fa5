-- ===== src/Resume/Backup.antt =====
-- src/resume/backup.rs: backups of a session file, and pruning of the old ones. The directory of the
-- session is a list of file names with their bytes, in the order in which it is read; a path is the
-- name of its file there. The parts of a path, the clock and the form of a time stamp (chrono) are
-- parameters, and each call of the file system can fail.
pub mod Recognised
pub mod Pruning
pub mod Kept
use palingenesis.Prelude.{
  ℕ, zero, suc, Bool, true, false, Option, none, some, List, [], ◌∷◌, ◌++◌, map, filter_map, Result,
  ok, err, leb, length, ◌==◌, if◌then◌else◌,
}
use palingenesis.Prelude.Io.{Io, ◌>>=◌, ◌>>◌, give, call_or}
use palingenesis.Prelude.Text.{Text, codes, text_eq, starts_with, split}
use palingenesis.Monitor.Frontmatter.{IoError}

pub record BackupConfig : Type 0 where
  pub max_backups : ℕ
  pub timestamp_format : Text
  pub verify_backup : Bool

abbrev pub default_backup_config : BackupConfig
default_backup_config = record {
  max_backups = 10;
  timestamp_format = codes "%Y%m%d-%H%M%S";
  verify_backup = true;
}

pub data BackupError : Type 0 where
  io : IoError → BackupError
  source_not_found : Text → BackupError
  verification_failed : (expected actual : ℕ) → BackupError
  unreadable : Text → BackupError
  invalid_backup_filename : Text → BackupError

abbrev pub Bytes : Type 0
Bytes = List ℕ

abbrev pub Dir : Type 0
Dir = List (Text × Bytes)

abbrev pub lookup : Text → Dir → Option Bytes
lookup name [] = none
lookup name ((other, bytes) ∷ dir) = if text_eq other name then some bytes else lookup name dir

-- `fs::remove_file`
abbrev pub remove : Text → Dir → Dir
remove name [] = []
remove name ((other, bytes) ∷ dir) =
    let rest = remove name dir in if text_eq other name then rest else (other, bytes) ∷ rest

-- A file with these bytes in the place of an old one, or of none.
abbrev pub write : Text → Option Bytes → Dir → Dir
write name none dir = remove name dir
write name (some bytes) dir = (name, bytes) ∷ remove name dir

pub record Outside : Type 0 where
  -- `Path::file_stem` and `Path::extension`, where they are UTF-8.
  pub file_stem : Text → Option Text
  pub extension : Text → Option Text
  -- `Local::now().format`, by the format.
  pub now : Text → Text
  -- `NaiveDateTime::parse_from_str` and `from_local_datetime(..).single()`, by the format.
  pub parse_timestamp : Text → Text → Option ℕ

-- What goes wrong in one call; `none` is a call that works.
pub record Faults : Type 0 where
  -- The error, and what it left of the copy.
  pub copy : Option (IoError × Option Bytes)
  pub source_metadata : Option IoError
  pub backup_metadata : Option IoError
  pub open_backup : Option IoError
  pub read_backup : Option IoError
  pub read_dir : Option IoError
  pub remove_file : Text → Option IoError

abbrev pub Step : Type 0 → Type 0
Step = Io Dir BackupError

abbrev pub call : Option IoError → Step (Unit {0})
call = call_or io

abbrev pub stem_or_session : Option Text → Text
stem_or_session none = codes "session"
stem_or_session (some stem) = stem

-- The stem with which the names of the backups begin.
abbrev pub stem : Outside → Text → Text
stem out session = stem_or_session (out.file_stem session)

abbrev pub pattern_of : Text → Text
pattern_of s = s ++ codes "-backup-"

abbrev with_extension : Text → Option Text → Text
with_extension name none = name
with_extension name (some ext) = name ++ (codes "." ++ ext)

-- A file that is copied over another.
abbrev copy_file : Option (IoError × Option Bytes) → Text → Option Bytes → Step (Unit {0})
copy_file none to bytes dir = (ok tt, write to bytes dir)
copy_file (some (e, left)) to bytes dir = (err (io e), write to left dir)

abbrev size : Option Bytes → ℕ
size none = 0
size (some bytes) = length bytes

-- A backup that is found: its name and its time.
abbrev pub Found : Type 0
Found = Text × ℕ

-- `sort_by` is stable: an element stays in front of those that are not smaller.
unfoldable pub insert_sorted : Found → List Found → List Found
insert_sorted b [] = b ∷ []
insert_sorted b (c ∷ rest) =
    let later = insert_sorted b rest in if leb (b.1) (c.1) then b ∷ c ∷ rest else c ∷ later

unfoldable pub sort : List Found → List Found
unfolding insert_sorted
sort [] = []
sort (b ∷ rest) = insert_sorted b (sort rest)

-- The loop of `prune_old_backups` over the sorted backups.
unfoldable pub prune_from : (Text → Option IoError) → ℕ → List Found → ℕ → Step ℕ
prune_from fault max [] removed dir = (ok removed, dir)
prune_from fault max ((name, time) ∷ rest) removed dir =
    if leb (suc (length rest)) max then (ok removed, dir) else elim (fault name) [
      | some e ↦ (err (io e), dir)
      | none ↦ prune_from fault max rest (suc removed) (remove name dir)
    ]

module _ (config : BackupConfig) (out : Outside) where
  unfoldable pub generate_backup_path : Text → Text
  unfolding codes
  generate_backup_path session =
      with_extension (pattern_of (stem out session) ++ out.now config.timestamp_format)
        (out.extension session)

  -- The time in a part of a name: what stands before its first dot.
  abbrev pub part_time : Text → List Text → Result ℕ BackupError
  part_time filename [] = err (invalid_backup_filename filename)
  part_time filename (text ∷ rest) = elim (out.parse_timestamp config.timestamp_format text) [
    | none ↦ err (invalid_backup_filename filename)
    | some time ↦ ok time
  ]

  -- There must be exactly two parts.
  abbrev pub parts_time : Text → List Text → Result ℕ BackupError
  parts_time filename (a ∷ b ∷ []) = part_time filename (split b (codes "."))
  parts_time filename _ = err (invalid_backup_filename filename)

  unfoldable pub extract_timestamp : Text → Result ℕ BackupError
  unfolding codes split
  extract_timestamp filename = parts_time filename (split filename (codes "-backup-"))

  abbrev with_time : Text → Result ℕ BackupError → Option Found
  with_time filename (ok time) = some (filename, time)
  with_time filename (err e) = none

  -- A name of the directory, as a backup of the session.
  unfoldable pub as_backup : Text → Text → Option Found
  unfolding extract_timestamp starts_with codes
  as_backup session filename =
      if starts_with filename (pattern_of (stem out session))
      then with_time filename (extract_timestamp filename)
      else none

  abbrev pub backups : Text → Dir → List Found
  backups session dir = filter_map (as_backup session) (map (λ file. file.0) dir)

  unfoldable pub prune_old_backups : Faults → Text → Step ℕ
  unfolding as_backup sort prune_from
  prune_old_backups faults session = do
    call faults.read_dir
    λ dir. prune_from faults.remove_file config.max_backups (sort (backups session dir)) 0 dir

  abbrev same_size : ℕ → ℕ → Step (Unit {0})
  same_size expected actual =
      if expected == actual then give (ok tt) else give (err (verification_failed expected actual))

  unfoldable pub verify_backup : Faults → (source backup : Text) → Step (Unit {0})
  unfolding text_eq
  verify_backup faults source backup = do
    call faults.source_metadata
    call faults.backup_metadata
    λ dir. same_size (size (lookup source dir)) (size (lookup backup dir)) dir
    call faults.open_backup
    call faults.read_backup

  -- An error of pruning is logged.
  abbrev pub pruned : Faults → Text → Step (Unit {0})
  pruned faults session dir = (ok tt, (prune_old_backups faults session dir).1)

  -- The rest of `create_backup` for a session that exists.
  abbrev pub backup_to : Faults → Text → Text → Bytes → Step Text
  backup_to faults session backup bytes = do
    copy_file faults.copy backup (some bytes)
    if config.verify_backup then verify_backup faults session backup else give (ok tt)
    pruned faults session
    give (ok backup)

  unfoldable pub create_backup : Faults → Text → Step Text
  unfolding generate_backup_path verify_backup prune_old_backups text_eq
  create_backup faults session dir = elim (lookup session dir) [
    | none ↦ (err (source_not_found session), dir)
    | some bytes ↦ backup_to faults session (generate_backup_path session) bytes dir
  ]

-- ===== src/State/Store.antt =====
-- src/state/store.rs: loading and saving the state file. The disk is the texts of three files; each
-- call of the file system can fail, as `Faults` says, and a failed write leaves a part of its text.
-- The JSON of a state (serde_json) is a parameter. Permissions are only a call that can fail.
pub mod Atomic
pub mod Loading
use palingenesis.Prelude.{
  ℕ, zero, suc, Bool, true, false, List, [], ◌∷◌, Option, none, some, Result, ok, err,
  if◌then◌else◌, is_some, not, take,
}
use palingenesis.Prelude.Time.{Duration}
use palingenesis.Prelude.Text.{Text}
use palingenesis.Prelude.Io.{Io, ◌>>=◌, ◌>>◌, give, call_or}
use palingenesis.Prelude.Float.{FloatOps}
use palingenesis.Monitor.Frontmatter.{IoError}
use palingenesis.State.Schema.{StateFile, default_state}
use palingenesis.State.Lock.{
  StateError, io, serialization, corrupted, lock_timeout, Tries, lock_with_timeout,
}

-- `state.json`, `state.json.tmp` and `state.json.bak`.
pub record Disk : Type 0 where
  pub state : Option Text
  pub temp : Option Text
  pub backup : Option Text

-- What goes wrong in one call of the store; `none` is a call that works.
pub record Faults : Type 0 where
  pub create_dir : Option IoError
  pub open_lock : Option IoError
  pub lock_permissions : Option IoError
  pub tries : Tries
  pub open_temp : Option IoError
  -- The error, and how much of the text was written before it.
  pub write : Option (IoError × ℕ)
  pub sync : Option IoError
  pub temp_permissions : Option IoError
  pub rename : Option IoError
  pub permissions : Option IoError
  pub read : Option IoError
  -- The error, and what it left of the copy.
  pub copy : Option (IoError × Option Text)

pub record Json (F : Type 0) : Type 0 where
  pub to_string_pretty : StateFile F → Result Text Text
  pub from_str : Text → Result (StateFile F) Text

-- `StateStore`, by its time limit; its paths are those of the disk.
pub record StateStore : Type 0 where
  pub lock_timeout : Duration

-- A step on the disk that can fail.
abbrev pub Step : Type 0 → Type 0
Step = Io Disk StateError

-- A call that changes none of the three files.
abbrev pub call : Option IoError → Step (Unit {0})
call = call_or io

abbrev pub set_temp : Text → Step (Unit {0})
set_temp text disk = (ok tt, record disk { temp = some text })

-- `write_all`
abbrev pub write_temp : Option (IoError × ℕ) → Text → Step (Unit {0})
write_temp none text disk = (ok tt, record disk { temp = some text })
write_temp (some (e, n)) text disk = (err (io e), record disk { temp = some (take n text) })

-- The temporary file takes the place of the state file.
abbrev pub rename_temp : Option IoError → Step (Unit {0})
rename_temp (some e) disk = (err (io e), disk)
rename_temp none disk = (ok tt, record disk { state = disk.temp; temp = none })

abbrev pub serialized : Result Text Text → Result Text StateError
serialized (ok text) = ok text
serialized (err message) = err (serialization message)

module _ {F : Type 0} (fl : FloatOps F) (json : Json F) (store : StateStore) where
  unfoldable pub open_lock_file : Faults → Step (Unit {0})
  open_lock_file faults = do call faults.open_lock; call faults.lock_permissions

  abbrev lock : Faults → Step (Unit {0})
  lock faults = give (lock_with_timeout faults.tries store.lock_timeout)

  unfoldable pub save : Faults → StateFile F → Step (Unit {0})
  unfolding open_lock_file
  save faults state = do
    call faults.create_dir
    open_lock_file faults
    lock faults
    call faults.open_temp
    set_temp []
    contents ← give (serialized (json.to_string_pretty state))
    write_temp faults.write contents
    call faults.sync
    call faults.temp_permissions
    rename_temp faults.rename
    call faults.permissions

  abbrev copy_state : Option (IoError × Option Text) → Step (Unit {0})
  copy_state none disk = (ok tt, record disk { backup = disk.state })
  copy_state (some (e, left)) disk = (err (io e), record disk { backup = left })

  unfoldable pub backup_corrupted : Faults → Step (Unit {0})
  backup_corrupted faults = copy_state faults.copy

  abbrev file_text : Option Text → Step Text
  file_text none = give (err (io (IoError.not_found [])))
  file_text (some text) = give (ok text)

  abbrev parsed : Faults → Result (StateFile F) Text → Step (StateFile F)
  parsed faults (ok state) = give (ok state)
  parsed faults (err message) = do backup_corrupted faults; give (err (corrupted message))

  unfoldable pub load_inner : Faults → Step (StateFile F)
  unfolding open_lock_file backup_corrupted
  load_inner faults disk =
      (do
        open_lock_file faults
        lock faults
        call faults.read
        contents ← file_text disk.state
        parsed faults (json.from_str contents))
        disk

  -- An error of loading is logged, and the default takes its place.
  abbrev or_default : Result (StateFile F) StateError × Disk → StateFile F × Disk
  or_default (ok state, disk) = (state, disk)
  or_default (err e, disk) = (default_state fl, disk)

  unfoldable pub load : Faults → Disk → StateFile F × Disk
  unfolding save load_inner
  load faults disk =
      if is_some disk.state
      then or_default (load_inner faults disk)
      else (default_state fl, (save faults (default_state fl) disk).1)

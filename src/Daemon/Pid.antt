-- ===== src/Daemon/Pid.antt =====
-- src/daemon/pid.rs: the file that holds the process ID of the daemon, on Linux. The state is the
-- text of the file at the path and the flag of this process. Which processes run is a parameter, and
-- each call of the file system can fail. Other processes can create the file before either of the
-- two openings, change, remove or replace it before the second look at it, and remove or replace it
-- once this process has created it.
pub mod Acquire
use palingenesis.Prelude.{
  ℕ, Bool, true, false, not, Option, none, some, List, [], ◌∷◌, Result, ok, err, is_some, take,
  get_or, or_else, if◌then◌else◌,
}
use palingenesis.Prelude.Io.{Io, ◌>>=◌, ◌>>◌, give, call_or}
use palingenesis.Prelude.Words.{max_u32}
use palingenesis.Prelude.Text.{Text, trim}
use palingenesis.Prelude.Number.{decimal, parse_uint}
use palingenesis.Monitor.Frontmatter.{IoError}

pub data PidError : Type 0 where
  already_running : ℕ → PidError
  io : IoError → PidError
  parse : Text → PidError
  process_check : Text → PidError

pub record PidFile : Type 0 where
  pub file : Option Text
  pub acquired : Bool

-- The faults of one look at an existing file.
pub record Look : Type 0 where
  pub read : Option IoError
  pub remove : Option IoError

pub record Faults : Type 0 where
  pub first : Look
  pub ensure_runtime_dir : Option IoError
  -- What another process has put there when the file is opened.
  pub raced : Option Text
  pub open_first : Option IoError
  -- What other processes have made of that file when it is looked at, if they have.
  pub changed : Option (Option Text)
  pub second : Look
  pub raced_again : Option Text
  pub open_second : Option IoError
  -- `io::ErrorKind::AlreadyExists`
  pub exists_error : IoError
  -- What other processes have made of the path since this process created the file, if they have: it
  -- then writes to a file that is no longer at the path.
  pub replaced : Option (Option Text)
  -- The error, and how much was written before it.
  pub write : Option (IoError × ℕ)
  pub sync : Option IoError
  pub permissions : Option IoError

abbrev pub Step : Type 0 → Type 0
Step = Io PidFile PidError

abbrev pub call : Option IoError → Step (Unit {0})
call = call_or io

abbrev pub set_file : Option Text → Step (Unit {0})
set_file text s = (ok tt, record s { file = text })

abbrev parsed : Text → Option ℕ → Result ℕ PidError
parsed text none = err (parse text)
parsed text (some pid) = ok pid

-- `read`, of a file that may be there.
unfoldable pub read_text : Option IoError → Option Text → Result ℕ PidError
unfolding trim parse_uint
read_text (some e) text = err (io e)
read_text none none = err (io (IoError.not_found []))
read_text none (some text) = parsed (trim text) (parse_uint max_u32 (trim text))

unfoldable pub remove : Option IoError → Step (Unit {0})
remove fault s = elim (s.file) [ none ↦ (ok tt, s) | some text ↦ (do call fault; set_file none) s ]

module _ (running : ℕ → Bool) (own : ℕ) where
  -- `is_process_running` and what follows a reading of the file.
  abbrev pub after_read : Look → Result ℕ PidError → Step (Unit {0})
  after_read look (err e) = remove look.remove
  after_read look (ok pid) =
      if running pid then give (err (already_running pid)) else remove look.remove

  unfoldable pub handle_existing_pid_file : Look → Step (Unit {0})
  unfolding read_text remove
  handle_existing_pid_file look s = after_read look (read_text look.read s.file) s

  -- Another process may create the file, if there is none.
  abbrev pub race : Option Text → Step (Unit {0})
  race raced s = (ok tt, record s { file = or_else s.file raced })

  -- Other processes may do anything to the file.
  abbrev pub change : Option (Option Text) → Step (Unit {0})
  change changed s = (ok tt, record s { file = get_or changed s.file })

  -- `create_new`, the second time.
  abbrev pub open_again : Faults → Bool → Step (Unit {0})
  open_again faults true = give (err (io faults.exists_error))
  open_again faults false = do call faults.open_second; set_file (some [])

  abbrev pub open_new : Faults → Bool → Step (Unit {0})
  open_new faults true = do
    change faults.changed
    handle_existing_pid_file faults.second
    race faults.raced_again
    λ s. open_again faults (is_some s.file) s
  open_new faults false = do call faults.open_first; set_file (some [])

  abbrev pub write_pid : Option (Option Text) → Option (IoError × ℕ) → Step (Unit {0})
  write_pid replaced none = set_file (get_or replaced (some (decimal own)))
  write_pid replaced (some (e, n)) = do
    set_file (get_or replaced (some (take n (decimal own))))
    give (err (io e))

  abbrev pub check_existing : Faults → Bool → Step (Unit {0})
  check_existing faults true = handle_existing_pid_file faults.first
  check_existing faults false = give (ok tt)

  unfoldable pub acquire : Faults → Step (Unit {0})
  unfolding handle_existing_pid_file decimal
  acquire faults = do
    λ s. check_existing faults (is_some s.file) s
    call faults.ensure_runtime_dir
    race faults.raced
    λ s. open_new faults (is_some s.file) s
    write_pid faults.replaced faults.write
    call faults.sync
    call faults.permissions
    λ s. (ok tt, record s { acquired = true })

  unfoldable pub check_stale : Option IoError → PidFile → Result Bool PidError
  unfolding read_text
  check_stale fault s = elim (read_text fault s.file) [
    | err e ↦ err e
    | ok pid ↦ ok (not (running pid))
  ]

unfoldable pub release : Option IoError → Step (Unit {0})
unfolding remove
release fault s =
    if s.acquired
    then (do remove fault; λ s'. (ok tt, record s' { acquired = false })) s
    else (ok tt, s)

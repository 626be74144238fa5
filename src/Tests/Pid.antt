-- ===== src/Tests/Pid.antt =====
-- src/daemon/pid.rs with the process 7 running.
use palingenesis.Prelude.{ℕ, ◌≡◌, refl, none, some, ok, err, [], Bool, true, false, ◌==◌}
use palingenesis.Prelude.Text.{codes, trim, trim_end, trim_start_by, is_whitespace}
use palingenesis.Prelude.Number.{decimal, decimal_from, parse_uint, scan, is_digit}
use palingenesis.Monitor.Frontmatter.{other}
use palingenesis.Daemon.Pid.{
  PidFile, Faults, already_running, parse, acquire, release, check_stale, handle_existing_pid_file,
  read_text, remove,
}
use palingenesis.Daemon.Pid.Acquire.{AcquireEnd, acquire-AcquireEnd, acquire-unparsed}

abbrev pub running : ℕ → Bool
running pid = pid == 7

abbrev pub working : Faults
working = record {
  first = record { read = none; remove = none };
  ensure_runtime_dir = none;
  raced = none;
  open_first = none;
  changed = none;
  second = record { read = none; remove = none };
  raced_again = none;
  open_second = none;
  exists_error = other (codes "File exists");
  replaced = none;
  write = none;
  sync = none;
  permissions = none;
}

abbrev pub other_daemon : PidFile
other_daemon = record { file = some (codes "7\n"); acquired = false }

abbrev stale : PidFile
stale = record { file = some (codes "8"); acquired = false }

-- Another daemon has created the file, and not yet written to it.
abbrev just_created : PidFile
just_created = record { file = some []; acquired = false }

refused : acquire running 5 working other_daemon ≡ (err (already_running 7), other_daemon)
unfolding acquire handle_existing_pid_file read_text remove codes trim trim_end trim_start_by
    is_whitespace parse_uint scan is_digit
refused = refl

replaced :
    acquire running 5 working stale ≡ (ok tt, record { file = some (codes "5"); acquired = true })
unfolding acquire handle_existing_pid_file read_text remove codes trim trim_end trim_start_by
    is_whitespace parse_uint scan is_digit decimal decimal_from
replaced = refl

-- The process 7 takes the file over when it has just been created, and both hold it.
taken_over :
    acquire running 5 (record working { replaced = some (some (codes "7")) }) stale
    ≡ (ok tt, record { file = some (codes "7"); acquired = true })
unfolding acquire handle_existing_pid_file read_text remove codes trim trim_end trim_start_by
    is_whitespace parse_uint scan is_digit decimal decimal_from
taken_over = refl

stale_file : check_stale running 5 none stale ≡ ok true
unfolding check_stale read_text codes trim trim_end trim_start_by is_whitespace parse_uint scan
    is_digit
stale_file = refl

released :
    release none (record { file = some (codes "5"); acquired = true })
    ≡ (ok tt, record { file = none; acquired = false })
unfolding release remove
released = refl

acquire-AcquireEnd_example : AcquireEnd running 5 working stale (acquire running 5 working stale)
acquire-AcquireEnd_example = acquire-AcquireEnd running 5 working stale

acquire-unparsed_example :
    acquire running 5 working just_created
    ≡ (ok tt, record { file = some (decimal 5); acquired = true })
unfolding read_text trim trim_end trim_start_by is_whitespace parse_uint scan is_digit
acquire-unparsed_example =
    acquire-unparsed running 5 working [] (parse []) just_created refl refl refl refl refl refl refl
      refl refl refl

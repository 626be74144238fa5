-- ===== src/Tests/Opencode.antt =====
-- src/opencode/process.rs at a few processes.
use palingenesis.Prelude.{ℕ, ◌≡◌, refl, Bool, false, none, some, List, [], ◌∷◌, ok}
use palingenesis.Prelude.Text.{Text, codes, contains, starts_with, text_eq, ascii_lower}
use palingenesis.Prelude.Int.{pos}
use palingenesis.Monitor.Events.{ProcessInfo}
use palingenesis.Monitor.Process.{ProcessEnumerator}
use palingenesis.Opencode.Process.{
  from_info, opencode_started, opencode_crashed, new, is_serve, is_opencode_serve_command,
  insert_by_pid, sort_by_pid, find_opencode_process, emit_existing_process, send_unless, exit_event,
  emit_exit_event, start_tracking, stop_tracking, poll_found, poll_once, ticks, run_loop,
}
use palingenesis.Opencode.Process.Lowest.{pid_of, lowest, poll_once-lowest}
use palingenesis.Opencode.Process.Tracking.{Tells, run_loop-Tells}

abbrev server : ℕ → ProcessInfo
server pid = record {
  pid = pid;
  command_line = codes "opencode" ∷ codes "Serve" ∷ [];
  start_time = none;
  working_dir = none;
}

abbrev editor : ProcessInfo
editor = record {
  pid = 1;
  command_line = codes "opencode" ∷ [];
  start_time = none;
  working_dir = none;
}

abbrev matches : Text → Bool
matches value = contains value (codes "opencode")

abbrev listing : List ProcessInfo → ProcessEnumerator
listing l = record { list_opencode_processes = ok l; try_get_exit_code = λ pid. some (pos 1) }

abbrev never : ℕ → Bool
never n = false

abbrev polls : List ProcessEnumerator
polls = listing (editor ∷ server 7 ∷ server 3 ∷ []) ∷ listing (server 7 ∷ []) ∷ listing [] ∷ []

sent :
    (run_loop never matches (listing (editor ∷ [])) polls).sent
    ≡ opencode_started (from_info (server 3))
      ∷ opencode_crashed (from_info (server 3)) (pos 1)
      ∷ opencode_started (from_info (server 7))
      ∷ opencode_crashed (from_info (server 7)) (pos 1)
      ∷ []
unfolding run_loop ticks poll_once poll_found start_tracking stop_tracking emit_exit_event
    exit_event send_unless emit_existing_process find_opencode_process is_serve
    is_opencode_serve_command sort_by_pid insert_by_pid codes contains starts_with text_eq
    ascii_lower
sent = refl

run_loop-Tells_example : Tells never (run_loop never matches (listing []) polls)
run_loop-Tells_example = run_loop-Tells never (λ n h. h) matches (listing []) polls

poll_once-lowest_example :
    pid_of
      (poll_once never matches (listing (editor ∷ server 7 ∷ server 3 ∷ [])) new).tracked_process
    ≡ lowest (is_serve matches) (editor ∷ server 7 ∷ server 3 ∷ [])
poll_once-lowest_example =
    poll_once-lowest never matches (listing (editor ∷ server 7 ∷ server 3 ∷ []))
      (editor ∷ server 7 ∷ server 3 ∷ []) new refl refl

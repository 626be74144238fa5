-- ===== src/Tests/Process.antt =====
-- src/monitor/process.rs at a few processes.
use palingenesis.Prelude.{
  ℕ, ◌≡◌, refl, none, some, ok, err, [], ◌∷◌, ◌++◌, false, Bool, List, ltb, not,
}
use palingenesis.Prelude.Text.{codes}
use palingenesis.Prelude.Int.{pos, negsuc}
use palingenesis.Prelude.Number.{parse_uint, scan, is_digit}
use palingenesis.Monitor.Events.{ProcessInfo, started, stopped}
use palingenesis.Monitor.Process.{
  ProcessEnumerator, permission_denied, insert, remove, emit_all, emit_existing_processes,
  start_new, stop_gone, poll_once, ticks, run_loop,
}
use palingenesis.Monitor.Process.Tracking.{replay, run_loop-replay}
use palingenesis.Monitor.Process.Proc.{Outside, parse_i32, parse_from, parse_cmdline}
use palingenesis.Monitor.Process.Proc.Arguments.{arguments, parse_cmdline-arguments}

abbrev info : ℕ → ProcessInfo
info pid = record {
  pid = pid;
  command_line = codes "opencode" ∷ [];
  start_time = none;
  working_dir = none;
}

abbrev listing : List ProcessInfo → ProcessEnumerator
listing l = record { list_opencode_processes = ok l; try_get_exit_code = λ pid. some (pos 0) }

abbrev denied : ProcessEnumerator
denied = record { list_opencode_processes = err permission_denied; try_get_exit_code = λ pid. none }

abbrev never : ℕ → Bool
never n = false

abbrev polls : List ProcessEnumerator
polls = listing (info 2 ∷ info 3 ∷ []) ∷ denied ∷ listing (info 3 ∷ []) ∷ []

events :
    (run_loop never (listing (info 1 ∷ info 2 ∷ [])) polls).sent
    ≡ started (info 1)
      ∷ started (info 2)
      ∷ started (info 3)
      ∷ stopped (info 1) (some (pos 0))
      ∷ stopped (info 2) (some (pos 0))
      ∷ []
unfolding run_loop emit_existing_processes emit_all ticks poll_once start_new stop_gone insert
    remove
events = refl

-- A monitor that is cancelled behind the first poll sees no more.
cancelled_events :
    (run_loop (λ n. not (ltb n 3)) (listing (info 1 ∷ [])) polls).sent
    ≡ started (info 1) ∷ started (info 2) ∷ []
unfolding run_loop emit_existing_processes emit_all ticks poll_once start_new stop_gone insert
    remove
cancelled_events = refl

run_loop-replay_example :
    replay (run_loop never (listing (info 1 ∷ [])) polls).sent []
    ≡ (run_loop never (listing (info 1 ∷ [])) polls).tracked_processes
run_loop-replay_example = run_loop-replay never (λ n. refl) (listing (info 1 ∷ [])) polls

abbrev out : Outside
out = record { lossy = λ bytes. bytes; file_name = λ name. none }

command :
    parse_cmdline out (codes "opencode" ++ 0 ∷ 0 ∷ codes "new")
    ≡ codes "opencode" ∷ codes "new" ∷ []
unfolding parse_cmdline parse_from codes
command = refl

numbers :
    (parse_i32 (codes "-2147483648") ≡ some (negsuc 2147483647))
    × (parse_i32 (codes "2147483648") ≡ none)
unfolding parse_i32 parse_uint scan is_digit codes
numbers = (refl, refl)

parse_cmdline-arguments_example :
    parse_cmdline out (codes "opencode" ++ 0 ∷ codes "new") ≡ codes "opencode" ∷ codes "new" ∷ []
unfolding codes arguments
parse_cmdline-arguments_example = parse_cmdline-arguments out (codes "opencode" ++ 0 ∷ codes "new")

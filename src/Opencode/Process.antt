-- ===== src/Opencode/Process.antt =====
-- src/opencode/process.rs: the monitor of the assistant's server process. As for the monitor of
-- src/monitor/process.rs, what is listed at each poll, the exit codes, and the answer of each
-- reading of the cancellation token are parameters, as is `command_name_matches`. The channel is
-- what was sent to it. The result of the health check is only logged, so that a poll does not
-- depend on it.
pub mod Lowest
pub mod Tracking
use palingenesis.Prelude.{
  ℕ, zero, suc, Bool, true, false, not, ◌&&◌, Option, none, some, List, [], ◌∷◌, ◌++◌, keep, Result,
  ok, err, leb, ◌==◌, any, if◌then◌else◌,
}
use palingenesis.Prelude.Text.{Text, codes, text_eq, to_ascii_lowercase}
use palingenesis.Prelude.Int.{ℤ, pos, negsuc}
use palingenesis.Monitor.Events.{ProcessInfo}
use palingenesis.Monitor.Process.{ProcessEnumerator, ProcessError}

pub record OpenCodeProcess : Type 0 where
  pub pid : ℕ  -- u32
  pub command_line : List Text
  pub start_time : Option ℕ
  pub working_dir : Option Text

-- `From<ProcessInfo>`
abbrev pub from_info : ProcessInfo → OpenCodeProcess
from_info process = record {
  pid = process.pid;
  command_line = process.command_line;
  start_time = process.start_time;
  working_dir = process.working_dir;
}

pub data OpenCodeExitReason : Type 0 where
  normal_exit unknown_exit : OpenCodeExitReason
  signal : ℤ → OpenCodeExitReason

pub data OpenCodeEvent : Type 0 where
  opencode_started : OpenCodeProcess → OpenCodeEvent
  opencode_stopped : OpenCodeProcess → OpenCodeExitReason → OpenCodeEvent
  opencode_crashed : OpenCodeProcess → ℤ → OpenCodeEvent  -- exit code

abbrev pub serve_arg : Text
serve_arg = codes "serve"

-- `eq_ignore_ascii_case`
abbrev pub is_serve_arg : Text → Bool
is_serve_arg arg = text_eq (to_ascii_lowercase arg) serve_arg

unfoldable pub is_opencode_serve_command : (command_name_matches : Text → Bool) → List Text → Bool
unfolding codes text_eq
is_opencode_serve_command command_name_matches [] = false
is_opencode_serve_command command_name_matches (arg ∷ args) =
    if not (any is_serve_arg (arg ∷ args)) then false else any command_name_matches (arg ∷ args)

-- `sort_by_key` is stable: a process stays in front of those whose ID is not smaller.
unfoldable pub insert_by_pid : ProcessInfo → List ProcessInfo → List ProcessInfo
insert_by_pid p [] = p ∷ []
insert_by_pid p (q ∷ rest) =
    let later = insert_by_pid p rest in if leb p.pid q.pid then p ∷ q ∷ rest else q ∷ later

unfoldable pub sort_by_pid : List ProcessInfo → List ProcessInfo
unfolding insert_by_pid
sort_by_pid [] = []
sort_by_pid (p ∷ rest) = insert_by_pid p (sort_by_pid rest)

-- `into_iter().next()`
abbrev pub first : List ProcessInfo → Option ProcessInfo
first [] = none
first (p ∷ rest) = some p

unfoldable pub exit_event : Option ℤ → OpenCodeProcess → OpenCodeEvent
exit_event none process = opencode_stopped process unknown_exit
exit_event (some (pos zero)) process = opencode_stopped process normal_exit
exit_event (some (pos (suc n))) process = opencode_crashed process (pos (suc n))
exit_event (some (negsuc n)) process = opencode_crashed process (negsuc n)

-- What the health check gets: the request's failure, or the status and the body.
pub data HealthAnswer : Type 0 where
  unreachable : HealthAnswer
  answered : (is_success : Bool) → (healthy : Option Bool) → HealthAnswer

abbrev pub check_health : HealthAnswer → Bool
check_health unreachable = false
check_health (answered false healthy) = false
check_health (answered true none) = false
check_health (answered true (some healthy)) = healthy

-- `OpenCodeMonitorState`, with what was sent, and how often the token was read.
pub record OpenCodeMonitorState : Type 0 where
  pub tracked_process : Option ProcessInfo
  pub sent : List OpenCodeEvent
  pub reads : ℕ

abbrev pub new : OpenCodeMonitorState
new = record { tracked_process = none; sent = []; reads = 0 }

abbrev pub send : OpenCodeEvent → OpenCodeMonitorState → OpenCodeMonitorState
send event s = record s { sent = s.sent ++ event ∷ [] }

abbrev pub track : Option ProcessInfo → OpenCodeMonitorState → OpenCodeMonitorState
track process s = record s { tracked_process = process }

abbrev pub read : OpenCodeMonitorState → OpenCodeMonitorState
read s = record s { reads = suc s.reads }

module _ (command_name_matches : Text → Bool) where
  unfoldable pub is_serve : ProcessInfo → Bool
  unfolding is_opencode_serve_command
  is_serve process = is_opencode_serve_command command_name_matches process.command_line

  unfoldable pub find_opencode_process :
      ProcessEnumerator → Result (Option ProcessInfo) ProcessError
  unfolding sort_by_pid is_serve
  find_opencode_process enumerator = elim (enumerator.list_opencode_processes) [
    | err e ↦ err e
    | ok processes ↦ ok (first (sort_by_pid (keep is_serve processes)))
  ]

  abbrev pub emit_found :
      Result (Option ProcessInfo) ProcessError → OpenCodeMonitorState → OpenCodeMonitorState
  emit_found (err e) s = s
  emit_found (ok none) s = s
  emit_found (ok (some process)) s =
      send (opencode_started (from_info process)) (track (some process) s)

  -- An error of the enumeration is logged.
  unfoldable pub emit_existing_process :
      ProcessEnumerator → OpenCodeMonitorState → OpenCodeMonitorState
  unfolding find_opencode_process
  emit_existing_process enumerator s = emit_found (find_opencode_process enumerator) s

-- An event, behind a reading of the token.
unfoldable pub send_unless :
    (is_cancelled : Bool) → OpenCodeEvent → OpenCodeMonitorState → OpenCodeMonitorState
send_unless true event s = read s
send_unless false event s = send event (read s)

module _ (cancelled : ℕ → Bool) where
  abbrev pub send_unless_cancelled : OpenCodeEvent → OpenCodeMonitorState → OpenCodeMonitorState
  send_unless_cancelled event s = send_unless (cancelled s.reads) event s

  unfoldable pub emit_exit_event :
      (ℕ → Option ℤ) → ProcessInfo → OpenCodeMonitorState → OpenCodeMonitorState
  unfolding exit_event send_unless
  emit_exit_event exit_code process s =
      send_unless_cancelled (exit_event (exit_code process.pid) (from_info process)) s

  unfoldable pub start_tracking : ProcessInfo → OpenCodeMonitorState → OpenCodeMonitorState
  unfolding send_unless
  start_tracking process s =
      send_unless_cancelled (opencode_started (from_info process)) (track (some process) s)

  unfoldable pub stop_tracking :
      (ℕ → Option ℤ) → ProcessInfo → OpenCodeMonitorState → OpenCodeMonitorState
  unfolding emit_exit_event
  stop_tracking exit_code previous s = emit_exit_event exit_code previous (track none s)

  -- The cases of `poll_once`, for what is tracked and what is found.
  unfoldable pub poll_found :
      (ℕ → Option ℤ)
      → (tracked current : Option ProcessInfo) → OpenCodeMonitorState
      → OpenCodeMonitorState
  unfolding start_tracking stop_tracking
  poll_found exit_code none none s = s
  poll_found exit_code none (some process) s = start_tracking process s
  poll_found exit_code (some previous) none s = stop_tracking exit_code previous s
  poll_found exit_code (some previous) (some process) s = elim (previous.pid == process.pid) [
    | true ↦ s
    | false ↦ start_tracking process (stop_tracking exit_code previous s)
  ]

  abbrev pub poll_listed :
      (ℕ → Option ℤ)
      → Result (Option ProcessInfo) ProcessError
      → OpenCodeMonitorState
      → OpenCodeMonitorState
  poll_listed exit_code (err e) s = s
  poll_listed exit_code (ok current) s = poll_found exit_code s.tracked_process current s

  module _ (command_name_matches : Text → Bool) where
    unfoldable pub poll_once : ProcessEnumerator → OpenCodeMonitorState → OpenCodeMonitorState
    unfolding find_opencode_process poll_found
    poll_once enumerator s = elim (cancelled s.reads) [
      | true ↦ read s
      | false ↦
          poll_listed enumerator.try_get_exit_code
            (find_opencode_process command_name_matches enumerator) (read s)
    ]

    -- The ticks of the loop, up to the first at which the token is cancelled.
    unfoldable pub ticks : List ProcessEnumerator → OpenCodeMonitorState → OpenCodeMonitorState
    unfolding poll_once
    ticks [] s = s
    ticks (enumerator ∷ rest) s = elim (cancelled s.reads) [
      | true ↦ read s
      | false ↦ ticks rest (poll_once enumerator (read s))
    ]

    unfoldable pub run_loop : ProcessEnumerator → List ProcessEnumerator → OpenCodeMonitorState
    unfolding emit_existing_process ticks
    run_loop first_listing polls =
        ticks polls (emit_existing_process command_name_matches first_listing new)

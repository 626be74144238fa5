-- ===== src/Monitor/Process.antt =====
-- src/monitor/process.rs: the monitor of the assistant's processes. What the enumerator lists and the
-- exit codes are parameters, and so is the answer of each reading of the cancellation token. The map
-- of processes is a list with one entry for a process ID; the channel is what was sent to it.
pub mod Proc
pub mod Tracking
use palingenesis.Prelude.{
  ℕ, suc, Bool, true, false, not, Option, none, some, List, [], ◌∷◌, ◌++◌, map, keep_if, Result, ok,
  err, ◌==◌, any,
}
use palingenesis.Prelude.Time.{Duration, from_millis}
use palingenesis.Prelude.Text.{Text}
use palingenesis.Prelude.Int.{ℤ}
use palingenesis.Monitor.Frontmatter.{IoError}
use palingenesis.Monitor.Events.{ProcessInfo, ProcessEvent, started, stopped}

pub data ProcessError : Type 0 where
  io : IoError → ProcessError
  enumeration_failed : Text → ProcessError
  permission_denied : ProcessError

abbrev pub default_poll_interval : Duration
default_poll_interval = from_millis 1000

-- The enumerator, at the time of one poll.
pub record ProcessEnumerator : Type 0 where
  pub list_opencode_processes : Result (List ProcessInfo) ProcessError
  pub try_get_exit_code : ℕ → Option ℤ

abbrev pub Tracked : Type 0
Tracked = List ProcessInfo

abbrev pub has : ℕ → List ProcessInfo → Bool
has pid = any (λ info. info.pid == pid)

unfoldable pub remove : ℕ → Tracked → Tracked
remove pid [] = []
remove pid (info ∷ rest) = keep_if (not (info.pid == pid)) info (remove pid rest)

unfoldable pub insert : ProcessInfo → Tracked → Tracked
unfolding remove
insert info tracked = info ∷ remove info.pid tracked

-- `ProcessMonitorState`, with what was sent, and how often the token was read.
pub record ProcessMonitorState : Type 0 where
  pub tracked_processes : Tracked
  pub sent : List ProcessEvent
  pub reads : ℕ

abbrev pub new : ProcessMonitorState
new = record { tracked_processes = []; sent = []; reads = 0 }

abbrev pub send : ProcessEvent → ProcessMonitorState → ProcessMonitorState
send event s = record s { sent = s.sent ++ event ∷ [] }

abbrev pub track : ProcessInfo → ProcessMonitorState → ProcessMonitorState
track info s = record s { tracked_processes = insert info s.tracked_processes }

abbrev pub forget : ℕ → ProcessMonitorState → ProcessMonitorState
forget pid s = record s { tracked_processes = remove pid s.tracked_processes }

abbrev pub read : ProcessMonitorState → ProcessMonitorState
read s = record s { reads = suc s.reads }

unfoldable pub emit_all : List ProcessInfo → ProcessMonitorState → ProcessMonitorState
emit_all [] s = s
emit_all (info ∷ rest) s = emit_all rest (send (started info) (track info s))

-- An error of the enumeration is logged.
unfoldable pub emit_existing_processes :
    ProcessEnumerator → ProcessMonitorState → ProcessMonitorState
unfolding emit_all
emit_existing_processes enumerator s = elim (enumerator.list_opencode_processes) [
  | ok initial ↦ emit_all initial s
  | err e ↦ s
]

abbrev pub find : ℕ → Tracked → Option ProcessInfo
find pid [] = none
find pid (info ∷ rest) = elim (info.pid == pid) [ true ↦ some info | false ↦ find pid rest ]

-- The IDs that are tracked and no longer listed.
abbrev pub gone : List ProcessInfo → Tracked → List ℕ
gone current [] = []
gone current (info ∷ rest) = keep_if (not (has info.pid current)) info.pid (gone current rest)

module _ (cancelled : ℕ → Bool) where
  -- The first loop of `poll_once`; the Boolean says that it returned early.
  unfoldable pub start_new : List ProcessInfo → ProcessMonitorState → Bool × ProcessMonitorState
  start_new [] s = (false, s)
  start_new (info ∷ rest) s = elim (has info.pid s.tracked_processes) [
    | true ↦ start_new rest s
    | false ↦ elim (cancelled s.reads) [
      | true ↦ (true, read (track info s))
      | false ↦ start_new rest (send (started info) (read (track info s)))
    ]
  ]

  -- The second loop, over those IDs.
  unfoldable pub stop_gone : (ℕ → Option ℤ) → List ℕ → ProcessMonitorState → ProcessMonitorState
  stop_gone exit_code [] s = s
  stop_gone exit_code (pid ∷ rest) s = elim (find pid s.tracked_processes) [
    | none ↦ stop_gone exit_code rest s
    | some info ↦ elim (cancelled s.reads) [
      | true ↦ read (forget pid s)
      | false ↦ stop_gone exit_code rest (send (stopped info (exit_code pid)) (read (forget pid s)))
    ]
  ]

  abbrev pub stop_unless :
      (ℕ → Option ℤ) → List ProcessInfo → Bool × ProcessMonitorState → ProcessMonitorState
  stop_unless exit_code current (true, s) = s
  stop_unless exit_code current (false, s) =
      stop_gone exit_code (gone current s.tracked_processes) s

  abbrev pub poll_listed :
      (ℕ → Option ℤ)
      → Result (List ProcessInfo) ProcessError
      → ProcessMonitorState
      → ProcessMonitorState
  poll_listed exit_code (err e) s = s
  poll_listed exit_code (ok current) s = stop_unless exit_code current (start_new current s)

  unfoldable pub poll_once : ProcessEnumerator → ProcessMonitorState → ProcessMonitorState
  unfolding start_new stop_gone
  poll_once enumerator s = elim (cancelled s.reads) [
    | true ↦ read s
    | false ↦ poll_listed enumerator.try_get_exit_code enumerator.list_opencode_processes (read s)
  ]

  -- The ticks of the loop, up to the first at which the token is cancelled.
  unfoldable pub ticks : List ProcessEnumerator → ProcessMonitorState → ProcessMonitorState
  unfolding poll_once
  ticks [] s = s
  ticks (enumerator ∷ rest) s = elim (cancelled s.reads) [
    | true ↦ read s
    | false ↦ ticks rest (poll_once enumerator (read s))
  ]

  unfoldable pub run_loop : ProcessEnumerator → List ProcessEnumerator → ProcessMonitorState
  unfolding emit_existing_processes ticks
  run_loop first polls = ticks polls (emit_existing_processes first new)

-- ===== src/Daemon/Shutdown.antt =====
-- src/daemon/shutdown.rs: the end of the daemon's tasks. A task is the time that it takes to finish
-- after the cancellation, or none if it never does; it is waited for even if it finishes at the
-- limit.
use palingenesis.Prelude.{
  ℕ, max, Bool, false, not, Option, none, some, List, [], ◌∷◌, leb, length, keep, if◌then◌else◌,
}
use palingenesis.Prelude.Time.{Duration, from_secs}

abbrev pub shutdown_timeout : Duration
shutdown_timeout = from_secs 10

abbrev pub Task : Type 0
Task = Option Duration

pub data ShutdownResult : Type 0 where
  graceful : ShutdownResult
  timed_out : (hung_tasks : ℕ) → ShutdownResult

abbrev pub later : Duration → Option Duration → Option Duration
later t none = none
later t (some u) = some (max t u)

-- The tasks are awaited one after the other.
unfoldable pub await_all : List Task → Option Duration
await_all [] = some 0
await_all (none ∷ rest) = none
await_all (some t ∷ rest) = later t (await_all rest)

abbrev pub is_finished : Duration → Task → Bool
is_finished now none = false
is_finished now (some t) = leb t now

-- What is left at the limit is counted, and aborted.
abbrev pub hung : List Task → ℕ
hung tasks = length (keep (λ task. not (is_finished shutdown_timeout task)) tasks)

abbrev pub ended : List Task → Option Duration → ShutdownResult
ended tasks none = timed_out (hung tasks)
ended tasks (some t) = if leb t shutdown_timeout then graceful else timed_out (hung tasks)

unfoldable pub shutdown : List Task → ShutdownResult
unfolding await_all
shutdown tasks = ended tasks (await_all tasks)

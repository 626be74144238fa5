-- ===== src/Monitor/Watcher/Start.antt =====
-- The start of the watcher of src/monitor/watcher.rs: the wait for a session directory that does not
-- exist yet, and the flag that lets one task run at a time. The parent of the directory, whether it
-- exists at a moment, and what the watcher of the parent reports, are inputs.
use palingenesis.Prelude.{
  ℕ, Bool, true, false, ◌&&◌, Option, none, some, List, [], ◌∷◌, Result, ok, err, any,
}
use palingenesis.Prelude.Time.{Duration}
use palingenesis.Prelude.Text.{Text, text_eq}
use palingenesis.Monitor.Events.{directory_created}
use palingenesis.Monitor.Watcher.{
  WatcherError, notify_error, directory_not_found, already_running, EventKind, create, modify,
  remove_kind, noise, DebouncedEvent, is_core_event, Channel, send, Input, start_watching,
  default_debounce,
}
use palingenesis.Monitor.Watcher.Retry.{watch_with_retry}

pub record SessionWatcher : Type 0 where
  pub session_dir : Text
  pub debounce : Duration
  pub running : Bool

abbrev pub with_path : Text → SessionWatcher
with_path path = record { session_dir = path; debounce = default_debounce; running = false }

abbrev pub with_debounce : SessionWatcher → Duration → SessionWatcher
with_debounce watcher duration = record watcher { debounce = duration }

-- `EventKind::is_create`
abbrev pub is_create : EventKind → Bool
is_create (create _) = true
is_create modify = false
is_create remove_kind = false
is_create noise = false

-- `event.paths.iter().any(|path| path == session_dir)` and the two tests beside it.
abbrev pub creates : Text → DebouncedEvent → Bool
creates session_dir event =
    is_core_event event.kind && any (text_eq session_dir) event.paths && is_create event.kind

-- A turn of the loop that waits: whether the directory exists when it begins, and the notification
-- that is received if it does not. The list ends at the cancellation.
pub record Turn : Type 0 where
  pub exists : Bool
  pub result : Result DebouncedEvent Text

-- What the task meets: the parent of the directory, whether the directory exists at the first and
-- at the second look, the failures of making the watcher of the parent and the debouncer, the
-- answers of the calls that watch the parent and those that watch the directory, the turns of the
-- first loop, whether the directory exists at the last look, and the inputs of the second loop.
pub record World : Type 0 where
  pub parent : Option Text
  pub exists_first : Bool
  pub exists_second : Bool
  pub new_watcher : Option Text
  pub watch_parent : ℕ → Result (Unit {0}) Text
  pub new_debouncer : Option Text
  pub watch_dir : ℕ → Result (Unit {0}) Text
  pub turns : List Turn
  pub exists_last : Bool
  pub inputs : List Input

module _ (accepts : ℕ → Bool) where
  -- The loop; the last turn is the one in which the cancellation is seen.
  unfoldable pub wait_loop : Text → List Turn → (exists_last : Bool) → Channel → Channel
  wait_loop dir [] exists_last c = elim exists_last [
    | true ↦ send accepts (directory_created dir) c
    | false ↦ c
  ]
  wait_loop dir (turn ∷ turns) exists_last c = elim turn.exists [
    | true ↦ send accepts (directory_created dir) c
    | false ↦ elim turn.result [
      | err e ↦ wait_loop dir turns exists_last c
      | ok event ↦ elim (creates dir event) [
        | true ↦ send accepts (directory_created dir) c
        | false ↦ wait_loop dir turns exists_last c
      ]
    ]
  ]

  unfoldable pub wait_for_directory_creation :
      Text → World → Channel → Result (Unit {0}) WatcherError × Channel
  unfolding wait_loop
  wait_for_directory_creation dir w c = elim w.parent [
    | none ↦ (err (directory_not_found dir), c)
    | some parent ↦ elim w.exists_second [
      | true ↦ (ok tt, send accepts (directory_created dir) c)
      | false ↦ elim (w.new_watcher) [
        | some e ↦ (err (notify_error e), c)
        | none ↦ elim ((watch_with_retry w.watch_parent).0) [
          | err e ↦ (err (notify_error e), c)
          | ok _ ↦ (ok tt, wait_loop dir w.turns w.exists_last c)
        ]
      ]
    ]
  ]

  abbrev pub then_watch :
      World → Result (Unit {0}) WatcherError × Channel → Result (Unit {0}) WatcherError × Channel
  then_watch w (err e, c) = (err e, c)
  then_watch w (ok _, c) = start_watching accepts w.new_debouncer w.watch_dir w.inputs c

  unfoldable pub run_watcher_task :
      Text → World → Channel → Result (Unit {0}) WatcherError × Channel
  unfolding wait_for_directory_creation
  run_watcher_task dir w c = elim w.exists_first [
    | true ↦ start_watching accepts w.new_debouncer w.watch_dir w.inputs c
    | false ↦ then_watch w (wait_for_directory_creation dir w c)
  ]

-- `SessionWatcher::run`: the new flag, and whether a task is spawned.
unfoldable pub run : SessionWatcher → SessionWatcher × Result (Unit {0}) WatcherError
run watcher = elim watcher.running [
  | true ↦ (watcher, err already_running)
  | false ↦ (record watcher { running = true }, ok tt)
]

-- `RunningGuard::drop`, at the end of the task.
abbrev pub drop_guard : SessionWatcher → SessionWatcher
drop_guard watcher = record watcher { running = false }

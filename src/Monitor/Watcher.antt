-- ===== src/Monitor/Watcher.antt =====
-- src/monitor/watcher.rs: the watcher of the session directory. The file system notifications
-- (notify, notify_debouncer_full) are inputs, their kinds as far as the code tells them apart; what
-- exists, the answers of the calls that start a watch, and whether the receiver still takes an
-- event, are parameters. The buffer is a list with one entry for a path, drained in its order.
pub mod Retry
pub mod Latest
pub mod Start
use palingenesis.Prelude.{
  ℕ, zero, suc, Bool, true, false, not, ◌&&◌, Option, none, some, List, [], ◌∷◌, ◌++◌, Result, ok,
  err, any, if◌then◌else◌,
}
use palingenesis.Prelude.Time.{Duration, from_millis}
use palingenesis.Prelude.Text.{Text, codes, text_eq}
use palingenesis.Monitor.Events.{
  WatchEvent, file_created, file_modified, file_deleted, directory_created, watch_error,
}
use palingenesis.Monitor.Watcher.Retry.{watch_with_retry}

pub data CreateKind : Type 0 where
  folder other_create : CreateKind

-- `notify::EventKind`; `noise` is an access or any other kind.
pub data EventKind : Type 0 where
  create : CreateKind → EventKind
  modify remove_kind noise : EventKind

pub data WatcherError : Type 0 where
  notify_error : Text → WatcherError
  directory_not_found : Text → WatcherError
  already_running : WatcherError

abbrev pub default_session_dir_name : Text
default_session_dir_name = codes ".opencode"

abbrev pub default_debounce : Duration
default_debounce = from_millis 100

-- `home_dir` and `Path::join`.
abbrev pub default_session_dir : Option Text → (Text → Text → Text) → Text
default_session_dir none join = join (codes ".") default_session_dir_name
default_session_dir (some home) join = join home default_session_dir_name

pub record DebouncedEvent : Type 0 where
  pub kind : EventKind
  pub paths : List Text

abbrev pub is_core_event : EventKind → Bool
is_core_event (create _) = true
is_core_event modify = true
is_core_event remove_kind = true
is_core_event noise = false

abbrev pub map_core : EventKind → Text → Option WatchEvent
map_core (create folder) path = some (directory_created path)
map_core (create other_create) path = some (file_created path)
map_core modify path = some (file_modified path)
map_core remove_kind path = some (file_deleted path)
map_core noise path = none

abbrev pub map_event : EventKind → Text → Option WatchEvent
map_event kind path = if not (is_core_event kind) then none else map_core kind path

abbrev pub Buffer : Type 0
Buffer = List (Text × EventKind)

abbrev pub lookup : Text → Buffer → Option EventKind
lookup path [] = none
lookup path ((p, kind) ∷ rest) = if text_eq p path then some kind else lookup path rest

unfoldable pub remove : Text → Buffer → Buffer
remove path [] = []
remove path ((p, kind) ∷ rest) =
    let others = remove path rest in if text_eq p path then others else (p, kind) ∷ others

-- `HashMap::insert`
abbrev pub insert : Text → EventKind → Buffer → Buffer
insert path kind buffer = (path, kind) ∷ remove path buffer

unfoldable pub insert_all : List Text → EventKind → Buffer → Buffer
unfolding remove
insert_all [] kind buffer = buffer
insert_all (path ∷ paths) kind buffer = insert_all paths kind (insert path kind buffer)

unfoldable pub buffer_event : DebouncedEvent → Buffer → Buffer
unfolding insert_all
buffer_event event buffer =
    if not (is_core_event event.kind) then buffer else insert_all event.paths event.kind buffer

abbrev pub buffer_events : List DebouncedEvent → Buffer → Buffer
buffer_events [] buffer = buffer
buffer_events (event ∷ events) buffer = buffer_events events (buffer_event event buffer)

-- What the receiver got, and how often it was tried.
pub record Channel : Type 0 where
  pub sent : List WatchEvent
  pub attempts : ℕ

abbrev pub empty : Channel
empty = record { sent = []; attempts = 0 }

pub record Watch : Type 0 where
  pub buffer : Buffer
  pub channel : Channel

-- What the loop of the watcher receives before it is cancelled.
pub data Input : Type 0 where
  debounced : Result (List DebouncedEvent) (List Text) → Input
  tick : Input

abbrev pub delivered : WatchEvent → Channel → Channel
delivered event c = record { sent = c.sent ++ event ∷ []; attempts = suc c.attempts }

abbrev pub refused : Channel → Channel
refused c = record c { attempts = suc c.attempts }

-- The answer of the n-th `tx.send`: whether the receiver is still there.
module _ (accepts : ℕ → Bool) where
  abbrev pub send : WatchEvent → Channel → Channel
  send event c = if accepts c.attempts then delivered event c else refused c

  unfoldable pub flush_entries : Buffer → Channel → Channel
  flush_entries [] c = c
  flush_entries ((path, kind) ∷ rest) c = elim (map_event kind path) [
    | none ↦ flush_entries rest c
    | some event ↦ elim (accepts c.attempts) [
      | true ↦ flush_entries rest (delivered event c)
      | false ↦ refused c
    ]
  ]

  -- The buffer is empty afterwards, also when the receiver is gone.
  unfoldable pub flush_buffer : Watch → Watch
  unfolding flush_entries
  flush_buffer w = record { buffer = []; channel = flush_entries w.buffer w.channel }

  abbrev pub send_errors : List Text → Channel → Channel
  send_errors [] c = c
  send_errors (e ∷ errors) c = send_errors errors (send (watch_error e) c)

  unfoldable pub handle_debounce_result : Result (List DebouncedEvent) (List Text) → Watch → Watch
  unfolding buffer_event
  handle_debounce_result (ok events) w = record w { buffer = buffer_events events w.buffer }
  handle_debounce_result (err errors) w = record w { channel = send_errors errors w.channel }

  -- The loop, and the flush at its cancellation.
  unfoldable pub watch_loop : List Input → Watch → Watch
  unfolding flush_buffer handle_debounce_result
  watch_loop [] w = flush_buffer w
  watch_loop (tick ∷ inputs) w = watch_loop inputs (flush_buffer w)
  watch_loop (debounced result ∷ inputs) w = watch_loop inputs (handle_debounce_result result w)

  -- The failure of `new_debouncer`, if it fails; the calls that start the watch; then the loop.
  unfoldable pub start_watching :
      Option Text
      → (ℕ → Result (Unit {0}) Text)
      → List Input
      → Channel
      → Result (Unit {0}) WatcherError × Channel
  unfolding watch_loop watch_with_retry
  start_watching new_debouncer try inputs c = elim new_debouncer [
    | some e ↦ (err (notify_error e), c)
    | none ↦ elim ((watch_with_retry try).0) [
      | err e ↦ (err (notify_error e), c)
      | ok _ ↦ (ok tt, (watch_loop inputs (record { buffer = []; channel = c })).channel)
    ]
  ]

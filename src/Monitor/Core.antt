-- ===== src/Monitor/Core.antt =====
-- src/monitor/core.rs: the monitor's handlers and its loop. The channel to the receiver, the
-- metrics and the file system are parameters.
pub mod Current
use palingenesis.Prelude.{
  ℕ, ◌+◌, ◌%◌, ◌^◌, Bool, true, false, List, [], ◌∷◌, Option, none, some, get_or, if◌then◌else◌,
}
use palingenesis.Prelude.Time.{Duration}
use palingenesis.Prelude.Text.{Text, codes, text_eq}
use palingenesis.Prelude.Int.{ℤ}
use palingenesis.Prelude.Float.{FloatOps}
use palingenesis.Monitor.Session.{Session}
use palingenesis.Monitor.Classifier.Types.{
  ClassificationResult, StopReasonClassifier, metrics_reason_label,
}
use palingenesis.Monitor.Classifier.Detect
use palingenesis.Monitor.Classifier.Classify.{classify, classify_content}
use palingenesis.Monitor.Events.{
  WatchEvent, file_created, file_modified, file_deleted, directory_created, watch_error,
  ProcessInfo, ProcessEvent, started, stopped, MonitorEvent, session_changed, process_started,
  process_stopped, session_stopped, error,
}
use palingenesis.Monitor.Parser.{Sessions, handle_event}

-- The answer of `try_send` on a channel in a state of `Q`.
pub data Sent : Type 0 where
  delivered full closed : Sent

pub record Outside (F Q : Type 0) : Type 0 where
  pub files : Detect.Outside
  pub send : MonitorEvent F → Q → Sent × Q
  -- `Metrics::global()` is there.
  pub metrics : Bool
  -- `estimate_detection_latency` for a session's file.
  pub latency : Session → Option Duration

-- The monitor, the channel, and what the metrics were told of detections: a latency and a label.
pub record Monitor (F Q : Type 0) : Type 0 where
  pub sessions : Sessions
  pub current_session : Option Session
  pub errors_count : ℕ  -- u64
  pub dropped_events : ℕ  -- u64
  pub channel : Q
  pub detections : List (Duration × Text)

-- What the loop receives, in the order in which `select!` takes it.
pub data Input : Type 0 where
  cancelled : Input
  watched : WatchEvent → Input
  watcher_closed : Input
  processed : ProcessEvent → Input
  process_closed : Input

abbrev pub is_path : Text → Option Session → Bool
is_path path none = false
is_path path (some session) = text_eq session.path path

module _ {F Q : Type 0} (fl : FloatOps F) (out : Outside F Q)
    (classifier : StopReasonClassifier F) where
  abbrev after_send : Monitor F Q → Sent × Q → Monitor F Q
  after_send m (full, q) = record m {
    dropped_events = (m.dropped_events + 1) % 2 ^ 64;
    channel = q;
  }
  after_send m (_, q) = record m { channel = q }

  unfoldable pub try_send : MonitorEvent F → Monitor F Q → Monitor F Q
  try_send event m = after_send m (out.send event m.channel)

  -- A deleted file takes the current session with it.
  abbrev forget : WatchEvent → Monitor F Q → Monitor F Q
  forget (file_deleted path) m = record m {
    current_session = if is_path path m.current_session then none else m.current_session;
  }
  forget _ m = m

  abbrev count_error : MonitorEvent F → Monitor F Q → Monitor F Q
  count_error (error source message true) m = record m {
    errors_count = (m.errors_count + 1) % 2 ^ 64;
  }
  count_error _ m = m

  abbrev take_current : MonitorEvent F → Monitor F Q → Monitor F Q
  take_current (session_changed session previous) m = record m { current_session = some session }
  take_current _ m = m

  abbrev after_event : Option (MonitorEvent F) × Sessions → Monitor F Q → Monitor F Q
  after_event (none, sessions) m = record m { sessions = sessions }
  after_event (some event, sessions) m =
      try_send event (count_error event (take_current event (record m { sessions = sessions })))

  unfoldable pub handle_watch_event : WatchEvent → Monitor F Q → Monitor F Q
  handle_watch_event event m =
      let m' = forget event m in
      after_event (handle_event out.files.files out.files.from_yaml event m'.sessions) m'

  abbrev classification : Option Session → Option ℤ → ClassificationResult F
  classification (some session) exit_code = classify fl out.files classifier session.path exit_code
  classification none exit_code = classify_content fl out.files classifier (codes "") exit_code

  abbrev latency_of : Option Session → Option Duration
  latency_of none = none
  latency_of (some session) = out.latency session

  abbrev push_detection : Bool → Option Duration → Text → Monitor F Q → Monitor F Q
  push_detection true (some d) reason m = record m { detections = (d, reason) ∷ m.detections }
  push_detection _ _ reason m = m

  abbrev record_detection : ClassificationResult F → Monitor F Q → Monitor F Q
  record_detection c m =
      push_detection out.metrics (latency_of m.current_session)
        (get_or (metrics_reason_label c.reason) (codes "unknown")) m

  unfoldable pub handle_process_event : ProcessEvent → Monitor F Q → Monitor F Q
  unfolding try_send
  handle_process_event (started info) m = try_send (process_started info) m
  handle_process_event (stopped info exit_code) m =
      let m₁ = try_send (process_stopped info exit_code) m in
      let c = classification m₁.current_session exit_code in
      let m₂ = record_detection c m₁ in
      try_send (session_stopped m₂.current_session c.reason c (some info)) m₂

  -- The loop ends at a cancellation or a closed watcher; a closed process channel is read no more.
  unfoldable pub event_loop : List Input → Bool → Monitor F Q → Monitor F Q
  unfolding handle_watch_event handle_process_event
  event_loop [] processes m = m
  event_loop (cancelled ∷ inputs) processes m = m
  event_loop (watcher_closed ∷ inputs) processes m = m
  event_loop (watched event ∷ inputs) processes m =
      event_loop inputs processes (handle_watch_event event m)
  event_loop (process_closed ∷ inputs) processes m = event_loop inputs false m
  event_loop (processed event ∷ inputs) processes m =
      event_loop inputs processes (if processes then handle_process_event event m else m)

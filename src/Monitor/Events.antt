-- ===== src/Monitor/Events.antt =====
-- src/monitor/events.rs, and the events of src/monitor/process.rs.
use palingenesis.Prelude.{ℕ, Bool, List, Option}
use palingenesis.Prelude.Text.{Text}
use palingenesis.Prelude.Int.{ℤ}
use palingenesis.Monitor.Session.{Session}
use palingenesis.Monitor.Classifier.Types.{ClassificationResult, StopReason}

pub data WatchEvent : Type 0 where
  file_created : Text → WatchEvent
  file_modified : Text → WatchEvent
  file_deleted : Text → WatchEvent
  directory_created : Text → WatchEvent
  watch_error : Text → WatchEvent

pub record ProcessInfo : Type 0 where
  pub pid : ℕ  -- u32
  pub command_line : List Text
  pub start_time : Option ℕ
  pub working_dir : Option Text

pub data ProcessEvent : Type 0 where
  started : ProcessInfo → ProcessEvent
  stopped : ProcessInfo → Option ℤ → ProcessEvent  -- exit code

pub data MonitorEvent (F : Type 0) : Type 0 where
  session_changed : Session → Option Session → MonitorEvent F  -- session, previous
  process_started : ProcessInfo → MonitorEvent F
  process_stopped : ProcessInfo → Option ℤ → MonitorEvent F
  session_stopped :
      Option Session → StopReason F → ClassificationResult F → Option ProcessInfo → MonitorEvent F
  error : Text → Text → Bool → MonitorEvent F  -- source, message, recoverable

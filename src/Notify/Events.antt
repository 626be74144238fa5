-- ===== src/Notify/Events.antt =====
-- src/notify/events.rs: the events that the channels send.
use palingenesis.Prelude.{ℕ, Option}
use palingenesis.Prelude.Text.{Text, codes}

pub data EventSeverity : Type 0 where
  info warning error : EventSeverity

pub data NotificationEvent : Type 0 where
  session_stopped :
      (timestamp : ℕ) (session_path stop_reason : Text) (details : Option Text) → NotificationEvent
  resume_attempted : (timestamp : ℕ) (session_path strategy : Text) → NotificationEvent
  resume_succeeded :
      (timestamp : ℕ) (session_path strategy : Text) (wait_time_secs : ℕ) → NotificationEvent
  resume_failed : (timestamp : ℕ) (session_path strategy message : Text) → NotificationEvent
  daemon_started : (timestamp : ℕ) (version : Text) → NotificationEvent
  daemon_stopped : (timestamp : ℕ) (reason : Text) → NotificationEvent

abbrev pub timestamp : NotificationEvent → ℕ
timestamp (session_stopped t _ _ _) = t
timestamp (resume_attempted t _ _) = t
timestamp (resume_succeeded t _ _ _) = t
timestamp (resume_failed t _ _ _) = t
timestamp (daemon_started t _) = t
timestamp (daemon_stopped t _) = t

unfoldable pub event_type : NotificationEvent → Text
unfolding codes
event_type (session_stopped _ _ _ _) = codes "session_stopped"
event_type (resume_attempted _ _ _) = codes "resume_attempted"
event_type (resume_succeeded _ _ _ _) = codes "resume_succeeded"
event_type (resume_failed _ _ _ _) = codes "resume_failed"
event_type (daemon_started _ _) = codes "daemon_started"
event_type (daemon_stopped _ _) = codes "daemon_stopped"

abbrev pub severity : NotificationEvent → EventSeverity
severity (session_stopped _ _ _ _) = warning
severity (resume_attempted _ _ _) = info
severity (resume_succeeded _ _ _ _) = info
severity (resume_failed _ _ _ _) = error
severity (daemon_started _ _) = info
severity (daemon_stopped _ _) = warning

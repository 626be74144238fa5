-- ===== src/Resume/Context.antt =====
-- src/resume/context.rs: what a resume strategy is told. A time stamp is a number.
use palingenesis.Prelude.{ℕ, Option, none, some}
use palingenesis.Prelude.Time.{Duration}
use palingenesis.Prelude.Words.{add_u32}
use palingenesis.Prelude.Text.{Text}
use palingenesis.Monitor.Session.{Session}
use palingenesis.Monitor.Classifier.Types.{StopReason}

pub record ResumeContext (F : Type 0) : Type 0 where
  pub session_path : Text
  pub stop_reason : StopReason F
  pub retry_after : Option Duration
  pub session_metadata : Option Session
  pub attempt_number : ℕ  -- u32
  pub timestamp : ℕ

module _ {F : Type 0} where
  unfoldable pub new : Text → StopReason F → ℕ → ResumeContext F
  new session_path stop_reason now = record {
    session_path = session_path;
    stop_reason = stop_reason;
    retry_after = none;
    session_metadata = none;
    attempt_number = 1;
    timestamp = now;
  }

  unfoldable pub with_retry_after : ResumeContext F → Duration → ResumeContext F
  with_retry_after ctx duration = record ctx { retry_after = some duration }

  unfoldable pub with_session : ResumeContext F → Session → ResumeContext F
  with_session ctx session = record ctx { session_metadata = some session }

  unfoldable pub increment_attempt : ResumeContext F → ResumeContext F
  increment_attempt ctx = record ctx { attempt_number = add_u32 ctx.attempt_number 1 }

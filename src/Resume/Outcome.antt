-- ===== src/Resume/Outcome.antt =====
-- src/resume/outcome.rs and src/resume/error.rs: what a resume strategy answers.
use palingenesis.Prelude.{ℕ, Bool, true, false, ◌++◌}
use palingenesis.Prelude.Time.{Duration}
use palingenesis.Prelude.Text.{Text, codes}
use palingenesis.Prelude.Number.{decimal}
use palingenesis.Monitor.Frontmatter.{IoError, io_text}

pub data ResumeOutcome : Type 0 where
  success : Text → Text → ResumeOutcome  -- session path, action
  failure : Text → Bool → ResumeOutcome  -- message, retryable
  skipped : Text → ResumeOutcome  -- reason
  delayed : Duration → Text → ResumeOutcome  -- next attempt, reason

unfoldable pub is_success : ResumeOutcome → Bool
is_success (success _ _) = true
is_success _ = false

unfoldable pub should_retry : ResumeOutcome → Bool
should_retry (failure _ true) = true
should_retry (delayed _ _) = true
should_retry _ = false

unfoldable pub label : ResumeOutcome → Text
label (success _ _) = codes "success"
label (failure _ _) = codes "failure"
label (skipped _) = codes "skipped"
label (delayed _ _) = codes "delayed"

pub data ResumeError : Type 0 where
  io : IoError → ResumeError
  session_not_found : Text → ResumeError
  command_failed : Text → Text → ResumeError  -- command, stderr
  timeout : Duration → ResumeError
  config : Text → ResumeError
  retry_exceeded : ℕ → ResumeError

unfoldable pub error_label : ResumeError → Text
error_label (io _) = codes "io"
error_label (session_not_found _) = codes "session_not_found"
error_label (command_failed _ _) = codes "command_failed"
error_label (timeout _) = codes "timeout"
error_label (config _) = codes "config"
error_label (retry_exceeded _) = codes "retry_exceeded"

-- `Display`; the debug form of a duration is a parameter.
unfoldable pub display_error : (Duration → Text) → ResumeError → Text
display_error debug (io e) = codes "I/O error: " ++ io_text e
display_error debug (session_not_found path) = codes "Session not found: " ++ path
display_error debug (command_failed command _) = codes "Command execution failed: " ++ command
display_error debug (timeout d) = codes "Operation timed out after " ++ debug d
display_error debug (config message) = codes "Configuration error: " ++ message
display_error debug (retry_exceeded n) =
    codes "Retry limit exceeded after " ++ (decimal n ++ codes " attempts")

-- ===== src/Monitor/Session.antt =====
-- src/monitor/session.rs: what a session file says of its session. A path is its text.
use palingenesis.Prelude.{ℕ, Bool, false, List, Option, none, some, length}
use palingenesis.Prelude.Int.{ℤ}
use palingenesis.Prelude.Text.{Text, codes, text_eq}

pub data StepValue : Type 0 where
  integer : ℤ → StepValue  -- i64
  string : Text → StepValue

pub record SessionState : Type 0 where
  pub steps_completed : List StepValue
  pub last_step : Option ℤ  -- i64
  pub status : Option Text
  pub workflow_type : Option Text
  pub project_name : Option Text
  pub input_documents : List Text

pub record Session : Type 0 where
  pub path : Text
  pub state : SessionState

-- `status.as_deref() == Some(literal)`
unfoldable pub status_is : Option Text → Text → Bool
status_is none expected = false
status_is (some status) expected = text_eq status expected

unfoldable pub is_complete : Session → Bool
unfolding status_is
is_complete session = status_is session.state.status (codes "complete")

unfoldable pub steps_completed_count : Session → ℕ
steps_completed_count session = length session.state.steps_completed

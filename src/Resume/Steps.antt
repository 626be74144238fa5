-- ===== src/Resume/Steps.antt =====
-- The step numbers that both strategies take from a session's metadata
-- (src/resume/same_session.rs, src/resume/new_session.rs).
use palingenesis.Prelude.{ℕ, List, Option, none, some, filter_map, get_or, length, ◌%◌, ◌^◌}
use palingenesis.Prelude.Words.{max_u32}
use palingenesis.Prelude.Text.{Text}
use palingenesis.Prelude.Number.{parse_uint}
use palingenesis.Prelude.Int.{to_unsigned}
use palingenesis.Monitor.Session.{StepValue, integer, string, Session}
use palingenesis.State.Schema.{CurrentSession}

unfoldable pub step_value_to_u32 : StepValue → Option ℕ
step_value_to_u32 (integer num) = to_unsigned max_u32 num
step_value_to_u32 (string value) = parse_uint max_u32 value

unfoldable pub steps_completed_from_session : Session → List ℕ
unfolding step_value_to_u32
steps_completed_from_session session = filter_map step_value_to_u32 session.state.steps_completed

unfoldable pub current_session_from_metadata : Session → Text → CurrentSession
unfolding step_value_to_u32
current_session_from_metadata session session_path =
    let steps_completed = filter_map step_value_to_u32 session.state.steps_completed in
    let last_step : Option ℕ = elim session.state.last_step [
      | none ↦ none
      | some value ↦ to_unsigned max_u32 value
    ] in
    record {
      path = session_path;
      steps_completed = steps_completed;
      last_step = get_or last_step 0;
      total_steps = length steps_completed % 2 ^ 32;
    }

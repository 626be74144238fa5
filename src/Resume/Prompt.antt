-- ===== src/Resume/Prompt.antt =====
-- src/resume/new_session.rs: the step to continue from, the prompt that is made of it, and the
-- session that it leads to. Paths, files, backups, the session creator and the debug form of a
-- reason are parameters.
pub mod Steps
use palingenesis.Prelude.{
  ℕ, ◌+◌, ◌-◌, ◌%◌, ◌^◌, Bool, true, false, List, [], ◌∷◌, ◌++◌, map, Option, none, some, Result,
  ok, err, max, get_or, length, get_elem?, if◌then◌else◌,
}
use palingenesis.Prelude.Time.{Duration}
use palingenesis.Prelude.Text.{Text, codes, is_empty, trim, join, replace, lines, contains, split}
use palingenesis.Prelude.Words.{add_u32}
use palingenesis.Prelude.Number.{decimal}
use palingenesis.Prelude.Int.{ℤ, display_int}
use palingenesis.Prelude.Float.{FloatOps}
use palingenesis.Monitor.Session.{Session}
use palingenesis.Monitor.Classifier.Types.{StopReason, metrics_reason_label}
use palingenesis.Monitor.Frontmatter.{IoError, not_found, other, Files}
use palingenesis.State.Schema.{StateFile, CurrentSession}
use palingenesis.Resume.Context.{ResumeContext}
use palingenesis.Resume.Outcome.{
  ResumeOutcome, success, ResumeError, io, session_not_found, config, command_failed, display_error,
  error_label,
}
use palingenesis.Resume.Steps.{steps_completed_from_session}
use palingenesis.Resume.NextStep.{NextStepInfo, parse_next_step, continue_from}
use palingenesis.Resume.Effects.{
  Effect, set_retry_attempts, record_resume_started, record_resume_completed, record_save,
  record_session_started, record_time_saved, log_resume_started, log_resume_completed,
  log_resume_failed, log_session_created, log_session_backed_up, create, World, M, ◌>>=◌, ◌>>◌,
  pure, perform, emit, Env, calculate_time_saved, resumed_state,
}

pub record NewSessionConfig : Type 0 where
  pub next_step_filename : Text
  pub prompt_template : Text
  pub enable_backup : Bool
  pub max_backups : ℕ
  pub backup_timestamp_format : Text
  pub verify_backup : Bool

unfoldable pub default_config : NewSessionConfig
default_config = record {
  next_step_filename = codes "Next-step.md";
  prompt_template =
      codes "Starting new session from step {step}: {description}\n\nContext:\n{context}";
  enable_backup = true;
  max_backups = 10;
  backup_timestamp_format = codes "%Y%m%d-%H%M%S";
  verify_backup = true;
}

-- What the strategy takes from outside, beside the environment.
pub record Outside (F : Type 0) : Type 0 where
  -- `Path::parent`, `Path::join`
  pub parent : Text → Option Text
  pub join_path : Text → Text → Text
  pub files : Files
  -- `BackupHandler::backup`
  pub backup : Text → Result Text Text
  -- `SessionCreator::create`
  pub creator : Text → Text → Result Text ResumeError
  pub debug_reason : StopReason F → Text
  pub debug_duration : Duration → Text

find_line : List Text → Option Text
find_line [] = none
find_line (line ∷ rest) =
    let later = find_line rest in if contains line (codes "session:") then some line else later

-- The path that `opencode new` prints, or the one in the session directory.
unfoldable pub created_path : (Text → Text → Text) → Text → Text → Text
unfolding find_line
created_path join_path session_dir stdout = elim (find_line (lines stdout)) [
  | none ↦ join_path session_dir (codes "session.md")
  | some line ↦ elim (get_elem? (split line (codes "session:")) 1) [
    | none ↦ join_path session_dir (codes "session.md")
    | some value ↦ trim value
  ]
]

-- `CommandSessionCreator`: the program tells whether it succeeded, its output and its errors.
unfoldable pub command_creator :
    (Text → Text → Text)
    → (List Text → Result (Bool × Text × Text) IoError)
    → Text
    → Text
    → Result Text ResumeError
unfolding created_path
command_creator join_path run prompt session_dir =
    let command =
      codes "opencode"
      ∷ codes "new"
      ∷ codes "--prompt"
      ∷ prompt
      ∷ codes "--workdir"
      ∷ session_dir
      ∷ [] in
    elim (run command) [
      | err e ↦ err (io e)
      | ok (done, stdout, stderr) ↦
          if done
          then ok (created_path join_path session_dir stdout)
          else err (command_failed (codes "opencode new") stderr)
    ]

-- `iter().max()`
unfoldable pub greatest : List ℕ → Option ℕ
greatest [] = none
greatest (n ∷ ns) = some (max n (get_or (greatest ns) n))

unfoldable pub calculate_from_steps_completed : Session → ℕ
unfolding greatest steps_completed_from_session
calculate_from_steps_completed session =
    add_u32 (get_or (greatest (steps_completed_from_session session)) 0) 1

-- The step to start from: the file's, else the one after the completed ones, else the first.
unfoldable pub chosen_step : Option Session → Option NextStepInfo → NextStepInfo
unfolding calculate_from_steps_completed
chosen_step metadata (some info) = info
chosen_step (some session) none =
    let step = calculate_from_steps_completed session in
    record { step_number = step; description = continue_from step; raw_content = [] }
chosen_step none none = record {
  step_number = 1;
  description = codes "Continue workflow";
  raw_content = [];
}

abbrev pub started_text : NextStepInfo → Text
started_text next_step = codes "Started new session from step " ++ decimal next_step.step_number

abbrev last_step_line : Option ℤ → List Text → List Text
last_step_line none rest = rest
last_step_line (some last_step) rest = (codes "Last step: " ++ display_int last_step) ∷ rest

abbrev metadata_lines : Option Session → List Text → List Text
metadata_lines none rest = rest
metadata_lines (some session) rest =
    let steps = steps_completed_from_session session in
    let last_line = last_step_line session.state.last_step rest in
    if is_empty steps
    then last_line
    else (codes "Steps completed: " ++ join (codes ", ") (map decimal steps)) ∷ last_line

unfoldable pub build_current_session :
    {F : Type 0} → ResumeContext F → Text → NextStepInfo → CurrentSession
unfolding greatest
build_current_session ctx new_session_path next_step =
    let steps : List ℕ = elim ctx.session_metadata [
      | none ↦ []
      | some session ↦ steps_completed_from_session session
    ] in
    record {
      path = new_session_path;
      steps_completed = steps;
      last_step = get_or (greatest steps) (next_step.step_number - 1);
      total_steps = length steps % 2 ^ 32;
    }

module _ {F : Type 0} (out : Outside F) (cfg : NewSessionConfig) where
  unfoldable pub read_next_step : Text → Result (Option NextStepInfo) ResumeError
  unfolding parse_next_step
  read_next_step session_dir =
      elim (out.files.read_to_string (out.join_path session_dir cfg.next_step_filename)) [
        | ok content ↦ ok (parse_next_step content)
        | err (not_found message) ↦ ok none
        | err (other message) ↦ err (io (other message))
      ]

  unfoldable pub build_context_summary : ResumeContext F → NextStepInfo → Text
  build_context_summary ctx info =
      let details = trim info.raw_content in
      let tail =
        if is_empty details
        then (codes "Continuation: " ++ info.description) ∷ []
        else codes "Next-step details:" ∷ details ∷ [] in
      join (codes "\n") (
        (codes "Previous session: " ++ ctx.session_path)
        ∷ metadata_lines ctx.session_metadata
            ((codes "Stop reason: " ++ out.debug_reason ctx.stop_reason) ∷ tail))

  unfoldable pub generate_prompt : NextStepInfo → ResumeContext F → Text
  unfolding build_context_summary
  generate_prompt info ctx =
      let stepped = replace cfg.prompt_template (codes "{step}") (decimal info.step_number) in
      let described = replace stepped (codes "{description}") info.description in
      replace described (codes "{context}") (build_context_summary ctx info)

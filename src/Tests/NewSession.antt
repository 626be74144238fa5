-- ===== src/Tests/NewSession.antt =====
-- src/resume/new_session.rs at concrete contexts.
use palingenesis.Prelude.{ℕ, ◌≡◌, refl, true, false, [], ◌∷◌, none, some, ok, err, arith, ◌++◌}
use palingenesis.Prelude.Int.{ℤ, pos}
use palingenesis.Prelude.Text.{Text, codes, lines, trim_start_by, trim_end, is_whitespace}
use palingenesis.Prelude.Number.{decimal, parse_uint}
use palingenesis.Monitor.Session.{Session, integer, string}
use palingenesis.Monitor.Frontmatter.{not_found}
use palingenesis.Monitor.Classifier.Types.{context_exhausted}
use palingenesis.State.Schema.{default_state}
use palingenesis.Resume.Context.{ResumeContext}
use palingenesis.Resume.Effects.{World, Env}
use palingenesis.Resume.NextStep.{NextStepInfo, parse_next_step}
use palingenesis.Resume.NextStep.Headings.{IsTrimmed, heading, parse_next_step-heading}
use palingenesis.Resume.Prompt.{Outside, default_config, chosen_step}
use palingenesis.Resume.NewSession.{Answer, execute}
use palingenesis.Resume.NewSession.Ending.{Ending}
use palingenesis.Resume.NewSession.Ending.Outcomes.{execute_ends}
use palingenesis.Tests.Floats.{floats}

abbrev pub env : Env ℤ
env = record {
  metrics = true;
  audit = true;
  load_fails = false;
  save_error = none;
  manual_restart_time_seconds = 300;
  now = 0;
  as_secs_f64 = λ d. pos d;
}

abbrev session : Session
session = record {
  path = codes "/w/session.md";
  state = record {
    steps_completed = integer (pos 1) ∷ string (codes "2") ∷ string (codes "x") ∷ [];
    last_step = some (pos 2);
    status = none;
    workflow_type = none;
    project_name = none;
    input_documents = [];
  };
}

abbrev ctx : ResumeContext ℤ
ctx = record {
  session_path = codes "/w/session.md";
  stop_reason = context_exhausted none;
  retry_after = none;
  session_metadata = some session;
  attempt_number = 1;
  timestamp = 0;
}

-- A directory without a next-step file, in which sessions can be created.
abbrev outside : Outside ℤ
outside = record {
  parent = λ p. some (codes "/w");
  join_path = λ dir name. dir ++ codes "/" ++ name;
  files = record {
    read_to_string = λ p. err (not_found (codes "missing"));
    open_lines = λ p. err (not_found (codes "missing"));
  };
  backup = λ p. ok (p ++ codes ".bak");
  creator = λ prompt dir. ok (dir ++ codes "/new.md");
  debug_reason = λ r. codes "reason";
  debug_duration = λ d. codes "60s";
}

abbrev world : World ℤ ℕ
world = record { effects = []; rng = 0; store = default_state floats }

abbrev description : Text
description = codes "Write the tests"

description-IsTrimmed : IsTrimmed description
unfolding codes trim_start_by trim_end is_whitespace
description-IsTrimmed = record { not_empty = λ e. cc; start = refl; end = refl }

abbrev file : Text
file = heading 7 description ++ codes "\n# Step 8: later\n"

lines-file : lines file ≡ heading 7 description ∷ codes "# Step 8: later" ∷ []
unfolding lines codes decimal
lines-file = refl

parse_next_step-heading_example :
    parse_next_step file
    ≡ some (record { step_number = 7; description = description; raw_content = file })
parse_next_step-heading_example =
    parse_next_step-heading file 7 description (codes "# Step 8: later" ∷ []) lines-file
      (omega arith) description-IsTrimmed

third_step : (chosen_step (some session) none).step_number ≡ 3
unfolding chosen_step codes parse_uint
third_step = refl

abbrev info : NextStepInfo
info = record { step_number = 9; description = description; raw_content = [] }

execute_ends_example :
    (a : Answer) × (w' : World ℤ ℕ) × (execute floats env outside default_config ctx world
      ≡ some (a, w'))
    × Ending floats env outside default_config ctx world w' a
execute_ends_example = execute_ends floats env outside default_config ctx world

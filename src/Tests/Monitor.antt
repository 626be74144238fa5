-- ===== src/Tests/Monitor.antt =====
-- src/monitor/frontmatter.rs and src/monitor/core.rs at a concrete file.
use palingenesis.Prelude.{
  ℕ, ◌==◌, if◌then◌else◌, ◌≡◌, ◌↔◌, refl, true, List, [], ◌∷◌, none, some, ok, err,
}
use palingenesis.Prelude.Int.{ℤ}
use palingenesis.Prelude.Text.{Text, codes, text_eq, trim}
use palingenesis.Monitor.Session.{SessionState}
use palingenesis.Monitor.Frontmatter.{
  other, delimiter, extract_lines, collect, parse_session, extract_frontmatter,
}
use palingenesis.Monitor.Frontmatter.Extract.{Lines, Closed, unlines, extract_lines_iff}
use palingenesis.Monitor.Events.{file_created, file_deleted, stopped, ProcessInfo}
use palingenesis.Monitor.Parser.{handle_event}
use palingenesis.Monitor.Core.{
  Outside, Monitor, delivered, full, Input, watched, processed, event_loop,
}
use palingenesis.Monitor.Core.Current.{IsTracked, event_loop-IsTracked}
use palingenesis.Tests.Floats.{floats}
use palingenesis.Tests.Classifier.{plain, words}

-- A frontmatter of one line, and a line behind it that cannot be read.
abbrev document : Lines
document =
    ok (codes "--- ") ∷ ok (codes "status: x") ∷ ok (codes "---") ∷ err (other (codes "bad")) ∷ []

extracted : extract_lines document ≡ ok (codes "status: x\n")
unfolding extract_lines collect codes text_eq trim
extracted = refl

extract_lines_iff_example : (extract_lines document ≡ ok (codes "status: x\n")) ↔ (
    (first : Text) × (rest : Lines) × (body : List Text) × (document ≡ ok first ∷ rest)
    × (delimiter first ≡ true)
    × Closed rest body
    × (codes "status: x\n" ≡ unlines body))
extract_lines_iff_example = extract_lines_iff document (codes "status: x\n")

abbrev state : SessionState
state = record {
  steps_completed = [];
  last_step = none;
  status = none;
  workflow_type = none;
  project_name = none;
  input_documents = [];
}

-- A channel that holds one event.
abbrev outside : Outside ℤ ℕ
outside = record {
  files = record plain {
    files = record { read_to_string = λ p. ok []; open_lines = λ p. ok document };
    from_yaml = λ text. ok state;
  };
  send = λ event n. if n == 0 then (delivered, 1) else (full, n);
  metrics = true;
  latency = λ session. some 5;
}

abbrev monitor : Monitor ℤ ℕ
monitor = record {
  sessions = [];
  current_session = none;
  errors_count = 0;
  dropped_events = 0;
  channel = 0;
  detections = [];
}

abbrev info : ProcessInfo
info = record { pid = 7; command_line = []; start_time = none; working_dir = none }

abbrev path : Text
path = codes "/w/a.md"

abbrev inputs : List Input
inputs = watched (file_created path) ∷ watched (file_created (codes "/w/b.md")) ∷ []

abbrev after : Monitor ℤ ℕ
after = event_loop floats outside words inputs true monitor

follows : after.current_session ≡ some (record { path = codes "/w/b.md"; state = state })
unfolding event_loop codes parse_session extract_frontmatter extract_lines collect text_eq trim
    handle_event
follows = refl

drops : after.dropped_events ≡ 1
unfolding event_loop codes parse_session extract_frontmatter extract_lines collect text_eq trim
    handle_event
drops = refl

event_loop-IsTracked_example : IsTracked floats outside words (
    event_loop floats outside words
      (watched (file_created path)
        ∷ processed (stopped info none)
        ∷ watched (file_deleted path)
        ∷ [])
      true
      monitor)
event_loop-IsTracked_example =
    event_loop-IsTracked floats outside words
      (watched (file_created path)
        ∷ processed (stopped info none)
        ∷ watched (file_deleted path)
        ∷ [])
      true monitor tt

-- ===== src/Monitor/Detection.antt =====
-- src/monitor/detection.rs: which assistants are there. A directory is the tree of its entries,
-- where a file is its extension, as far as it is UTF-8; the tree has no links, which the source
-- follows. The processes that
-- run are a parameter.
pub mod Search
use palingenesis.Prelude.{
  ℕ, zero, suc, ◌+◌, Bool, true, false, ◌||◌, Option, none, some, List, [], ◌∷◌, filter_map, get_or,
  if◌then◌else◌,
}
use palingenesis.Prelude.Text.{Text, codes, text_eq}

mutual
  pub data Entry : Type 0 where
    file : Option Text → Entry
    dir : Dir → Entry

  pub data Dir : Type 0 where
    -- A directory that cannot be read.
    unreadable : Dir
    readable : Entries → Dir

  pub data Entries : Type 0 where
    no_more : Entries
    entry : Entry → Entries → Entries

pub data DetectionMethod : Type 0 where
  directory process session_file : DetectionMethod

unfoldable pub as_str : DetectionMethod → Text
unfolding codes
as_str directory = codes "directory"
as_str process = codes "process"
as_str session_file = codes "session-file"

pub record AssistantDefinition : Type 0 where
  pub name : Text
  pub session_dir : Text
  pub process_name : Option Text

pub record DetectedAssistant : Type 0 where
  pub name : Text
  pub session_dir : Text
  pub detected_by : DetectionMethod
  pub active : Bool

abbrev is_artifact_name : Text → Bool
is_artifact_name ext =
    text_eq ext (codes "md") || text_eq ext (codes "lock") || text_eq ext (codes "sock")

unfoldable pub is_session_artifact : Option Text → Bool
unfolding codes text_eq
is_session_artifact none = false
is_session_artifact (some ext) = is_artifact_name ext

-- The loop over the entries: the new stack, or none if an artifact is found.
unfoldable pub scan : Entries → List Dir → Option (List Dir)
unfolding is_session_artifact
scan no_more stack = some stack
scan (entry (dir d) rest) stack = scan rest (d ∷ stack)
scan (entry (file ext) rest) stack =
    let later = scan rest stack in if is_session_artifact ext then none else later

-- The loop over the stack; `none` is a lack of fuel.
unfoldable pub search_from : (fuel : ℕ) → List Dir → Option Bool
unfolding scan
search_from fuel [] = some false
search_from zero (d ∷ stack) = none
search_from (suc fuel) (unreadable ∷ stack) = search_from fuel stack
search_from (suc fuel) (readable entries ∷ stack) = elim (scan entries stack) [
  | none ↦ some true
  | some stack' ↦ search_from fuel stack'
]

-- The number of directories.
unfoldable mutual
  pub count_dirs : Dir → ℕ
  count_dirs unreadable = 1
  count_dirs (readable entries) = suc (count_entries entries)

  pub count_entries : Entries → ℕ
  count_entries no_more = 0
  count_entries (entry (file ext) rest) = count_entries rest
  count_entries (entry (dir d) rest) = count_dirs d + count_entries rest

-- Each round takes a directory off the stack.
unfoldable pub has_session_files : Dir → Bool
unfolding search_from count_dirs
has_session_files d = get_or (search_from (count_dirs d) (d ∷ [])) false

-- The state of the machine: the directory at a path, if it exists (a file there cannot be read as
-- one), and the names of the processes.
pub record Machine : Type 0 where
  pub dir_at : Text → Option Dir
  pub is_process_running : Text → Bool

unfoldable pub known_assistants : (session_dir : Text) → List AssistantDefinition
unfolding codes
known_assistants session_dir =
    record {
      name = codes "opencode";
      session_dir = session_dir;
      process_name = some (codes "opencode");
    }
    ∷ []

abbrev has_files : Option Dir → Bool
has_files none = false
has_files (some d) = has_session_files d

abbrev is_there : Option Dir → Bool
is_there none = false
is_there (some d) = true

abbrev runs : (Text → Bool) → Option Text → Bool
runs running none = false
runs running (some name) = running name

abbrev detected :
    AssistantDefinition → (has_sessions exists running : Bool) → Option DetectedAssistant
detected d has_sessions exists running =
    if has_sessions || exists || running
    then some (record {
      name = d.name;
      session_dir = d.session_dir;
      detected_by = if has_sessions then session_file else if running then process else directory;
      active = has_sessions || running;
    })
    else none

unfoldable pub detect_assistant : Machine → AssistantDefinition → Option DetectedAssistant
unfolding has_session_files
detect_assistant m d =
    let found = m.dir_at d.session_dir in
    detected d (has_files found) (is_there found) (runs m.is_process_running d.process_name)

unfoldable pub detect_assistants : Machine → (session_dir : Text) → List DetectedAssistant
unfolding known_assistants detect_assistant
detect_assistants m session_dir = filter_map (detect_assistant m) (known_assistants session_dir)

-- ===== src/Tests/Detection.antt =====
-- src/monitor/detection.rs at one directory.
use palingenesis.Prelude.{◌≡◌, refl, true, none, some, [], ◌∷◌}
use palingenesis.Prelude.Text.{codes, text_eq}
use palingenesis.Monitor.Detection.{
  Dir, file, dir, unreadable, readable, no_more, entry, process, is_session_artifact, scan,
  search_from, count_dirs, has_session_files, known_assistants, detect_assistant, detect_assistants,
}
use palingenesis.Monitor.Detection.Search.{holds, has_session_files-holds}

abbrev sessions : Dir
sessions = readable (
    entry (dir unreadable) (
      entry (dir (readable (entry (file (some (codes "md"))) no_more)))
        (entry (file (some (codes "txt"))) no_more)))

has_session_files-holds_example :
    (search_from (count_dirs sessions) (sessions ∷ []) ≡ some (holds sessions))
    × (has_session_files sessions ≡ holds sessions)
has_session_files-holds_example = has_session_files-holds sessions

found : has_session_files sessions ≡ true
unfolding has_session_files search_from scan is_session_artifact count_dirs codes text_eq
found = refl

by_process :
    detect_assistants
      (record { dir_at = λ path. none; is_process_running = λ name. true })
      (codes "/home/.opencode")
    ≡ record {
      name = codes "opencode";
      session_dir = codes "/home/.opencode";
      detected_by = process;
      active = true;
    }
      ∷ []
unfolding detect_assistants known_assistants detect_assistant
by_process = refl

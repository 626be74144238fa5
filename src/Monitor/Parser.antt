-- ===== src/Monitor/Parser.antt =====
-- `SessionParser` of src/monitor/frontmatter.rs: the sessions parsed so far. The hash map is an
-- association list with the latest entry of a path in front.
use palingenesis.Prelude.{
  true, List, [], ◌∷◌, ◌++◌, Option, none, some, Result, ok, err, if◌then◌else◌,
}
use palingenesis.Prelude.Text.{Text, codes, text_eq}
use palingenesis.Monitor.Session.{Session, SessionState}
use palingenesis.Monitor.Frontmatter.{
  ParseError, io, no_frontmatter, invalid_frontmatter, file_not_found, io_text, Files,
  parse_session,
}
use palingenesis.Monitor.Events.{
  WatchEvent, file_created, file_modified, file_deleted, directory_created, watch_error,
  MonitorEvent, session_changed, error,
}

abbrev pub Sessions : Type 0
Sessions = List (Text × Session)

unfoldable pub lookup : Text → Sessions → Option Session
lookup path [] = none
lookup path ((key, session) ∷ rest) =
    let later = lookup path rest in if text_eq key path then some session else later

unfoldable pub remove : Text → Sessions → Sessions
remove path [] = []
remove path ((key, session) ∷ rest) =
    let kept = remove path rest in if text_eq key path then kept else (key, session) ∷ kept

abbrev pub insert : Text → Session → Sessions → Sessions
insert path session sessions = (path, session) ∷ remove path sessions

-- `Display`
unfoldable pub display_parse_error : ParseError → Text
display_parse_error (io e) = codes "I/O error: " ++ io_text e
display_parse_error no_frontmatter = codes "No frontmatter found (missing --- delimiters)"
display_parse_error (invalid_frontmatter message) = codes "Invalid YAML frontmatter: " ++ message
display_parse_error (file_not_found path) = codes "Session file not found: " ++ path

module _ {F : Type 0} (files : Files) (from_yaml : Text → Result SessionState Text) where
  abbrev on_parsed :
      Text → Sessions → Result Session ParseError → Option (MonitorEvent F) × Sessions
  on_parsed path sessions (ok session) =
      (some (session_changed session (lookup path sessions)), insert path session sessions)
  on_parsed path sessions (err e) =
      (some (error (codes "session_parser") (display_parse_error e) true), sessions)

  unfoldable pub handle_event : WatchEvent → Sessions → Option (MonitorEvent F) × Sessions
  handle_event (file_modified path) sessions =
      on_parsed path sessions (parse_session files from_yaml path)
  handle_event (file_created path) sessions =
      on_parsed path sessions (parse_session files from_yaml path)
  handle_event (file_deleted path) sessions = (none, remove path sessions)
  handle_event (directory_created _) sessions = (none, sessions)
  handle_event (watch_error message) sessions =
      (some (error (codes "watcher") message true), sessions)

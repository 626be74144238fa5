-- ===== src/Monitor/Core/Current.antt =====
-- The current session of the monitor in src/monitor/core.rs.
use palingenesis.Prelude.{
  ◌≡◌, ◌∙◌, refl, ap, Bool, true, false, List, [], ◌∷◌, Option, none, some, Result, ok, arith, inl,
  inr, Bool-cases, Result-cases, Option-cases, if◌then◌else◌,
}
use palingenesis.Prelude.Text.{Text, text_eq, text_eq_refl, text_eq-false, text_eq_sound}
use palingenesis.Prelude.Float.{FloatOps}
use palingenesis.Monitor.Session.{Session, SessionState}
use palingenesis.Monitor.Frontmatter.{Files, parse_session}
use palingenesis.Monitor.Classifier.Types.{ClassificationResult, StopReasonClassifier}
use palingenesis.Monitor.Events.{
  WatchEvent, file_created, file_modified, file_deleted, directory_created, watch_error,
  ProcessEvent, started, stopped, MonitorEvent, process_stopped,
}
use palingenesis.Monitor.Parser.{Sessions, lookup, remove, insert, handle_event}
use palingenesis.Monitor.Core.{
  Outside, Monitor, try_send, handle_watch_event, handle_process_event, event_loop, Input,
  cancelled, watched, watcher_closed, processed, process_closed, is_path, record_detection,
  latency_of, classification,
}

-- A session that the parser holds under its path.
abbrev pub Tracked : Option Session → Sessions → Type 0
Tracked none sessions = Unit
Tracked (some session) sessions = lookup session.path sessions ≡ some session

lookup-insert :
    (path : Text) (session : Session) (sessions : Sessions)
    → lookup path (insert path session sessions) ≡ some session
unfolding lookup
lookup-insert path session sessions = rw (text_eq_refl path) refl

lookup-remove :
    (path other : Text) (sessions : Sessions)
    → text_eq path other ≡ false
    → lookup other (remove path sessions) ≡ lookup other sessions
unfolding lookup remove
lookup-remove path other [] h = refl
lookup-remove path other ((key, session) ∷ rest) h = elim (Bool-cases (text_eq key path)) [
  | inl same ↦ rw (same, text_eq_sound key path same, h) (lookup-remove path other rest h)
  | inr differs ↦ rw (differs, lookup-remove path other rest h) refl
]

parse_session-path :
    (files : Files) (from_yaml : Text → Result SessionState Text) (path : Text) (session : Session)
    → parse_session files from_yaml path ≡ ok session
    → session.path ≡ path
unfolding parse_session
parse_session-path files from_yaml path session e = ground arith

Tracked-remove :
    (path : Text) (current : Option Session) (sessions : Sessions)
    → Tracked current sessions
    → Tracked (if is_path path current then none else current) (remove path sessions)
Tracked-remove path none sessions h = tt
Tracked-remove path (some session) sessions h = elim (Bool-cases (text_eq session.path path)) [
  | inl same ↦ rw same tt
  | inr differs ↦
      rw differs
        (lookup-remove path session.path sessions (text_eq-false session.path path differs) ∙ h)
]

module _ {F Q : Type 0} (fl : FloatOps F) (out : Outside F Q)
    (classifier : StopReasonClassifier F) where
  -- The invariant: the current session, if there is one, is what the parser holds for its path.
  abbrev pub IsTracked : Monitor F Q → Type 0
  IsTracked m = Tracked m.current_session m.sessions

  try_send-keeps :
      (event : MonitorEvent F) (m : Monitor F Q)
      → ((try_send fl out classifier event m).current_session ≡ m.current_session)
        × ((try_send fl out classifier event m).sessions ≡ m.sessions)
  unfolding try_send
  try_send-keeps event m = (ground arith, ground arith)

  try_send-IsTracked :
      (event : MonitorEvent F) (m : Monitor F Q)
      → IsTracked m
      → IsTracked (try_send fl out classifier event m)
  try_send-IsTracked event m h = let (same, kept) = try_send-keeps event m in rw (same, kept) h

  changed :
      (path : Text) (m : Monitor F Q)
      → IsTracked m
      → IsTracked (handle_watch_event fl out classifier (file_modified path) m)
  unfolding handle_watch_event handle_event
  changed path m h = elim (Result-cases (parse_session out.files.files out.files.from_yaml path)) [
    | inl (session, e) ↦ rw e (
        try_send-IsTracked _ _ (
          ap (λ p. lookup p (insert path session m.sessions))
            (parse_session-path out.files.files out.files.from_yaml path session e)
          ∙ lookup-insert path session m.sessions))
    | inr (x, e) ↦ rw e (try_send-IsTracked _ _ h)
  ]

  handle_watch_event-IsTracked :
      (event : WatchEvent) (m : Monitor F Q)
      → IsTracked m
      → IsTracked (handle_watch_event fl out classifier event m)
  unfolding handle_watch_event handle_event
  handle_watch_event-IsTracked (file_modified path) m h = changed path m h
  handle_watch_event-IsTracked (file_created path) m h = changed path m h
  handle_watch_event-IsTracked (file_deleted path) m h =
      Tracked-remove path m.current_session m.sessions h
  handle_watch_event-IsTracked (directory_created path) m h = h
  handle_watch_event-IsTracked (watch_error message) m h = try_send-IsTracked _ _ h

  detection-IsTracked :
      (c : ClassificationResult F) (m : Monitor F Q)
      → IsTracked m
      → IsTracked (record_detection fl out classifier c m)
  detection-IsTracked c m h = elim (Bool-cases out.metrics) [
    | inr off ↦ rw off h
    | inl on ↦ elim (Option-cases (latency_of fl out classifier m.current_session)) [
      | inl unknown ↦ rw (on, unknown) h
      | inr (d, known) ↦ rw (on, known) h
    ]
  ]

  handle_process_event-IsTracked :
      (event : ProcessEvent) (m : Monitor F Q)
      → IsTracked m
      → IsTracked (handle_process_event fl out classifier event m)
  unfolding handle_process_event
  handle_process_event-IsTracked (started info) m h = try_send-IsTracked _ _ h
  handle_process_event-IsTracked (stopped info exit_code) m h =
      let m₁ = try_send fl out classifier (process_stopped info exit_code) m in
      try_send-IsTracked _ _ (
        detection-IsTracked (classification fl out classifier m₁.current_session exit_code) m₁
          (try_send-IsTracked _ _ h))

  -- Whatever the loop receives, and in whichever order, the current session, if there is one, stays
  -- the one that the parser holds under that session's path.
  pub event_loop-IsTracked :
      (inputs : List Input) (processes : Bool) (m : Monitor F Q)
      → IsTracked m
      → IsTracked (event_loop fl out classifier inputs processes m)
  unfolding event_loop
  event_loop-IsTracked [] processes m h = h
  event_loop-IsTracked (cancelled ∷ inputs) processes m h = h
  event_loop-IsTracked (watcher_closed ∷ inputs) processes m h = h
  event_loop-IsTracked (watched event ∷ inputs) processes m h =
      event_loop-IsTracked inputs processes _ (handle_watch_event-IsTracked event m h)
  event_loop-IsTracked (process_closed ∷ inputs) processes m h =
      event_loop-IsTracked inputs false m h
  event_loop-IsTracked (processed event ∷ inputs) true m h =
      event_loop-IsTracked inputs true _ (handle_process_event-IsTracked event m h)
  event_loop-IsTracked (processed event ∷ inputs) false m h = event_loop-IsTracked inputs false m h

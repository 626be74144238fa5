-- ===== src/State/Audit/Query.antt =====
-- The queries of src/state/audit.rs, over the lines of `audit.jsonl`.
pub mod Logged
use palingenesis.Prelude.{
  ℕ, Bool, true, false, ◌&&◌, Option, none, some, List, [], ◌∷◌, Result, ok, err, ltb, ◌==◌, any,
  keep_if, not, ◌>>=◌, ◌>>◌, if◌then◌else◌,
}
use palingenesis.Prelude.Text.{Text, text_eq, lines, is_empty}
use palingenesis.Monitor.Frontmatter.{IoError}
use palingenesis.State.Audit.{AuditError, io, Log, EntryJson}
use palingenesis.State.Audit.Entries.{
  AuditEntry, AuditEventType, resume_started, resume_completed, resume_failed, session_created,
  session_backed_up, daemon_started, daemon_stopped, config_changed, error,
}

-- `AuditQuery`, without the path of the log.
pub record AuditQuery : Type 0 where
  pub event_types : Option (List AuditEventType)
  pub start_time : Option ℕ
  pub end_time : Option ℕ
  pub session_path : Option Text

abbrev pub new : AuditQuery
new = record { event_types = none; start_time = none; end_time = none; session_path = none }

abbrev pub event_types : List AuditEventType → AuditQuery → AuditQuery
event_types types query = record query { event_types = some types }

abbrev pub after : ℕ → AuditQuery → AuditQuery
after time query = record query { start_time = some time }

abbrev pub before : ℕ → AuditQuery → AuditQuery
before time query = record query { end_time = some time }

abbrev pub for_session : Text → AuditQuery → AuditQuery
for_session path query = record query { session_path = some path }

abbrev tag : AuditEventType → ℕ
tag resume_started = 0
tag resume_completed = 1
tag resume_failed = 2
tag session_created = 3
tag session_backed_up = 4
tag daemon_started = 5
tag daemon_stopped = 6
tag config_changed = 7
tag error = 8

-- The derived `==`.
abbrev pub same_event : AuditEventType → AuditEventType → Bool
same_event a b = tag a == tag b

-- A test that is not there passes.
abbrev holds : {A : Type 0} → Option A → (A → Bool) → Bool
holds none p = true
holds (some a) p = p a

abbrev pub is_session : Text → Option Text → Bool
is_session path none = false
is_session path (some p) = text_eq p path

module _ {V : Type 0} where
  unfoldable pub matches : AuditQuery → AuditEntry V → Bool
  unfolding text_eq
  matches query entry =
      holds query.event_types (any (same_event entry.event_type))
      && holds query.start_time (λ start. not (ltb entry.timestamp start))
      && holds query.end_time (λ end. not (ltb end entry.timestamp))
      && holds query.session_path (λ path. is_session path entry.session_path)

  -- What a line adds to the results: a line that is not the JSON of an entry is skipped.
  abbrev pub parsed :
      AuditQuery → Result (AuditEntry V) Text → List (AuditEntry V) → List (AuditEntry V)
  parsed query (ok entry) results = keep_if (matches query entry) entry results
  parsed query (err message) results = results

  module _ (json : EntryJson V) where
    unfoldable pub collect : AuditQuery → List Text → List (AuditEntry V)
    unfolding matches
    collect query [] = []
    collect query (line ∷ rest) =
        let results = collect query rest in
        if is_empty line then results else parsed query (json.from_str line) results

    -- `open` and `read` are the errors of opening the file and of reading one of its lines.
    unfoldable pub execute :
        AuditQuery
        → (open_fault read_fault : Option IoError) → Log
        → Result (List (AuditEntry V)) AuditError
    unfolding collect lines
    execute query open_fault read_fault log = elim (log.current) [
      | none ↦ ok []
      | some text ↦ elim open_fault [
        | some e ↦ err (io e)
        | none ↦ elim read_fault [ some e ↦ err (io e) | none ↦ ok (collect query (lines text)) ]
      ]
    ]

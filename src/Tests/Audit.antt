-- ===== src/Tests/Audit.antt =====
-- src/state/audit.rs at a log of two rotated files.
use palingenesis.Prelude.{ℕ, ◌≡◌, refl, none, some, ok, [], ◌∷◌, Option, if◌then◌else◌, ◌==◌}
use palingenesis.Prelude.Text.{Text, codes, text_eq, lines}
use palingenesis.State.Audit.{
  AuditConfig, Log, Faults, EntryJson, log_entry, maybe_rotate, rotate, shift, open_for_append,
}
use palingenesis.State.Audit.Entries.{
  AuditEntry, session_created, session_created_entry, resume_failed_entry, with_metadata, insert,
}
use palingenesis.State.Audit.Rotation.{history}
use palingenesis.State.Audit.Rotation.Logging.{LogEnd, log_entry-LogEnd}
use palingenesis.State.Audit.Query.{new, event_types, for_session, execute, collect, matches}
use palingenesis.State.Audit.Query.Logged.{execute-log_entry}

abbrev path : Text
path = codes "/w/s.md"

abbrev entry : AuditEntry Text
entry = session_created_entry (λ t. t) 5 path

-- A form that keeps only the action.
abbrev json : EntryJson Text
json = record { to_string = λ e. ok e.action_taken; from_str = λ t. ok entry }

abbrev config : AuditConfig
config = record { max_size = 4; max_files = 2 }

abbrev none_fails : Faults
none_fails = record {
  metadata = none;
  rename = λ i. none;
  remove = none;
  open_file = none;
  permissions = none;
  lock = none;
  write = none;
  flush = none;
  unlock = none;
}

abbrev files : ℕ → Option Text
files i = if i == 1 then some (codes "b\n") else if i == 2 then some (codes "a\n") else none

abbrev small : Log
small = record { current = some (codes "c\n"); rotated = files }

abbrev large : Log
large = record { current = some (codes "ccc\n"); rotated = files }

-- The log is rotated, and the oldest file is lost.
rotated_history : history 2 (maybe_rotate config none_fails large).1 ≡ codes "b\nccc\n"
unfolding maybe_rotate rotate shift codes
rotated_history = refl

logged :
    (log_entry json config none_fails entry small).1.current ≡ some (codes "c\nSession created\n")
unfolding log_entry maybe_rotate rotate shift open_for_append codes session_created_entry
logged = refl

failed_metadata :
    (resume_failed_entry (λ t. t) 5 path (codes "lost")).metadata
    ≡ (codes "error", codes "lost") ∷ []
unfolding resume_failed_entry with_metadata insert text_eq codes
failed_metadata = refl

found : execute json (event_types (session_created ∷ []) new) none none small ≡ ok (entry ∷ [])
unfolding execute collect matches lines codes session_created_entry text_eq
found = refl

other_session : execute json (for_session (codes "/x") new) none none small ≡ ok []
unfolding execute collect matches lines codes session_created_entry text_eq
other_session = refl

log_entry-LogEnd_example :
    LogEnd
      (history 2 large)
      (history 1 large)
      (json.to_string entry)
      2
      (log_entry json config none_fails entry large)
log_entry-LogEnd_example = log_entry-LogEnd json config none_fails entry large 1 refl

execute-log_entry_example :
    execute json
      (event_types (session_created ∷ []) new)
      none
      none
      (log_entry json config none_fails entry small).1
    ≡ ok (entry ∷ entry ∷ [])
unfolding log_entry maybe_rotate rotate shift open_for_append codes session_created_entry text_eq
    matches execute collect lines
execute-log_entry_example =
    execute-log_entry json config none_fails entry small (codes "Session created")
      (event_types (session_created ∷ []) new) (entry ∷ [])
      (record { printed = refl; reads = refl; one_line = refl; not_empty = refl }) refl refl refl
      refl

-- ===== src/State/Audit/Entries.antt =====
-- The entries of the audit log of src/state/audit.rs, their builders, and those of the events that
-- the logger records. `V` is the type of JSON values.
use palingenesis.Prelude.{ℕ, Option, none, some, List, [], ◌∷◌, if◌then◌else◌}
use palingenesis.Prelude.Text.{Text, codes, text_eq}

pub data AuditEventType : Type 0 where
  resume_started resume_completed resume_failed : AuditEventType
  session_created session_backed_up : AuditEventType
  daemon_started daemon_stopped config_changed error : AuditEventType

pub data AuditOutcome : Type 0 where
  success failure skipped pending : AuditOutcome

pub record AuditEntry (V : Type 0) : Type 0 where
  pub timestamp : ℕ
  pub event_type : AuditEventType
  pub session_path : Option Text
  pub stop_reason : Option Text
  pub action_taken : Text
  pub outcome : AuditOutcome
  pub metadata : List (Text × V)

module _ {V : Type 0} where
  -- `AuditEntry::new`, at the time of the clock.
  abbrev pub new : ℕ → AuditEventType → Text → AuditEntry V
  new now event action = record {
    timestamp = now;
    event_type = event;
    session_path = none;
    stop_reason = none;
    action_taken = action;
    outcome = pending;
    metadata = [];
  }

  abbrev pub with_session : Text → AuditEntry V → AuditEntry V
  with_session path entry = record entry { session_path = some path }

  abbrev pub with_stop_reason : Text → AuditEntry V → AuditEntry V
  with_stop_reason reason entry = record entry { stop_reason = some reason }

  abbrev pub with_outcome : AuditOutcome → AuditEntry V → AuditEntry V
  with_outcome outcome entry = record entry { outcome = outcome }

  -- `HashMap::insert`
  unfoldable pub insert : Text → V → List (Text × V) → List (Text × V)
  unfolding text_eq
  insert key value [] = (key, value) ∷ []
  insert key value ((k, v) ∷ map) =
      let rest = insert key value map in if text_eq k key then (key, value) ∷ map else (k, v) ∷ rest

  unfoldable pub with_metadata : Text → V → AuditEntry V → AuditEntry V
  unfolding insert
  with_metadata key value entry = record entry { metadata = insert key value entry.metadata }

  -- The entries of `log_resume_started` and its companions, which each log one. `string` makes a
  -- JSON value of a text.
  module _ (string : Text → V) (now : ℕ) where
    unfoldable pub resume_started_entry : Text → Text → AuditEntry V
    unfolding codes
    resume_started_entry path reason = with_outcome pending (
        with_stop_reason reason
          (with_session path (new now resume_started (codes "Starting resume"))))

    unfoldable pub resume_completed_entry : Text → Text → AuditEntry V
    resume_completed_entry path action =
        with_outcome success (with_session path (new now resume_completed action))

    unfoldable pub resume_failed_entry : Text → Text → AuditEntry V
    unfolding codes with_metadata
    resume_failed_entry path message =
        with_metadata (codes "error") (string message)
          (with_outcome failure (with_session path (new now resume_failed (codes "Resume failed"))))

    unfoldable pub session_created_entry : Text → AuditEntry V
    unfolding codes
    session_created_entry path =
        with_outcome success (with_session path (new now session_created (codes "Session created")))

    unfoldable pub session_backed_up_entry : Text → Text → AuditEntry V
    unfolding codes with_metadata
    session_backed_up_entry original backup = with_metadata (codes "backup_path") (string backup) (
        with_outcome success
          (with_session original (new now session_backed_up (codes "Session backed up"))))

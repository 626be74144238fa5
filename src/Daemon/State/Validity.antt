-- ===== src/Daemon/State/Validity.antt =====
-- The configuration that the daemon of src/daemon/state.rs runs with stays valid.
use palingenesis.Prelude.{
  ◌≡◌, ◌∙◌, refl, Bool, true, not, ◌||◌, List, [], ◌∷◌, Result, ok, err, inl, inr, Bool-cases,
  Result-cases,
}
use palingenesis.Prelude.Float.{FloatOps}
use palingenesis.Prelude.Text.{Text, is_empty}
use palingenesis.Config.Schema.{Config}
use palingenesis.Config.Validation.{is_valid}
use palingenesis.Config.Check.{validate_config}
use palingenesis.Ipc.Protocol.{IpcCommand, status, pause, resume, new_session, reload}
use palingenesis.Ipc.Socket.{respond, handle_command, serve}
use palingenesis.Daemon.State
use palingenesis.Daemon.State.{
  DaemonState, Outside, access, load_config_from_disk, reload_config, apply_auto_detection,
  refresh_auto_detected_assistants, monitor_names,
}

module _ {F : Type 0} (fl : FloatOps F) (out : Outside F) where
  -- The daemon runs with a configuration that the validation accepts.
  abbrev pub RunsValid : DaemonState F → Type 0
  RunsValid s = is_valid (validate_config fl out.checks s.config) ≡ true

  respond-RunsValid :
      (p : Result (Unit {0}) Text × DaemonState F) → RunsValid p.1 → RunsValid (respond {F = F} p).1
  respond-RunsValid (ok u, s) h = h
  respond-RunsValid (err e, s) h = h

  abbrev valid : Config F → Bool
  valid c = is_valid (validate_config fl out.checks c)

  -- No check looks at the names of the assistants.
  valid_names : (c : Config F) (names : List Text) → valid (monitor_names c names) ≡ valid c
  unfolding validate_config
  valid_names c names = refl

  detection-valid : (c : Config F) → valid (apply_auto_detection fl out c).0 ≡ valid c
  unfolding apply_auto_detection validate_config
  detection-valid c = elim (Bool-cases (is_empty c.monitoring.assistants)) [
    | inr named ↦ rw named refl
    | inl empty ↦ elim (Bool-cases c.monitoring.auto_detect) [
      | inr off ↦ rw (empty, off) refl
      | inl on ↦ elim (Bool-cases (is_empty out.detected)) [
        | inl none_found ↦ rw (empty, on, none_found) refl
        | inr found ↦ rw (empty, on, found) (valid_names c out.detected)
      ]
    ]
  ]

  reload-RunsValid : (s : DaemonState F) → RunsValid s → RunsValid (reload_config fl out s).1
  unfolding reload_config
  reload-RunsValid s h = elim (Result-cases (load_config_from_disk fl out)) [
    | inr (x, e) ↦ rw (reload_config, e) h
    | inl (c, e) ↦ elim (Bool-cases (valid c)) [
      | inr bad ↦ rw (reload_config, e, bad) h
      | inl good ↦ elim (Bool-cases s.poisoned) [
        | inl stuck ↦ rw (reload_config, e, good, stuck) h
        | inr free ↦ rw (reload_config, e, good, free) (detection-valid c ∙ good)
      ]
    ]
  ]

  resume-RunsValid : (s : DaemonState F) → RunsValid s → RunsValid (State.resume fl out s).1
  unfolding State.resume
  resume-RunsValid s h = elim (Bool-cases s.paused) [
    | inl on ↦ rw (State.resume, on) h
    | inr off ↦ rw (State.resume, off) h
  ]

  step-RunsValid :
      (c : IpcCommand) (s : DaemonState F)
      → RunsValid s
      → RunsValid (handle_command (access fl out) c s).1
  unfolding handle_command access State.pause State.resume State.new_session
  step-RunsValid status s h = h
  step-RunsValid pause s h = respond-RunsValid (State.pause fl out s) h
  step-RunsValid resume s h = respond-RunsValid (State.resume fl out s) (resume-RunsValid s h)
  step-RunsValid new_session s h = h
  step-RunsValid reload s h = respond-RunsValid (reload_config fl out s) (reload-RunsValid s h)

  refresh-RunsValid :
      (s : DaemonState F) → RunsValid s → RunsValid (refresh_auto_detected_assistants fl out s)
  unfolding refresh_auto_detected_assistants
  refresh-RunsValid s h =
      elim (Bool-cases (not s.auto_detect_active || is_empty out.detected || s.poisoned)) [
        | inl skipped ↦ rw (refresh_auto_detected_assistants, skipped) h
        | inr done ↦ rw (refresh_auto_detected_assistants, done) (valid_names s.config _ ∙ h)
      ]

  -- A daemon that runs with a valid configuration still does after every sequence of commands, and
  -- after a refresh of the detected assistants behind it: a reload never installs an invalid one.
  pub serve-RunsValid :
      (cs : List IpcCommand) (s : DaemonState F)
      → RunsValid s
      → RunsValid (refresh_auto_detected_assistants fl out (serve (access fl out) cs s).1)
  unfolding serve
  serve-RunsValid [] s h = refresh-RunsValid s h
  serve-RunsValid (c ∷ cs) s h = serve-RunsValid cs _ (step-RunsValid c s h)

-- ===== src/Daemon/State/Commands.antt =====
-- Sequences of commands to the daemon (src/ipc/socket.rs, src/daemon/state.rs).
use palingenesis.Prelude.{
  ℕ, ◌+◌, ◌%◌, ◌^◌, ◌<◌, ◌≡◌, ◌↔◌, refl, Bool, true, false, ◌&&◌, List, [], ◌∷◌, ok, err, arith,
  inl, inr, Bool-cases, Result-cases,
}
use palingenesis.Prelude.Text.{Text}
use palingenesis.Prelude.Float.{FloatOps}
use palingenesis.Ipc.Protocol.{
  IpcCommand, status, pause, resume, new_session, reload, IpcResponse, ok_response,
}
use palingenesis.Ipc.Socket.{handle_command, serve}
use palingenesis.Config.Schema.{Config}
use palingenesis.Config.Validation.{is_valid}
use palingenesis.Config.Check.{validate_config}
use palingenesis.Daemon.State
use palingenesis.Daemon.State.{
  DaemonState, Outside, access, load_config_from_disk, reload_config, apply_auto_detection,
}

abbrev pub is_pause : IpcCommand → Bool
is_pause pause = true
is_pause _ = false

abbrev pub is_resume : IpcCommand → Bool
is_resume resume = true
is_resume _ = false

abbrev pub is_accepted : {F : Type 0} → IpcResponse F → Bool
is_accepted ok_response = true
is_accepted _ = false

abbrev pub count : Bool → ℕ
count true = 1
count false = 0

-- How many commands of a kind were answered with OK.
abbrev pub accepted :
    {F : Type 0} → (IpcCommand → Bool) → List IpcCommand → List (IpcResponse F) → ℕ
accepted kind [] _ = 0
accepted kind (_ ∷ _) [] = 0
accepted kind (c ∷ cs) (r ∷ rs) = count (kind c && is_accepted r) + accepted kind cs rs

module _ {F : Type 0} (fl : FloatOps F) (out : Outside F) where
  abbrev step : IpcCommand → DaemonState F → IpcResponse F × DaemonState F
  step c s = handle_command (access fl out) c s

  reload-keeps :
      (s : DaemonState F)
      → ((reload_config fl out s).1.paused ≡ s.paused)
        × ((reload_config fl out s).1.resumes_count ≡ s.resumes_count)
  unfolding reload_config
  reload-keeps s = elim (Result-cases (load_config_from_disk fl out)) [
    | inl (c, e) ↦ ground arith
    | inr (x, e) ↦ ground arith
  ]

  step-paused :
      (c : IpcCommand) (s : DaemonState F)
      → count s.paused + count (is_pause c && is_accepted (step c s).0)
        ≡ count (step c s).1.paused + count (is_resume c && is_accepted (step c s).0)
  unfolding handle_command access State.pause State.resume State.new_session
  step-paused status s = refl
  step-paused pause s = ground arith
  step-paused resume s = ground arith
  step-paused new_session s = refl
  step-paused reload s = ground (arith, reload-keeps s)

  step-resumes :
      (c : IpcCommand) (s : DaemonState F)
      → s.resumes_count < 2 ^ 64
      → (step c s).1.resumes_count
        ≡ (s.resumes_count + count (is_resume c && is_accepted (step c s).0)) % 2 ^ 64
  unfolding handle_command access State.pause State.resume State.new_session
  step-resumes status s h = omega arith
  step-resumes pause s h = ground arith
  step-resumes resume s h = ground arith
  step-resumes new_session s h = omega arith
  step-resumes reload s h = ground (arith, reload-keeps s)

  abbrev served : List IpcCommand → DaemonState F → List (IpcResponse F) × DaemonState F
  served cs s = serve (access fl out) cs s

  -- In every sequence of commands, pauses and resumes that are answered with OK alternate: counting
  -- a daemon that is paused at the beginning as one more pause, and one that is paused at the end as
  -- one more resume, there are as many of the one as of the other.
  pub serve-paused :
      (cs : List IpcCommand) (s : DaemonState F)
      → count s.paused + accepted is_pause cs (served cs s).0
        ≡ count (served cs s).1.paused + accepted is_resume cs (served cs s).0
  unfolding serve
  serve-paused [] s = refl
  serve-paused (c ∷ cs) s = omega (arith, step-paused c s, serve-paused cs (step c s).1)

  -- After every sequence of commands the number of resumes that a status reports has grown by the
  -- number of resumes that were answered with OK, modulo 2 ^ 64.
  serve-resumes :
      (cs : List IpcCommand) (s : DaemonState F)
      → s.resumes_count < 2 ^ 64
      → (State.get_status fl out (served cs s).1).total_resumes
        ≡ (s.resumes_count + accepted is_resume cs (served cs s).0) % 2 ^ 64
  unfolding serve State.get_status
  serve-resumes [] s h = omega arith
  serve-resumes (c ∷ cs) s h =
      let first = step-resumes c s h in
      let rest = serve-resumes cs (step c s).1 (omega (arith, first)) in omega (arith, first, rest)

  -- A reload is answered with OK exactly when the configuration on disk loads and is valid and the
  -- lock is not poisoned, and then installs it with automatic detection applied.
  reload_config_iff :
      (s : DaemonState F)
      → ((reload_config fl out s).0 ≡ ok tt) ↔ (
          (c : Config F) × (load_config_from_disk fl out ≡ ok c)
          × (is_valid (validate_config fl out.checks c) ≡ true)
          × (s.poisoned ≡ false)
          × ((reload_config fl out s).1.config ≡ (apply_auto_detection fl out c).0))
  unfolding reload_config
  reload_config_iff s = (
    λ h. elim (Result-cases (load_config_from_disk fl out)) [
      | inl (c, e) ↦ elim (Bool-cases (is_valid (validate_config fl out.checks c))) [
        | inl good ↦ elim (Bool-cases s.poisoned) [
          | inl stuck ↦ absurd (ground arith)
          | inr free ↦ (c, e, good, free, ground arith)
        ]
        | inr bad ↦ absurd (ground arith)
      ]
      | inr (x, e) ↦ absurd (ground arith)
    ],
    λ (c, e, good, free, _). ground arith,
  )

  -- A reload that fails, for whatever reason, leaves the daemon as it was.
  reload_config-failed :
      (s : DaemonState F) (message : Text)
      → (reload_config fl out s).0 ≡ err message
      → (reload_config fl out s).1 ≡ s
  unfolding reload_config
  reload_config-failed s message h = elim (Result-cases (load_config_from_disk fl out)) [
    | inl (c, e) ↦ elim (Bool-cases (is_valid (validate_config fl out.checks c))) [
      | inl good ↦ ground arith
      | inr bad ↦ ground arith
    ]
    | inr (x, e) ↦ ground arith
  ]

-- ===== src/Resume/Effects.antt =====
-- What a resume strategy does to the world: the calls of the metrics (src/telemetry/metrics.rs) and
-- of the audit log (src/state/audit.rs), its waits, and the state file of State/Store, whose calls
-- are taken with the ways in which they can go wrong. The spans and log lines of the tracing crate
-- are left out.
use palingenesis.Prelude.{
  [], suc, ℕ, Bool, true, false, List, ◌∷◌, Option, none, some, if◌then◌else◌,
}
use palingenesis.Prelude.Time.{Duration}
use palingenesis.Prelude.Text.{Text}
use palingenesis.Prelude.Words.{add_u64}
use palingenesis.Prelude.Float.{FloatOps}
use palingenesis.State.Schema.{StateFile, CurrentSession, default_state}

pub data Effect (F : Type 0) : Type 0 where
  set_retry_attempts : ℕ → Effect F
  record_resume_started : Text → Effect F
  -- Whether it succeeded, and the label of the error.
  record_resume_completed : Bool → Option Text → Effect F
  record_wait : Duration → Effect F
  record_save : Effect F
  record_session_started : Effect F
  record_time_saved : F → Effect F
  log_resume_started : Text → Text → Effect F
  log_resume_completed : Text → Text → Effect F
  log_resume_failed : Text → Text → Effect F
  log_session_created : Text → Effect F
  log_session_backed_up : Text → Text → Effect F
  wait : Duration → Effect F
  trigger : Effect F
  create : Text → Effect F

-- The effects so far, the latest first; the generator of the thread; the state file as a
-- `StateStore::load` that works returns it, so that a file that is not there, or is corrupted,
-- counts as the defaults (`load` itself writes the defaults where there is no file).
pub record World (F S : Type 0) : Type 0 where
  pub effects : List (Effect F)
  pub rng : S
  pub store : StateFile F

-- `none` is a panic.
abbrev pub M : Type 0 → Type 0 → Type 0 → Type 0
M F S A = World F S → Option (A × World F S)

infixl 5 ◌>>=◌ ◌>>◌
abbrev pub ◌>>=◌ : {F S A B : Type 0} → M F S A → (A → M F S B) → M F S B
◌>>=◌ m f w = elim (m w) [ none ↦ none | some (a, w') ↦ f a w' ]

abbrev pub ◌>>◌ : {F S B : Type 0} → M F S (Unit {0}) → M F S B → M F S B
m >> k = m >>= λ _. k

abbrev pub pure : {F S A : Type 0} → A → M F S A
pure a w = some (a, w)

abbrev pub perform : {F S : Type 0} → Effect F → M F S (Unit {0})
perform e w = some (tt, record w { effects = e ∷ w.effects })

abbrev pub push : {F : Type 0} → Bool → Effect F → List (Effect F) → List (Effect F)
push true e es = e ∷ es
push false e es = es

-- `if let Some(metrics) = …`, `if let Some(logger) = …`: an effect on a condition.
abbrev pub emit : {F S : Type 0} → Bool → Effect F → M F S (Unit {0})
emit on e w = some (tt, record w { effects = push on e w.effects })

-- How often the trigger was pulled.
abbrev pub triggers : {F : Type 0} → List (Effect F) → ℕ
triggers [] = 0
triggers (trigger ∷ es) = suc (triggers es)
triggers (_ ∷ es) = triggers es

-- What a strategy runs in.
pub record Env (F : Type 0) : Type 0 where
  -- `Metrics::global()` and the audit logger are there.
  pub metrics : Bool
  pub audit : Bool
  -- The store's `load` falls back on the defaults, for a lock that is held or a file it cannot read.
  pub load_fails : Bool
  -- The store's `save` fails with this text, and whether it fails only after it has replaced the
  -- file, at the last permissions.
  pub save_error : Option (Bool × Text)
  pub manual_restart_time_seconds : ℕ  -- u64, of `load_metrics_config`
  -- `Utc::now()`
  pub now : ℕ
  -- `as_secs_f64`
  pub as_secs_f64 : Duration → F

pub record TimeSavedCalculation (F : Type 0) : Type 0 where
  pub wait_duration_seconds : F
  pub manual_restart_seconds : F
  pub total_saved_seconds : F

module _ {F : Type 0} (fl : FloatOps F) (env : Env F) where
  -- What `load` gives for a state file.
  abbrev pub loaded : StateFile F → StateFile F
  loaded state = if env.load_fails then default_state fl else state

  -- src/resume/time_saved.rs
  unfoldable pub calculate_time_saved : Duration → TimeSavedCalculation F
  calculate_time_saved wait_duration =
      let wait_seconds = env.as_secs_f64 wait_duration in
      let manual_restart = fl.of_ℕ env.manual_restart_time_seconds in
      record {
        wait_duration_seconds = wait_seconds;
        manual_restart_seconds = manual_restart;
        total_saved_seconds = fl.add wait_seconds manual_restart;
      }

  -- The state that `update_state_on_resume` of both strategies saves.
  unfoldable pub resumed_state : CurrentSession → Duration → StateFile F → StateFile F
  unfolding calculate_time_saved
  resumed_state session wait_duration state =
      let saved = (calculate_time_saved wait_duration).total_saved_seconds in
      record state {
        stats = record {
          saves_count = add_u64 state.stats.saves_count 1;
          total_resumes = add_u64 state.stats.total_resumes 1;
          last_resume = some env.now;
          time_saved_seconds = fl.add state.stats.time_saved_seconds saved;
        };
        current_session = some session;
      }

-- ===== src/State/Schema.antt =====
-- src/state/schema.rs: the state file. A time stamp is a number; `F` is the type `f64`.
use palingenesis.Prelude.{ℕ, List, [], Option, none}
use palingenesis.Prelude.Text.{Text}
use palingenesis.Prelude.Float.{FloatOps}

pub data DaemonState : Type 0 where
  monitoring paused stopped : DaemonState

pub record CurrentSession : Type 0 where
  pub path : Text
  pub steps_completed : List ℕ
  pub last_step : ℕ  -- u32
  pub total_steps : ℕ  -- u32

abbrev pub default_session : CurrentSession
default_session = record { path = []; steps_completed = []; last_step = 0; total_steps = 0 }

pub record Stats (F : Type 0) : Type 0 where
  pub saves_count : ℕ  -- u64
  pub total_resumes : ℕ  -- u64
  pub last_resume : Option ℕ
  pub time_saved_seconds : F

pub record StateFile (F : Type 0) : Type 0 where
  pub version : ℕ  -- u32
  pub daemon_state : DaemonState
  pub current_session : Option CurrentSession
  pub stats : Stats F

abbrev pub state_version : ℕ
state_version = 1

unfoldable pub default_state : {F : Type 0} → FloatOps F → StateFile F
default_state fl = record {
  version = state_version;
  daemon_state = stopped;
  current_session = none;
  stats = record {
    saves_count = 0;
    total_resumes = 0;
    last_resume = none;
    time_saved_seconds = fl.of_ℕ 0;
  };
}

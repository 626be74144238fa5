-- ===== src/Tests/SameSession.antt =====
-- src/resume/same_session.rs at a concrete context.
use palingenesis.Prelude.{ℕ, suc, true, false, [], ◌∷◌, none, some, ok, err}
use palingenesis.Prelude.Int.{ℤ, pos}
use palingenesis.Prelude.Time.{from_secs}
use palingenesis.Prelude.Text.{codes}
use palingenesis.Monitor.Classifier.Types.{unknown}
use palingenesis.State.Schema.{default_state}
use palingenesis.Resume.Context.{ResumeContext}
use palingenesis.Resume.Outcome.{delayed, timeout}
use palingenesis.Resume.Effects.{
  World, Env, record_resume_completed, trigger, record_wait, wait, record_resume_started,
  set_retry_attempts,
}
use palingenesis.Resume.Backoff
use palingenesis.Resume.SameSession.{SameSessionConfig, Outside, Answer, default_config}
use palingenesis.Resume.SameSession.Ending.{Ending}
use palingenesis.Tests.Floats.{floats}

abbrev env : Env ℤ
env = record {
  metrics = true;
  audit = false;
  load_fails = false;
  save_error = none;
  manual_restart_time_seconds = 300;
  now = 0;
  as_secs_f64 = λ d. pos d;
}

-- A trigger that always times out.
abbrev outside : Outside ℤ ℕ
outside = record {
  gen_range = λ lo hi s. some (lo, suc s);
  resume_trigger = λ ctx. err (timeout (from_secs 60));
  cancelled = λ d. false;
  debug_reason = λ r. codes "reason";
  debug_duration = λ d. codes "60s";
}

abbrev cfg : SameSessionConfig ℤ
cfg = default_config floats

abbrev ctx : ResumeContext ℤ
ctx = record {
  session_path = codes "/tmp/session.md";
  stop_reason = unknown (codes "x");
  retry_after = some (from_secs 45);
  session_metadata = none;
  attempt_number = 2;
  timestamp = 0;
}

abbrev world : World ℤ ℕ
world = record { effects = []; rng = 0; store = default_state floats }

abbrev answer : Answer floats env outside cfg
answer =
    ok (delayed (from_secs 108) (codes "Resume failed, will retry: Operation timed out after 60s"))

abbrev after : World ℤ ℕ
after = record world {
  effects =
      record_resume_completed false (some (codes "timeout"))
      ∷ trigger
      ∷ record_wait (from_secs 45)
      ∷ wait (from_secs 45)
      ∷ record_resume_started (codes "manual")
      ∷ set_retry_attempts 2
      ∷ [];
  rng = 1;
}

-- ===== src/Resume/SameSession/Outcomes.antt =====
-- `execute` of src/resume/same_session.rs ends in one of the ways of the specification.
use palingenesis.Prelude.{get_or, ◌∷◌}
use palingenesis.Prelude.Time.{Duration}
use palingenesis.Prelude.Text.{codes}
use palingenesis.Prelude.Float.{FloatOps}
use palingenesis.Monitor.Classifier.Types.{metrics_reason_label}
use palingenesis.Resume.Context.{ResumeContext}
use palingenesis.Resume.Effects.{
  log_resume_started, record_resume_started, set_retry_attempts, trigger, push, record_wait, World,
  Env,
}
use palingenesis.Resume.SameSession.{execute, SameSessionConfig, Outside, execute}
use palingenesis.Resume.SameSession.Ending.{Ending}

module _ {F S : Type 0} (fl : FloatOps F) (env : Env F) (out : Outside F S)
    (cfg : SameSessionConfig F) (ctx : ResumeContext F) where
  -- The world when the trigger has just been pulled.
  abbrev pulled : World F S → Duration → World F S
  pulled w d = record w { effects = trigger ∷ push env.metrics (record_wait d) w.effects }

  abbrev started : World F S → World F S
  started w = record w {
    effects =
        push env.audit (log_resume_started ctx.session_path (out.debug_reason ctx.stop_reason)) (
          push env.metrics
            (record_resume_started (get_or (metrics_reason_label ctx.stop_reason) (codes "manual")))
            (push env.metrics (set_retry_attempts ctx.attempt_number) w.effects));
  }

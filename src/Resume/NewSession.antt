-- ===== src/Resume/NewSession.antt =====
-- src/resume/new_session.rs: `execute` starts a new session after the context is exhausted.
pub mod Ending
use palingenesis.Prelude.{
  ℕ, ◌+◌, ◌-◌, ◌%◌, ◌^◌, Bool, true, false, List, [], ◌∷◌, ◌++◌, map, Option, none, some, Result,
  ok, err, max, get_or, length, get_elem?, if◌then◌else◌,
}
use palingenesis.Prelude.Time.{Duration}
use palingenesis.Prelude.Text.{Text, codes, is_empty, trim, join, replace, lines, contains, split}
use palingenesis.Prelude.Words.{add_u32}
use palingenesis.Prelude.Number.{decimal}
use palingenesis.Prelude.Int.{display_int}
use palingenesis.Prelude.Float.{FloatOps}
use palingenesis.Monitor.Session.{Session}
use palingenesis.Monitor.Classifier.Types.{StopReason, metrics_reason_label}
use palingenesis.Monitor.Frontmatter.{IoError, not_found, other, Files}
use palingenesis.State.Schema.{StateFile, CurrentSession}
use palingenesis.Resume.Context.{ResumeContext}
use palingenesis.Resume.Outcome.{
  ResumeOutcome, success, ResumeError, io, session_not_found, config, command_failed, display_error,
  error_label,
}
use palingenesis.Resume.Steps.{steps_completed_from_session}
use palingenesis.Resume.NextStep.{NextStepInfo, parse_next_step, continue_from}
use palingenesis.Resume.Effects.{
  Effect, set_retry_attempts, record_resume_started, record_resume_completed, record_save,
  record_session_started, record_time_saved, log_resume_started, log_resume_completed,
  log_resume_failed, log_session_created, log_session_backed_up, create, World, M, ◌>>=◌, ◌>>◌,
  pure, perform, emit, Env, calculate_time_saved, loaded, resumed_state,
}
use palingenesis.Resume.Prompt.{
  NewSessionConfig, Outside, read_next_step, generate_prompt, build_current_session, chosen_step,
  started_text,
}

abbrev pub Answer : Type 0
Answer = Result ResumeOutcome ResumeError

module _ {F S : Type 0} (fl : FloatOps F) (env : Env F) (out : Outside F)
    (cfg : NewSessionConfig) where
  abbrev metric : Effect F → M F S (Unit {0})
  metric e = emit env.metrics e

  abbrev audit : Effect F → M F S (Unit {0})
  audit e = emit env.audit e

  -- `store.save`
  abbrev save : StateFile F → M F S (Result (Unit {0}) ResumeError)
  save state w = elim env.save_error [
    | some (replaced, message) ↦ some (
      err (config (codes "state store error: " ++ message)),
      record w { store = if replaced then state else w.store },
    )
    | none ↦ some (ok tt, record w { store = state })
  ]

  abbrev after_save :
      Duration → Result (Unit {0}) ResumeError → M F S (Result (Unit {0}) ResumeError)
  after_save d (err e) = pure (err e)
  after_save d (ok _) = do
    metric record_save
    metric (record_time_saved (calculate_time_saved fl env d).total_saved_seconds)
    pure (ok tt)

  unfoldable pub update_state_on_resume :
      ResumeContext F → Text → NextStepInfo → Duration → M F S (Result (Unit {0}) ResumeError)
  update_state_on_resume ctx path next_step d w =
      (do
        saved ← save (
            resumed_state fl env (build_current_session ctx path next_step) d
              (loaded fl env w.store))
        after_save d saved)
        w

  -- The errors that are logged, and those that only the metrics see.
  abbrev fail_quietly : ResumeError → M F S Answer
  fail_quietly e = do
    metric (record_resume_completed false (some (error_label e)))
    metric (set_retry_attempts 0)
    pure (err e)

  abbrev fail : ResumeContext F → ResumeError → M F S Answer
  fail ctx e = do
    audit (log_resume_failed ctx.session_path (display_error out.debug_duration e))
    fail_quietly e

  abbrev after_update :
      ResumeContext F → Text → NextStepInfo → Result (Unit {0}) ResumeError → M F S Answer
  after_update ctx path next_step (err e) = fail ctx e
  after_update ctx path next_step (ok _) = do
    audit (log_resume_completed ctx.session_path (started_text next_step))
    metric record_session_started
    metric (record_resume_completed true none)
    metric (set_retry_attempts 0)
    pure (ok (success path (started_text next_step)))

  abbrev after_create : ResumeContext F → NextStepInfo → Result Text ResumeError → M F S Answer
  after_create ctx next_step (err e) = fail ctx e
  after_create ctx next_step (ok path) = do
    audit (log_session_created path)
    updated ← update_state_on_resume ctx path next_step 0
    after_update ctx path next_step updated

  unfoldable pub start_from : ResumeContext F → Text → NextStepInfo → M F S Answer
  start_from ctx session_dir next_step = do
    let prompt = generate_prompt out cfg next_step ctx
    perform (create prompt)
    after_create ctx next_step (out.creator prompt session_dir)

  -- An unreadable next-step file ends the execution at once.
  abbrev after_read :
      ResumeContext F → Text → Result (Option NextStepInfo) ResumeError → M F S Answer
  after_read ctx session_dir (err e) = pure (err e)
  after_read ctx session_dir (ok read) =
      start_from ctx session_dir (chosen_step ctx.session_metadata read)

  abbrev log_backup : ResumeContext F → Result Text Text → M F S (Unit {0})
  log_backup ctx (ok backup_path) = audit (log_session_backed_up ctx.session_path backup_path)
  log_backup ctx (err message) = pure tt

  unfoldable pub back_up : ResumeContext F → M F S (Unit {0})
  back_up ctx = if cfg.enable_backup then log_backup ctx (out.backup ctx.session_path) else pure tt

  abbrev in_directory : ResumeContext F → Option Text → M F S Answer
  in_directory ctx none = fail_quietly (session_not_found ctx.session_path)
  in_directory ctx (some session_dir) = do
    back_up ctx
    after_read ctx session_dir (read_next_step out cfg session_dir)

  unfoldable pub start : ResumeContext F → M F S (Unit {0})
  start ctx = do
    metric (set_retry_attempts ctx.attempt_number)
    metric (record_resume_started (get_or (metrics_reason_label ctx.stop_reason) (codes "manual")))
    audit (log_resume_started ctx.session_path (out.debug_reason ctx.stop_reason))

  unfoldable pub execute : ResumeContext F → M F S Answer
  execute ctx = do start ctx; in_directory ctx (out.parent ctx.session_path)

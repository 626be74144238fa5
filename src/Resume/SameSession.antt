-- ===== src/Resume/SameSession.antt =====
-- src/resume/same_session.rs: resuming the same session after a rate limit.
-- The trigger, the cancellation token and the debug forms are parameters.
pub mod Ending
pub mod Outcomes
use palingenesis.Prelude.{
  ℕ, ◌+◌, Bool, true, false, List, [], ◌∷◌, ◌++◌, map, Option, none, some, Result, ok, err, ltb,
  get_or, ◌&&◌, if◌then◌else◌, not,
}
use palingenesis.Prelude.Time.{Duration, from_secs}
use palingenesis.Prelude.Text.{Text, codes, is_empty, join}
use palingenesis.Prelude.Number.{decimal}
use palingenesis.Prelude.Float.{FloatOps}
use palingenesis.Monitor.Classifier.Types.{StopReason, metrics_reason_label}
use palingenesis.Monitor.Frontmatter.{IoError}
use palingenesis.State.Schema.{StateFile, CurrentSession, default_session}
use palingenesis.Resume.Backoff
use palingenesis.Resume.Backoff.{BackoffConfig, Backoff}
use palingenesis.Resume.Context.{ResumeContext}
use palingenesis.Resume.Outcome.{
  ResumeOutcome, success, failure, skipped, delayed, ResumeError, io, config, command_failed,
  display_error, error_label,
}
use palingenesis.Resume.Steps.{current_session_from_metadata}
use palingenesis.Resume.Effects.{
  Effect, set_retry_attempts, record_resume_started, record_resume_completed, record_wait,
  record_save, record_time_saved, log_resume_started, log_resume_completed, log_resume_failed, wait,
  trigger, World, M, ◌>>=◌, ◌>>◌, pure, perform, emit, Env, calculate_time_saved, loaded,
  resumed_state,
}

pub record SameSessionConfig (F : Type 0) : Type 0 where
  pub backoff_base_secs : ℕ  -- u64
  pub backoff_max_secs : ℕ  -- u64
  pub max_retries : ℕ  -- u32
  pub backoff_jitter : Bool
  pub backoff_jitter_percent : F
  pub resume_command : List Text

unfoldable pub default_config : {F : Type 0} → FloatOps F → SameSessionConfig F
default_config fl = record {
  backoff_base_secs = 30;
  backoff_max_secs = 300;
  max_retries = 5;
  backoff_jitter = true;
  backoff_jitter_percent = fl.decimal 1 1;
  resume_command = map codes ("opencode" ∷ "continue" ∷ "--session" ∷ []);
}

-- `CommandResumeTrigger`: the program is run with the session's path as its last argument, and tells
-- whether it succeeded and what it wrote as an error.
unfoldable pub command_trigger :
    {F : Type 0}
    → (List Text → Result (Bool × Text) IoError)
    → List Text
    → ResumeContext F
    → Result (Unit {0}) ResumeError
command_trigger run command ctx =
    if is_empty command
    then err (config (codes "resume command cannot be empty"))
    else elim (run (command ++ ctx.session_path ∷ [])) [
      | err e ↦ err (io e)
      | ok (done, stderr) ↦
          if done then ok tt else err (command_failed (join (codes " ") command) stderr)
    ]

-- What the strategy takes from outside, beside the environment.
pub record Outside (F S : Type 0) : Type 0 where
  pub gen_range : F → F → S → Option (F × S)
  -- `ResumeTrigger::trigger`
  pub resume_trigger : ResumeContext F → Result (Unit {0}) ResumeError
  -- The token is there and is cancelled before a wait of this length is over.
  pub cancelled : Duration → Bool
  pub debug_reason : StopReason F → Text
  pub debug_duration : Duration → Text

module _ {F S : Type 0} (fl : FloatOps F) (env : Env F) (out : Outside F S)
    (cfg : SameSessionConfig F) where
  abbrev backoff_config : BackoffConfig F
  backoff_config = record {
    base_delay = from_secs cfg.backoff_base_secs;
    max_delay = from_secs cfg.backoff_max_secs;
    max_retries = cfg.max_retries;
    jitter_enabled = cfg.backoff_jitter;
    jitter_percent = cfg.backoff_jitter_percent;
  }

  unfoldable pub backoff : Backoff F
  backoff = elim (Backoff.with_config fl backoff_config) [ ok b ↦ b | err e ↦ Backoff.default fl ]

  unfoldable pub backoff_delay : ℕ → M F S Duration
  backoff_delay attempt_number w =
      elim (Backoff.delay_for_attempt fl out.gen_range backoff attempt_number w.rng) [
        | none ↦ none
        | some (delay, rng) ↦ some (delay, record w { rng = rng })
      ]

  unfoldable pub wait_duration : ResumeContext F → M F S Duration
  wait_duration ctx w = elim ctx.retry_after [
    | some retry_after ↦ some (retry_after, w)
    | none ↦ backoff_delay ctx.attempt_number w
  ]

  -- A wait that is cut short leaves no effect.
  unfoldable pub wait_or_cancel : Duration → M F S Bool
  wait_or_cancel duration w =
      if out.cancelled duration
      then some (false, w)
      else some (true, record w { effects = wait duration ∷ w.effects })

  unfoldable pub build_current_session : ResumeContext F → CurrentSession
  build_current_session ctx = elim ctx.session_metadata [
    | some session ↦ current_session_from_metadata session ctx.session_path
    | none ↦ record default_session { path = ctx.session_path }
  ]

  abbrev metric : Effect F → M F S (Unit {0})
  metric e = emit env.metrics e

  abbrev audit : Effect F → M F S (Unit {0})
  audit e = emit env.audit e

  -- `store.save`
  abbrev save : StateFile F → M F S (Result (Unit {0}) ResumeError)
  save state w = elim env.save_error [
    | some (replaced, message) ↦ some (
      err (config (codes "state store error: " ++ message)),
      record w { store = if replaced then state else w.store },
    )
    | none ↦ some (ok tt, record w { store = state })
  ]

  abbrev after_save :
      Duration → Result (Unit {0}) ResumeError → M F S (Result (Unit {0}) ResumeError)
  after_save d (err e) = pure (err e)
  after_save d (ok _) = do
    metric record_save
    metric (record_time_saved (calculate_time_saved fl env d).total_saved_seconds)
    pure (ok tt)

  unfoldable pub update_state_on_resume :
      ResumeContext F → Duration → M F S (Result (Unit {0}) ResumeError)
  unfolding build_current_session
  update_state_on_resume ctx d w =
      (do
        saved ← save (resumed_state fl env (build_current_session ctx) d (loaded fl env w.store))
        after_save d saved)
        w

  abbrev pub Answer : Type 0
  Answer = Result ResumeOutcome ResumeError

  abbrev limit_text : ResumeContext F → Text
  limit_text ctx =
      codes "Retry limit exceeded after " ++ (decimal ctx.attempt_number ++ codes " attempts")

  abbrev resumed_text : Text
  resumed_text = codes "Resumed same session after rate limit"

  unfoldable pub limit_exceeded : ResumeContext F → M F S Answer
  limit_exceeded ctx = do
    audit (log_resume_failed ctx.session_path (limit_text ctx))
    metric (record_resume_completed false (some (codes "retry_exceeded")))
    metric (set_retry_attempts 0)
    pure (ok (failure (limit_text ctx) false))

  abbrev after_update : ResumeContext F → Result (Unit {0}) ResumeError → M F S Answer
  after_update ctx (err e) = pure (err e)
  after_update ctx (ok _) = do
    audit (log_resume_completed ctx.session_path resumed_text)
    metric (record_resume_completed true none)
    metric (set_retry_attempts 0)
    pure (ok (success ctx.session_path resumed_text))

  unfoldable pub trigger_succeeded : ResumeContext F → Duration → M F S Answer
  trigger_succeeded ctx d = do updated ← update_state_on_resume ctx d; after_update ctx updated

  abbrev give_up_or_delay : ResumeContext F → Text → Bool → M F S Answer
  give_up_or_delay ctx message true = do
    next_delay ← backoff_delay (ctx.attempt_number + 1)
    pure (ok (delayed next_delay (codes "Resume failed, will retry: " ++ message)))
  give_up_or_delay ctx message false = pure (ok (failure message false))

  unfoldable pub trigger_failed : ResumeContext F → ResumeError → M F S Answer
  trigger_failed ctx e = do
    let message = display_error out.debug_duration e
    let retryable = ltb ctx.attempt_number cfg.max_retries
    audit (log_resume_failed ctx.session_path message)
    metric (record_resume_completed false (some (error_label e)))
    emit (env.metrics && not retryable) (set_retry_attempts 0)
    give_up_or_delay ctx message retryable

  abbrev on_trigger : ResumeContext F → Duration → Result (Unit {0}) ResumeError → M F S Answer
  on_trigger ctx d (ok _) = trigger_succeeded ctx d
  on_trigger ctx d (err e) = trigger_failed ctx e

  abbrev after_wait : ResumeContext F → Duration → Bool → M F S Answer
  after_wait ctx d false = do
    metric (set_retry_attempts 0)
    pure (ok (skipped (codes "same-session resume cancelled")))
  after_wait ctx d true = do
    metric (record_wait d)
    perform trigger
    on_trigger ctx d (out.resume_trigger ctx)

  unfoldable pub attempt_resume : ResumeContext F → M F S Answer
  attempt_resume ctx = do d ← wait_duration ctx; waited ← wait_or_cancel d; after_wait ctx d waited

  unfoldable pub start : ResumeContext F → M F S (Unit {0})
  start ctx = do
    metric (set_retry_attempts ctx.attempt_number)
    metric (record_resume_started (get_or (metrics_reason_label ctx.stop_reason) (codes "manual")))
    audit (log_resume_started ctx.session_path (out.debug_reason ctx.stop_reason))

  unfoldable pub execute : ResumeContext F → M F S Answer
  unfolding start
  execute ctx = do
    start ctx
    if ltb cfg.max_retries ctx.attempt_number then limit_exceeded ctx else attempt_resume ctx

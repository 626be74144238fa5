-- ===== src/Resume/SameSession/Ending.antt =====
-- The specification of `execute` of src/resume/same_session.rs: the ways in which it can end.
use palingenesis.Prelude.{
  Bool, if◌then◌else◌, Option, ℕ, suc, ◌+◌, ◌≤◌, ◌<◌, ◌≡◌, true, false, none, some, ok, err, ◌++◌,
}
use palingenesis.Prelude.Time.{Duration}
use palingenesis.Prelude.Text.{Text, codes}
use palingenesis.Prelude.Float.{FloatOps}
use palingenesis.Resume.Backoff.{delay_for_attempt}
use palingenesis.Resume.Context.{ResumeContext}
use palingenesis.Resume.Outcome.{
  success, failure, delayed, skipped, delayed, ResumeError, config, display_error,
}
use palingenesis.Resume.Effects.{World, Env, triggers, loaded, resumed_state}
use palingenesis.State.Schema.{StateFile}
use palingenesis.Resume.SameSession.{
  backoff, SameSessionConfig, Outside, Answer, limit_text, resumed_text, build_current_session,
}

module _ {F S : Type 0} (fl : FloatOps F) (env : Env F) (out : Outside F S)
    (cfg : SameSessionConfig F) (ctx : ResumeContext F) where
  -- An execution that leaves the state file alone, and pulls the trigger so many times.
  pub record Keeps (n : ℕ) (w w' : World F S) : Type 0 where
    pub store : w'.store ≡ w.store
    pub pulls : triggers w'.effects ≡ n + triggers w.effects

  -- A delay that the backoff computes for an attempt, from a state of the generator.
  abbrev pub IsDelay : ℕ → S → Duration → Type 0
  IsDelay attempt s d =
      (s' : S) × (delay_for_attempt fl out.gen_range (backoff fl env out cfg) attempt s
        ≡ some (d, s'))

  -- The wait that is due: what the rate limit asked for, else the delay of the attempt.
  abbrev pub IsWait : Option Duration → S → Duration → Type 0
  IsWait (some retry_after) s d = d ≡ retry_after
  IsWait none s d = IsDelay ctx.attempt_number s d

  -- The state with the resumed session, on top of what could be loaded.
  abbrev pub updated : Duration → World F S → StateFile F
  updated d w =
      resumed_state fl env (build_current_session fl env out cfg ctx) d (loaded fl env w.store)

  -- The six endings, with what decides between them.
  pub data Ending (w w' : World F S) (a : Answer fl env out cfg) : Type 0 where
    limit :
        cfg.max_retries < ctx.attempt_number
        → a ≡ ok (failure (limit_text fl env out cfg ctx) false)
        → Keeps 0 w w'
        → Ending w w' a
    cancelled :
        (d : Duration)
        → ctx.attempt_number ≤ cfg.max_retries
        → IsWait ctx.retry_after w.rng d
        → out.cancelled d ≡ true
        → a ≡ ok (skipped (codes "same-session resume cancelled"))
        → Keeps 0 w w'
        → Ending w w' a
    resumed :
        (d : Duration)
        → ctx.attempt_number ≤ cfg.max_retries
        → IsWait ctx.retry_after w.rng d
        → out.cancelled d ≡ false
        → out.resume_trigger ctx ≡ ok tt
        → env.save_error ≡ none
        → a ≡ ok (success ctx.session_path (resumed_text fl env out cfg))
        → w'.store ≡ updated d w
        → triggers w'.effects ≡ suc (triggers w.effects)
        → Ending w w' a
    unsaved :
        (d : Duration) (replaced : Bool) (message : Text)
        → ctx.attempt_number ≤ cfg.max_retries
        → IsWait ctx.retry_after w.rng d
        → out.cancelled d ≡ false
        → out.resume_trigger ctx ≡ ok tt
        → env.save_error ≡ some (replaced, message)
        → a ≡ err (config (codes "state store error: " ++ message))
        → w'.store ≡ (if replaced then updated d w else w.store)
        → triggers w'.effects ≡ suc (triggers w.effects)
        → Ending w w' a
    later :
        (d : Duration) (s : S) (e : ResumeError)
        → ctx.attempt_number < cfg.max_retries
        → out.resume_trigger ctx ≡ err e
        → IsDelay (ctx.attempt_number + 1) s d
        → a
          ≡ ok (
              delayed d (codes "Resume failed, will retry: " ++ display_error out.debug_duration e))
        → Keeps 1 w w'
        → Ending w w' a
    gave_up :
        (e : ResumeError)
        → ctx.attempt_number ≡ cfg.max_retries
        → out.resume_trigger ctx ≡ err e
        → a ≡ ok (failure (display_error out.debug_duration e) false)
        → Keeps 1 w w'
        → Ending w w' a

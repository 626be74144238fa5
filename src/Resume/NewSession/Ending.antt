-- ===== src/Resume/NewSession/Ending.antt =====
-- The specification of `execute` of src/resume/new_session.rs: the ways in which it can end.
pub mod Outcomes
use palingenesis.Prelude.{
  if◌then◌else◌, Bool, true, false, ℕ, suc, ◌+◌, ◌≡◌, ◌++◌, List, [], ◌∷◌, Option, none, some, ok,
  err,
}
use palingenesis.Prelude.Text.{Text, codes}
use palingenesis.Prelude.Float.{FloatOps}
use palingenesis.Resume.Context.{ResumeContext}
use palingenesis.Resume.Outcome.{success, ResumeError, config, session_not_found}
use palingenesis.Resume.NextStep.{NextStepInfo}
use palingenesis.Resume.Effects.{
  Effect, create, record_resume_completed, World, Env, loaded, resumed_state,
}
use palingenesis.State.Schema.{StateFile}
use palingenesis.Resume.Prompt.{
  NewSessionConfig, Outside, read_next_step, generate_prompt, build_current_session, chosen_step,
  started_text,
}
use palingenesis.Resume.NewSession.{Answer}

-- How often a session was asked for.
abbrev pub creations : {F : Type 0} → List (Effect F) → ℕ
creations [] = 0
creations (create _ ∷ es) = suc (creations es)
creations (_ ∷ es) = creations es

-- How often the metrics were told that a resume is over.
abbrev pub completions : {F : Type 0} → List (Effect F) → ℕ
completions [] = 0
completions (record_resume_completed _ _ ∷ es) = suc (completions es)
completions (_ ∷ es) = completions es

-- Once, if there are metrics.
abbrev pub once : Bool → ℕ
once true = 1
once false = 0

-- The step that is due, for what the next-step file gave.
abbrev pub due : {F : Type 0} → ResumeContext F → Option NextStepInfo → NextStepInfo
due ctx read = chosen_step ctx.session_metadata read

module _ {F S : Type 0} (fl : FloatOps F) (env : Env F) (out : Outside F) (cfg : NewSessionConfig)
    (ctx : ResumeContext F) where
  -- An execution that leaves the state file alone, asks for so many sessions, and tells the
  -- metrics so often that it is over.
  pub record Keeps (n m : ℕ) (w w' : World F S) : Type 0 where
    pub store : w'.store ≡ w.store
    pub asks : creations w'.effects ≡ n + creations w.effects
    pub closes : completions w'.effects ≡ m + completions w.effects

  -- The state with the new session, on top of what could be loaded.
  abbrev pub updated : Text → Option NextStepInfo → World F S → StateFile F
  updated path read w =
      resumed_state fl env (build_current_session ctx path (due ctx read)) 0 (loaded fl env w.store)

  -- The five endings, with what decides between them.
  pub data Ending (w w' : World F S) (a : Answer) : Type 0 where
    lost :
        out.parent ctx.session_path ≡ none
        → a ≡ err (session_not_found ctx.session_path)
        → Keeps 0 (once env.metrics) w w'
        → Ending w w' a
    unreadable :
        (dir : Text) (e : ResumeError)
        → out.parent ctx.session_path ≡ some dir
        → read_next_step out cfg dir ≡ err e
        → a ≡ err e
        → Keeps 0 0 w w'
        → Ending w w' a
    refused :
        (dir : Text) (read : Option NextStepInfo) (e : ResumeError)
        → out.parent ctx.session_path ≡ some dir
        → read_next_step out cfg dir ≡ ok read
        → out.creator (generate_prompt out cfg (due ctx read) ctx) dir ≡ err e
        → a ≡ err e
        → Keeps 1 (once env.metrics) w w'
        → Ending w w' a
    unsaved :
        (dir : Text) (read : Option NextStepInfo) (path message : Text) (replaced : Bool)
        → out.parent ctx.session_path ≡ some dir
        → read_next_step out cfg dir ≡ ok read
        → out.creator (generate_prompt out cfg (due ctx read) ctx) dir ≡ ok path
        → env.save_error ≡ some (replaced, message)
        → a ≡ err (config (codes "state store error: " ++ message))
        → w'.store ≡ (if replaced then updated path read w else w.store)
        → creations w'.effects ≡ suc (creations w.effects)
        → completions w'.effects ≡ once env.metrics + completions w.effects
        → Ending w w' a
    started :
        (dir : Text) (read : Option NextStepInfo) (path : Text)
        → out.parent ctx.session_path ≡ some dir
        → read_next_step out cfg dir ≡ ok read
        → out.creator (generate_prompt out cfg (due ctx read) ctx) dir ≡ ok path
        → env.save_error ≡ none
        → a ≡ ok (success path (started_text (due ctx read)))
        → w'.store ≡ updated path read w
        → creations w'.effects ≡ suc (creations w.effects)
        → completions w'.effects ≡ once env.metrics + completions w.effects
        → Ending w w' a

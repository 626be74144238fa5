-- ===== src/Resume/NewSession/Ending/Outcomes.antt =====
-- `execute` of src/resume/new_session.rs ends in one of the ways of the specification.
use palingenesis.Prelude.{
  ◌≡◌, ◌≢◌, ◌∙◌, sym, refl, Option, none, some, ok, arith, inl, inr, Result-cases, Bool-cases,
  Option-cases, get_or,
}
use palingenesis.Prelude.Text.{Text, codes}
use palingenesis.Prelude.Float.{FloatOps}
use palingenesis.Monitor.Classifier.Types.{metrics_reason_label}
use palingenesis.Resume.Context.{ResumeContext}
use palingenesis.Resume.NextStep.{NextStepInfo}
use palingenesis.Resume.Effects.{
  log_resume_started, record_resume_started, set_retry_attempts, World, Env, push,
  log_session_backed_up,
}
use palingenesis.Resume.Prompt.{NewSessionConfig, Outside, read_next_step, generate_prompt}
use palingenesis.Resume.NewSession.{
  Answer, start_from, back_up, start, execute, update_state_on_resume, after_read, in_directory,
}
use palingenesis.Resume.NewSession.Ending.{
  creations, completions, Ending, due, lost, unreadable, refused, unsaved, started,
}

module _ {F S : Type 0} (fl : FloatOps F) (env : Env F) (out : Outside F) (cfg : NewSessionConfig)
    (ctx : ResumeContext F) where
  start_from_lem :
      (w w₀ w' : World F S) (a : Answer) (dir : Text) (read : Option NextStepInfo)
      → start_from fl env out cfg ctx dir (due ctx read) w ≡ some (a, w')
      → w.store ≡ w₀.store
      → creations w.effects ≡ creations w₀.effects
      → completions w.effects ≡ completions w₀.effects
      → out.parent ctx.session_path ≡ some dir
      → read_next_step out cfg dir ≡ ok read
      → Ending fl env out cfg ctx w₀ w' a
  unfolding start_from update_state_on_resume
  start_from_lem w w₀ w' a dir read h p q t d r =
      elim (Result-cases (out.creator (generate_prompt out cfg (due ctx read) ctx) dir)) [
        | inr (e, k) ↦ refused dir read e d r k (ground arith) (ground arith)
        | inl (path, k) ↦ elim (Option-cases env.save_error) [
          | inr ((replaced, message), bad) ↦
              unsaved dir read path message replaced d r k bad (ground arith) (ground arith)
                (ground arith) (ground arith)
          | inl good ↦
              started dir read path d r k good (ground arith) (ground arith) (ground arith)
                (ground arith)
        ]
      ]

  start_from_returns :
      (w : World F S) (dir : Text) (info : NextStepInfo)
      → start_from fl env out cfg ctx dir info w ≢ none
  unfolding start_from update_state_on_resume
  start_from_returns w dir info =
      elim (Result-cases (out.creator (generate_prompt out cfg info ctx) dir)) [
        | inr (e, k) ↦ ground arith
        | inl (path, k) ↦ elim (Option-cases env.save_error) [
          | inr (message, bad) ↦ ground arith
          | inl good ↦ ground arith
        ]
      ]

  -- The world after the metrics and the audit log are told of the start.
  abbrev begun : World F S → World F S
  begun w = record w {
    effects =
        push env.audit (log_resume_started ctx.session_path (out.debug_reason ctx.stop_reason)) (
          push env.metrics
            (record_resume_started (get_or (metrics_reason_label ctx.stop_reason) (codes "manual")))
            (push env.metrics (set_retry_attempts ctx.attempt_number) w.effects));
  }

  execute-begun :
      (w : World F S)
      → execute fl env out cfg ctx w
        ≡ in_directory fl env out cfg ctx (out.parent ctx.session_path) (begun w)
  unfolding execute start
  execute-begun w = refl

  begun-quiet :
      (w : World F S)
      → (creations (begun w).effects ≡ creations w.effects)
        × (completions (begun w).effects ≡ completions w.effects)
  begun-quiet w = (ground arith, ground arith)

  back_up_lem :
      (w : World F S)
      → (w₁ : World F S) × (back_up fl env out cfg ctx w ≡ some (tt, w₁))
        × (w₁.store ≡ w.store)
        × (creations w₁.effects ≡ creations w.effects)
        × (completions w₁.effects ≡ completions w.effects)
  unfolding back_up
  back_up_lem w = elim (Bool-cases cfg.enable_backup) [
    | inr off ↦ (w, ground arith, refl, refl, refl)
    | inl on ↦ elim (Result-cases (out.backup ctx.session_path)) [
      | inl (path, k) ↦ (
        record w {
          effects = push env.audit (log_session_backed_up ctx.session_path path) w.effects;
        },
        ground arith,
        refl,
        ground arith,
        ground arith,
      )
      | inr (message, k) ↦ (w, ground arith, refl, refl, refl)
    ]
  ]

  in_directory_step :
      (w w₁ : World F S) (dir : Text)
      → back_up fl env out cfg ctx w ≡ some (tt, w₁)
      → in_directory fl env out cfg ctx (some dir) w
        ≡ after_read fl env out cfg ctx dir (read_next_step out cfg dir) w₁
  in_directory_step w w₁ dir h = ground arith

  after_read_lem :
      (w w₀ w' : World F S) (a : Answer) (dir : Text)
      → after_read fl env out cfg ctx dir (read_next_step out cfg dir) w ≡ some (a, w')
      → w.store ≡ w₀.store
      → creations w.effects ≡ creations w₀.effects
      → completions w.effects ≡ completions w₀.effects
      → out.parent ctx.session_path ≡ some dir
      → Ending fl env out cfg ctx w₀ w' a
  after_read_lem w w₀ w' a dir h p q t d = elim (Result-cases (read_next_step out cfg dir)) [
    | inl (read, r) ↦ start_from_lem w w₀ w' a dir read (rw r at h) p q t d r
    | inr (e, r) ↦ unreadable dir e d r (ground arith) (ground arith)
  ]

  after_read_returns :
      (w : World F S) (dir : Text)
      → after_read fl env out cfg ctx dir (read_next_step out cfg dir) w ≢ none
  after_read_returns w dir h = elim (Result-cases (read_next_step out cfg dir)) [
    | inl (read, r) ↦ start_from_returns w dir (due ctx read) (rw r at h)
    | inr (e, r) ↦ absurd (ground arith)
  ]

  -- What an execution does in a directory that is known.
  known_directory :
      (w : World F S) (dir : Text)
      → out.parent ctx.session_path ≡ some dir
      → (w₁ : World F S) × (execute fl env out cfg ctx w
          ≡ after_read fl env out cfg ctx dir (read_next_step out cfg dir) w₁)
        × (w₁.store ≡ w.store)
        × (creations w₁.effects ≡ creations w.effects)
        × (completions w₁.effects ≡ completions w.effects)
  known_directory w dir d =
      let (w₁, ran, p, q, t) = back_up_lem (begun w) in
      let (q', t') = begun-quiet w in
      (w₁, execute-begun w ∙ rw d (in_directory_step (begun w) w₁ dir ran), p, q ∙ q', t ∙ t')

  execute_lem :
      (w w' : World F S) (a : Answer)
      → execute fl env out cfg ctx w ≡ some (a, w')
      → Ending fl env out cfg ctx w w' a
  execute_lem w w' a e = elim (Option-cases (out.parent ctx.session_path)) [
    | inl d ↦ let h = sym (execute-begun w) ∙ e in lost d (ground arith) (ground arith)
    | inr (dir, d) ↦
        let (w₁, ran, p, q, t) = known_directory w dir d in
        after_read_lem w₁ w w' a dir (sym ran ∙ e) p q t d
  ]

  execute_returns_lem : (w : World F S) → execute fl env out cfg ctx w ≢ none
  execute_returns_lem w e = elim (Option-cases (out.parent ctx.session_path)) [
    | inl d ↦ let h = sym (execute-begun w) ∙ e in absurd (ground arith)
    | inr (dir, d) ↦
        let (w₁, ran, p, q, t) = known_directory w dir d in after_read_returns w₁ dir (sym ran ∙ e)
  ]

  -- Every execution returns, and ends in one of the five ways of `Ending`: which one is decided by
  -- the parent directory of the session, the next-step file, the answer of the session creator and
  -- that of the store. What the state file holds, where none or a corrupted one counts as the
  -- defaults, changes only in the ending `started`, to the state with the new session on top of
  -- what could be loaded, and in the ending `unsaved`, to the same state if the save failed only
  -- after it had replaced the file; a session is asked for at most once; and the metrics are told
  -- that the resume is over in every ending but `unreadable`.
  pub execute_ends :
      (w : World F S)
      → (a : Answer) × (w' : World F S) × (execute fl env out cfg ctx w ≡ some (a, w'))
        × Ending fl env out cfg ctx w w' a
  execute_ends w = elim (Option-cases (execute fl env out cfg ctx w)) [
    | inl panics ↦ absurd (execute_returns_lem w panics)
    | inr ((a, w'), e) ↦ (a, w', e, execute_lem w w' a e)
  ]

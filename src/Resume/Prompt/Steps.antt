-- ===== src/Resume/Prompt/Steps.antt =====
-- The steps that src/resume/new_session.rs continues from and records.
use palingenesis.Prelude.{ℕ, ◌-◌, ◌≤◌, List, [], ◌∷◌, none, some, get_or, All, arith}
use palingenesis.Prelude.Words.{add_u32}
use palingenesis.Monitor.Session.{Session}
use palingenesis.Resume.Context.{ResumeContext}
use palingenesis.Resume.Steps.{steps_completed_from_session}
use palingenesis.Resume.NextStep.{NextStepInfo}
use palingenesis.Resume.Prompt.{greatest, chosen_step, build_current_session}

All-weaken : (b c : ℕ) (ns : List ℕ) → b ≤ c → All (λ n. n ≤ b) ns → All (λ n. n ≤ c) ns
All-weaken b c [] h _ = tt
All-weaken b c (n ∷ ns) h (k, ks) = (omega arith, All-weaken b c ns h ks)

All-greatest : (ns : List ℕ) (d : ℕ) → All (λ n. n ≤ get_or (greatest ns) d) ns
unfolding greatest
All-greatest [] d = tt
All-greatest (n ∷ ns) d =
    (omega arith, All-weaken (get_or (greatest ns) n) _ ns (omega arith) (All-greatest ns n))

past_greatest :
    (m : ℕ) (ns : List ℕ) → All (λ n. n ≤ m) ns → All (λ n. add_u32 n 1 ≤ add_u32 m 1) ns
past_greatest m [] _ = tt
past_greatest m (n ∷ ns) (k, ks) = (omega arith, past_greatest m ns ks)

-- Without a next-step file, the step that a new session starts from lies behind every step that the
-- old session completed (or is `u32::MAX`, where a completed step is), and is at least the first.
chosen_step-past :
    (session : Session)
    → let next = (chosen_step (some session) none).step_number in
      (1 ≤ next) × All (λ step. add_u32 step 1 ≤ next) (steps_completed_from_session session)
unfolding chosen_step
chosen_step-past session =
    let steps = steps_completed_from_session session in
    (omega arith, past_greatest (get_or (greatest steps) 0) steps (All-greatest steps 0))

-- The last step that a new session records is at least every completed step, whatever the
-- next-step file says.
last_step-bounds :
    {F : Type 0} (ctx : ResumeContext F) (path : List ℕ) (info : NextStepInfo)
    → let session = build_current_session ctx path info in
      All (λ step. step ≤ session.last_step) session.steps_completed
unfolding build_current_session
last_step-bounds ctx path info = All-greatest _ (info.step_number - 1)

-- ===== src/Resume/Backoff/Retries.antt =====
-- The retry counter of src/resume/backoff.rs.
use palingenesis.Prelude.{
  ℕ, zero, suc, ◌+◌, ◌≤◌, ◌<◌, max, ◌≡◌, ◌≢◌, ◌∙◌, inl, inr, Option, none, some, Result, ok, err,
  arith, ltb, ltb→lt, Bool-cases, Option-cases,
}
use palingenesis.Prelude.Time.{Duration}
use palingenesis.Prelude.Words.{max_u32, add_u32}
use palingenesis.Prelude.Float.{FloatOps}
use palingenesis.Resume.Backoff.{
  BackoffConfig, BackoffError, max_retries_exceeded, Backoff, next_delay, delay_for_attempt,
}

module _ {F S : Type 0} (fl : FloatOps F) (gen_range : F → F → S → Option (F × S)) where
  -- Calls `next_delay` a number of times, and stops at an error or a panic.
  pub run : ℕ → Backoff F → S → Option (Result (Unit {0}) BackoffError × Backoff F × S)
  run zero b s = some (ok tt, b, s)
  run (suc n) b s = elim (next_delay fl gen_range b s) [
    | none ↦ none
    | some (ok _, b', s') ↦ run n b' s'
    | some (err e, b', s') ↦ some (err e, b', s')
  ]

  -- Past its last retry a backoff answers with the limit, and keeps its counter.
  pub next_delay-exhausted :
      (b : Backoff F) (s : S)
      → b.config.max_retries ≤ b.attempt
      → b.attempt < max_u32
      → next_delay fl gen_range b s ≡ some (err (max_retries_exceeded b.config.max_retries), b, s)
  unfolding next_delay
  next_delay-exhausted b s h k = ground arith

  delay-ne-none :
      (b : Backoff F) (attempt : ℕ) (s : S)
      → ((s : S) → gen_range (fl.neg b.config.jitter_percent) b.config.jitter_percent s ≢ none)
      → delay_for_attempt fl gen_range b attempt s ≢ none
  unfolding delay_for_attempt
  delay-ne-none b attempt s h = ground (arith, h s)

  -- The generator gives a value for the configured range.
  abbrev pub Samples : BackoffConfig F → Type 0
  Samples c = (s : S) → gen_range (fl.neg c.jitter_percent) c.jitter_percent s ≢ none

  delay-returns :
      (b : Backoff F) (attempt : ℕ) (s : S)
      → Samples b.config
      → (d : Duration) × (s' : S) × (delay_for_attempt fl gen_range b attempt s ≡ some (d, s'))
  delay-returns b attempt s h = elim (Option-cases (delay_for_attempt fl gen_range b attempt s)) [
    | inl e ↦ absurd (delay-ne-none b attempt s h e)
    | inr ((d, s'), e) ↦ (d, s', e)
  ]

  next_delay_of :
      {d : Duration} {s' : S} (b : Backoff F) (s : S)
      → delay_for_attempt fl gen_range b (b.attempt + 1) s ≡ some (d, s')
      → b.attempt < b.config.max_retries
      → b.config.max_retries ≤ max_u32
      → next_delay fl gen_range b s ≡ some (ok d, record b { attempt = b.attempt + 1 }, s')
  unfolding next_delay
  next_delay_of b s e k m =
      let next : max (add_u32 b.attempt 1) 1 ≡ b.attempt + 1 = omega arith in
      rw (next, next_delay) (ground arith)

  next_delay-step :
      (b : Backoff F) (s : S)
      → Samples b.config
      → b.attempt < b.config.max_retries
      → b.config.max_retries ≤ max_u32
      → (d : Duration) × (s' : S) × (next_delay fl gen_range b s
          ≡ some (ok d, record b { attempt = b.attempt + 1 }, s'))
  next_delay-step b s h k m =
      let (d, s', e) = delay-returns b (b.attempt + 1) s h in (d, s', next_delay_of b s e k m)

  run_step :
      {d : Duration} {b' : Backoff F} {s' : S} (n : ℕ) (b : Backoff F) (s : S)
      → next_delay fl gen_range b s ≡ some (ok d, b', s')
      → run (suc n) b s ≡ run n b' s'
  unfolding run
  run_step n b s e = ground arith

  run_stop :
      {e : BackoffError} {b' : Backoff F} {s' : S} (n : ℕ) (b : Backoff F) (s : S)
      → next_delay fl gen_range b s ≡ some (err e, b', s')
      → run (suc n) b s ≡ some (err e, b', s')
  unfolding run
  run_stop n b s e = ground arith

  -- Where the generator gives a value for the configured range, a backoff that has retries left
  -- gives a delay for each of them: no call of `next_delay` within the limit fails, and the counter
  -- grows by the number of calls.
  pub run-succeeds :
      (n total : ℕ) (b : Backoff F) (s : S)
      → Samples b.config
      → b.attempt + n ≡ total
      → total ≤ b.config.max_retries
      → b.config.max_retries ≤ max_u32
      → (s' : S) × (run n b s ≡ some (ok tt, record b { attempt = total }, s'))
  unfolding run
  run-succeeds zero total b s h k l m =
      let same : b.attempt ≡ total = omega arith in (s, ground arith)
  run-succeeds (suc n) total b s h k l m =
      let (d, s', e) = next_delay-step b s h (omega arith) m in
      let (s'', e') =
        run-succeeds n total (record b { attempt = b.attempt + 1 }) s' h (omega arith) l m in
      (s'', run_step n b s e ∙ e')

  -- Where the generator gives a value for the configured range, the counter has not passed the
  -- limit and the limit is below the largest u32, at which the counter stops, a run of more calls
  -- than there are retries left ends with the error that names the limit, at a counter that equals
  -- the limit.
  pub run-exhausts :
      (n : ℕ) (b : Backoff F) (s : S)
      → Samples b.config
      → b.attempt ≤ b.config.max_retries
      → b.config.max_retries < b.attempt + n
      → b.config.max_retries < max_u32
      → (s' : S) × (run n b s
          ≡ some (
            err (max_retries_exceeded b.config.max_retries),
            record b { attempt = b.config.max_retries },
            s',
          ))
  run-exhausts zero b s h k l m = absurd (omega arith)
  run-exhausts (suc n) b s h k l m = elim (Bool-cases (ltb b.attempt b.config.max_retries)) [
    | inl more ↦
        let (d, s', e) = next_delay-step b s h (ltb→lt _ _ more) (omega arith) in
        let (s'', e') =
          run-exhausts n (record b { attempt = b.attempt + 1 }) s' h (ground arith) (omega arith)
            m in
        (s'', run_step n b s e ∙ e')
    | inr last ↦
        let same : b.attempt ≡ b.config.max_retries = ground arith in
        (s, run_stop n b s (next_delay-exhausted b s (omega arith) (omega arith)) ∙ ground arith)
  ]

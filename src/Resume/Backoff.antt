-- ===== src/Resume/Backoff.antt =====
-- src/resume/backoff.rs: exponential backoff with a cap and optional jitter.
-- The floats, and the random generator of the rand crate, are parameters. A call that panics is
-- `none`.
pub mod Accepted
pub mod Bounds
pub mod Retries
use palingenesis.Prelude.{
  ℕ, ◌+◌, ◌-◌, ◌^◌, min, max, Bool, not, ◌&&◌, Option, none, some, Result, ok, err, ◌>>=◌, ◌>>◌,
  ensure_not, ltb, ◌==◌, if◌then◌else◌,
}
use palingenesis.Prelude.Time.{Duration, from_secs, from_millis, as_millis}
use palingenesis.Prelude.Words.{max_u64, max_u128, add_u32, mul_u128}
use palingenesis.Prelude.Text.{Text, codes}
use palingenesis.Prelude.Float.{FloatOps}

pub record BackoffConfig (F : Type 0) : Type 0 where
  pub base_delay : Duration
  pub max_delay : Duration
  pub max_retries : ℕ  -- u32
  pub jitter_enabled : Bool
  pub jitter_percent : F

pub data BackoffError : Type 0 where
  invalid_config : Text → BackoffError
  max_retries_exceeded : ℕ → BackoffError

pub record Backoff (F : Type 0) : Type 0 where
  pub config : BackoffConfig F
  pub attempt : ℕ  -- u32

module _ {F : Type 0} (fl : FloatOps F) where
  abbrev pub default_config : BackoffConfig F
  default_config = record {
    base_delay = from_secs 30;
    max_delay = from_secs 300;
    max_retries = 5;
    jitter_enabled = Bool.true;
    jitter_percent = fl.decimal 1 1;
  }

  -- `(0.0..=1.0).contains(&x)`
  abbrev pub in_unit : F → Bool
  in_unit x = fl.le (fl.of_ℕ 0) x && fl.le x (fl.of_ℕ 1)

  unfoldable pub validate : BackoffConfig F → Result (Unit {0}) BackoffError
  validate c = do
    ensure_not (c.base_delay == 0) (invalid_config (codes "base_delay must be > 0"))
    ensure_not (ltb c.max_delay c.base_delay)
        (invalid_config (codes "max_delay must be >= base_delay"))
    ensure_not (c.max_retries == 0) (invalid_config (codes "max_retries must be > 0"))
    ensure_not (not (in_unit c.jitter_percent))
        (invalid_config (codes "jitter_percent must be between 0.0 and 1.0"))
    ok tt

  unfoldable pub new : Duration → Duration → Backoff F
  new base_delay max_delay = record {
    config = record default_config { base_delay = base_delay; max_delay = max_delay };
    attempt = 0;
  }

  unfoldable pub with_config : BackoffConfig F → Result (Backoff F) BackoffError
  unfolding validate
  with_config c = do validate c; ok (record { config = c; attempt = 0 })

  unfoldable pub default : Backoff F
  unfolding new
  default = new (from_secs 30) (from_secs 300)

  -- `BackoffBuilder`: it starts from the default configuration, a setter replaces a field, and
  -- `build` validates.
  abbrev pub builder : BackoffConfig F
  builder = default_config

  abbrev pub build : BackoffConfig F → Result (Backoff F) BackoffError
  build = with_config

module _ {F : Type 0} where
  unfoldable pub reset : Backoff F → Backoff F
  reset b = record b { attempt = 0 }

  unfoldable pub check_retry_limit : Backoff F → ℕ → Result (Unit {0}) BackoffError
  check_retry_limit b attempt =
      if ltb b.config.max_retries attempt
      then err (max_retries_exceeded b.config.max_retries)
      else ok tt

  -- In milliseconds; `2u128.saturating_pow(exponent)`.
  unfoldable pub capped_millis : Backoff F → ℕ → ℕ
  capped_millis b attempt =
      let attempt' = max attempt 1 in
      let exponent = min (attempt' - 1) 31 in
      let multiplier = min (2 ^ exponent) max_u128 in
      let delay_millis = mul_u128 (as_millis b.config.base_delay) multiplier in
      min (min delay_millis (as_millis b.config.max_delay)) max_u64

  unfoldable pub base_delay_for_attempt : Backoff F → ℕ → Duration
  unfolding capped_millis
  base_delay_for_attempt b attempt = from_millis (capped_millis b attempt)

-- `gen_range(lo..hi)` of the generator in state `s`.
module _ {F S : Type 0} (fl : FloatOps F) (gen_range : F → F → S → Option (F × S)) where
  unfoldable pub apply_jitter_with_rng : Backoff F → Duration → S → Option (Duration × S)
  apply_jitter_with_rng b delay rng =
      let jitter_range = b.config.jitter_percent in
      elim (gen_range (fl.neg jitter_range) jitter_range rng) [
        | none ↦ none
        | some (x, rng') ↦
            let factor = fl.add (fl.of_ℕ 1) x in
            let millis = fl.mul (fl.of_ℕ (as_millis delay)) factor in
            some (from_millis (fl.to_u64 (fl.max millis (fl.of_ℕ 0))), rng')
      ]

  unfoldable pub delay_for_attempt_with_rng : Backoff F → ℕ → S → Option (Duration × S)
  unfolding base_delay_for_attempt apply_jitter_with_rng
  delay_for_attempt_with_rng b attempt rng =
      let delay = base_delay_for_attempt b attempt in
      if b.config.jitter_enabled then apply_jitter_with_rng b delay rng else some (delay, rng)

  -- The generator is the thread's; its state is passed in and out.
  unfoldable pub delay_for_attempt : Backoff F → ℕ → S → Option (Duration × S)
  unfolding base_delay_for_attempt apply_jitter_with_rng
  delay_for_attempt b attempt rng =
      let delay = base_delay_for_attempt b attempt in
      if b.config.jitter_enabled then apply_jitter_with_rng b delay rng else some (delay, rng)

  abbrev after_delay :
      Backoff F → ℕ → Option (Duration × S) → Option (Result Duration BackoffError × Backoff F × S)
  after_delay b next_attempt none = none
  after_delay b next_attempt (some (delay, rng)) =
      some (ok delay, record b { attempt = next_attempt }, rng)

  unfoldable pub next_delay : Backoff F → S → Option (Result Duration BackoffError × Backoff F × S)
  unfolding check_retry_limit
  next_delay b rng =
      let next_attempt = max (add_u32 b.attempt 1) 1 in
      elim (check_retry_limit b next_attempt) [
        | err e ↦ some (err e, b, rng)
        | ok _ ↦ after_delay b next_attempt (delay_for_attempt b next_attempt rng)
      ]

-- ===== src/Resume/Backoff/Bounds.antt =====
-- The delay of src/resume/backoff.rs before jitter: its bounds, its growth and its exact value.
use native.Mathlib.Nat.{pow-suc, pow-le-pow_right}
use palingenesis.Prelude.{ℕ, suc, ◌-◌, ◌*◌, ◌^◌, ◌≤◌, ◌<◌, min, max, ◌≡◌, ok, arith}
use palingenesis.Prelude.Time.{Duration, from_millis, as_millis}
use palingenesis.Prelude.Words.{max_u64, max_u128, mul_u128}
use palingenesis.Prelude.Float.{FloatOps}
use palingenesis.Resume.Backoff.Accepted.{with_config-ok}
use palingenesis.Resume.Backoff.{
  BackoffConfig, Backoff, with_config, capped_millis, base_delay_for_attempt,
}

two_pow_le : {m n : ℕ} → m ≤ n → 2 ^ m ≤ 2 ^ n
two_pow_le h = pow-le-pow_right (omega arith) h

-- A `Duration` holds at most `u64::MAX` seconds and less than one second more.
abbrev pub FitsDuration : Duration → Type 0
FitsDuration d = d < 2 ^ 64 * 1_000_000_000

-- The saturating steps, on plain numbers.
no_saturation :
    (x p m : ℕ)
    → x < 2 ^ 64 * 1000
    → p ≤ 2 ^ 31
    → min (min (mul_u128 x (min p max_u128)) m) max_u64 ≡ min (x * p) (min m max_u64)
no_saturation x p m h k =
    let whole : min p max_u128 ≡ p = omega arith in
    let product : x * p ≤ 2 ^ 64 * 1000 * 2 ^ 31 = grind arith in rw whole (omega arith)

abbrev pub exponent : ℕ → ℕ
exponent attempt = min (max attempt 1 - 1) 31

module _ {F : Type 0} (b : Backoff F) (fits : FitsDuration b.config.base_delay) where
  -- For a base delay that a `Duration` can hold, no saturating step of the computation takes
  -- effect: in milliseconds, the delay is the base delay doubled once for each earlier attempt, at
  -- most 31 times, and cut off at the maximum delay and at `u64::MAX`.
  capped_millis_closed :
      (attempt : ℕ)
      → capped_millis b attempt
        ≡ min
            (as_millis b.config.base_delay * 2 ^ exponent attempt)
            (min (as_millis b.config.max_delay) max_u64)
  unfolding capped_millis
  capped_millis_closed attempt =
      no_saturation (as_millis b.config.base_delay) (2 ^ exponent attempt)
        (as_millis b.config.max_delay) (omega arith) (two_pow_le {n = 31} (omega arith))

  -- From one attempt to the next, up to the 32nd, the delay in milliseconds doubles, and is cut
  -- off at the maximum delay and at `u64::MAX`.
  capped_millis-suc :
      (attempt : ℕ)
      → 0 < attempt
      → attempt ≤ 31
      → capped_millis b (suc attempt)
        ≡ min (2 * capped_millis b attempt) (min (as_millis b.config.max_delay) max_u64)
  capped_millis-suc attempt pos small =
      let same : exponent (suc attempt) ≡ suc (exponent attempt) = omega arith in
      rw (capped_millis_closed, same, pow-suc) (omega (arith, capped_millis_closed attempt))

module _ {F : Type 0} (b : Backoff F) where
  -- The delay before jitter never exceeds the configured maximum, whatever the attempt number.
  pub base_delay-le-max : (attempt : ℕ) → base_delay_for_attempt b attempt ≤ b.config.max_delay
  unfolding base_delay_for_attempt
  base_delay-le-max attempt = omega arith

  -- A later attempt never waits less, before jitter.
  base_delay_mono :
      FitsDuration b.config.base_delay
      → (m n : ℕ) → m ≤ n
      → base_delay_for_attempt b m ≤ base_delay_for_attempt b n
  unfolding base_delay_for_attempt
  base_delay_mono fits m n h =
      let powers : 2 ^ exponent m ≤ 2 ^ exponent n = two_pow_le (omega arith) in
      let products : as_millis b.config.base_delay * 2 ^ exponent m
          ≤ as_millis b.config.base_delay * 2 ^ exponent n =
        grind arith in
      omega (arith, capped_millis_closed b fits m, capped_millis_closed b fits n)

-- A configuration of whole milliseconds that `with_config` accepts, with a maximum delay of at most
-- `u64::MAX` milliseconds, gives a first delay that is the base delay itself.
first_delay :
    {F : Type 0} (fl : FloatOps F) (c : BackoffConfig F) {b : Backoff F}
    → with_config fl c ≡ ok b
    → FitsDuration c.base_delay
    → c.max_delay ≤ from_millis max_u64
    → (k : ℕ) → c.base_delay ≡ from_millis k
    → base_delay_for_attempt b 1 ≡ c.base_delay
unfolding base_delay_for_attempt
first_delay fl c e fits bounded k whole =
    let (good, same, _) = with_config-ok fl c e in rw same (omega (arith, good.base_le_max))

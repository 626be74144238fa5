-- ===== src/Resume/Backoff/Accepted.antt =====
-- Which configurations `with_config` of src/resume/backoff.rs accepts, and when a delay panics.
use palingenesis.Prelude.{ℕ, ◌≤◌, ◌<◌, ◌≡◌, ◌↔◌, refl, true, false, Option, none, ok, arith}
use palingenesis.Prelude.Float.{FloatOps}
use palingenesis.Resume.Backoff.{BackoffConfig, Backoff, in_unit, with_config, delay_for_attempt}

-- What a configuration must satisfy.
pub record IsAccepted {F : Type 0} (fl : FloatOps F) (c : BackoffConfig F) : Type 0 where
  pub base_pos : 0 < c.base_delay
  pub base_le_max : c.base_delay ≤ c.max_delay
  pub retries_pos : 0 < c.max_retries
  pub percent : in_unit fl c.jitter_percent ≡ true

module _ {F : Type 0} (fl : FloatOps F) (c : BackoffConfig F) where
  pub with_config-ok :
      {b : Backoff F} → with_config fl c ≡ ok b → IsAccepted fl c × (b.config ≡ c) × (b.attempt ≡ 0)
  unfolding with_config
  with_config-ok e = ground arith

  -- `with_config` succeeds exactly for a positive base delay that is at most the maximum delay, a
  -- positive number of retries and a jitter share within 0 and 1, and then starts at attempt 0.
  with_config_iff : (with_config fl c ≡ ok (record { config = c; attempt = 0 })) ↔ IsAccepted fl c
  unfolding with_config
  with_config_iff = (λ e. (with_config-ok e).0, λ a. ground (arith, a.base_pos))

module _ {F S : Type 0} (fl : FloatOps F) (gen_range : F → F → S → Option (F × S))
    (empty_range_panics : (lo hi : F) (s : S)
      → fl.lt lo hi ≡ false
      → gen_range lo hi s ≡ none) where
  -- A configuration with the jitter enabled and a share of 0.0, whose delays and retries are right,
  -- is accepted by `with_config`, and then every delay panics, at every attempt: in floats where 0.0
  -- is at most itself and at most 1.0, and the range from minus 0.0 to 0.0 is empty, for a generator
  -- that panics on an empty range.
  pub delay-panics :
      (c : BackoffConfig F)
      → c.jitter_enabled ≡ true
      → c.jitter_percent ≡ fl.of_ℕ 0
      → 0 < c.base_delay
      → c.base_delay ≤ c.max_delay
      → 0 < c.max_retries
      → fl.le (fl.of_ℕ 0) (fl.of_ℕ 0) ≡ true
      → fl.le (fl.of_ℕ 0) (fl.of_ℕ 1) ≡ true
      → fl.lt (fl.neg (fl.of_ℕ 0)) (fl.of_ℕ 0) ≡ false
      → (b : Backoff F) × (with_config fl c ≡ ok b)
        × ((attempt : ℕ) (s : S) → delay_for_attempt fl gen_range b attempt s ≡ none)
  unfolding delay_for_attempt
  delay-panics c on share base most retries le_self le_one no_range =
      let zero_percent : in_unit fl c.jitter_percent ≡ true = rw (share, le_self, le_one) refl in
      let good : IsAccepted fl c = record {
        base_pos = base;
        base_le_max = most;
        retries_pos = retries;
        percent = zero_percent;
      } in
      let empty : fl.lt (fl.neg c.jitter_percent) c.jitter_percent ≡ false =
        rw (share, no_range) refl in
      (
        record { config = c; attempt = 0 },
        (with_config_iff fl c).1 good,
        λ attempt s.
            ground (arith, empty_range_panics (fl.neg c.jitter_percent) c.jitter_percent s empty),
      )

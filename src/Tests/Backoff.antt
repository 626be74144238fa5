-- ===== src/Tests/Backoff.antt =====
-- src/resume/backoff.rs at concrete configurations.
use palingenesis.Prelude.{ℕ, ◌≤◌, ◌≡◌, refl, false, none, some, ok, err, arith}
use palingenesis.Prelude.Int.{ℤ, pos}
use palingenesis.Prelude.Time.{from_secs}
use palingenesis.Resume.Backoff.{
  BackoffConfig, Backoff, default_config, with_config, max_retries_exceeded, capped_millis,
  base_delay_for_attempt, delay_for_attempt,
}
use palingenesis.Resume.Backoff.Accepted.{delay-panics}
use palingenesis.Resume.Backoff.Bounds.{base_delay-le-max}
use palingenesis.Resume.Backoff.Retries.{run, run-succeeds, run-exhausts}
use palingenesis.Tests.Floats.{floats, low_end}

abbrev standard : Backoff ℤ
standard = record { config = default_config floats; attempt = 0 }

delays :
    (capped_millis standard 1 ≡ 30_000)
    × (capped_millis standard 2 ≡ 60_000)
    × (capped_millis standard 4 ≡ 240_000)
    × (capped_millis standard 5 ≡ 300_000)
unfolding capped_millis
delays = (refl, refl, refl, refl)

jittered : delay_for_attempt floats low_end standard 1 7 ≡ some (from_secs 27, 8)
unfolding delay_for_attempt
jittered = refl

base_delay-le-max_example : base_delay_for_attempt standard 9 ≤ from_secs 300
base_delay-le-max_example = base_delay-le-max standard 9

accepted : with_config floats (default_config floats) ≡ ok standard
unfolding with_config
accepted = refl

abbrev no_share : BackoffConfig ℤ
no_share = record (default_config floats) { jitter_percent = pos 0 }

low_end_panics : (lo hi : ℤ) (s : ℕ) → floats.lt lo hi ≡ false → low_end lo hi s ≡ none
low_end_panics lo hi s h = rw h

delay-panics_example :
    (b : Backoff ℤ) × (with_config floats no_share ≡ ok b)
    × ((attempt s : ℕ) → delay_for_attempt floats low_end b attempt s ≡ none)
delay-panics_example =
    delay-panics floats low_end low_end_panics no_share refl refl (omega arith) (omega arith)
      (omega arith) refl refl refl

run-succeeds_example :
    (s' : ℕ) × (run floats low_end 5 standard 0 ≡ some (ok tt, record standard { attempt = 5 }, s'))
run-succeeds_example =
    run-succeeds floats low_end 5 5 standard 0 (λ s e. cc) (omega arith) (omega arith) (omega arith)

run-exhausts_example :
    (s' : ℕ) × (run floats low_end 6 standard 0
      ≡ some (err (max_retries_exceeded 5), record standard { attempt = 5 }, s'))
run-exhausts_example =
    run-exhausts floats low_end 6 standard 0 (λ s e. cc) (omega arith) (omega arith) (omega arith)

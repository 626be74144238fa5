-- ===== src/Monitor/Watcher/Retry.antt =====
-- The retries of src/monitor/watcher.rs: `watch_with_retry` and `watch_debouncer_with_retry`, which
-- differ only in the watcher that they call. The answer of the n-th call is a parameter.
use palingenesis.Prelude.{ℕ, zero, suc, Result, ok, err}
use palingenesis.Prelude.Time.{Duration, from_millis}
use palingenesis.Prelude.Text.{Text}

abbrev pub watch_retry_attempts : ℕ
watch_retry_attempts = 3

abbrev pub watch_retry_delay : Duration
watch_retry_delay = from_millis 200

-- The result, and how often the task slept.
abbrev pub Watched : Type 0
Watched = Result (Unit {0}) Text × ℕ

abbrev slept : Watched → Watched
slept (result, sleeps) = (result, suc sleeps)

-- The loop from the n-th attempt on, with so many left behind it.
unfoldable pub watch_from : (ℕ → Result (Unit {0}) Text) → (left n : ℕ) → Watched
watch_from try zero n = (try n, 0)
watch_from try (suc left) n = elim (try n) [
  | ok _ ↦ (ok tt, 0)
  | err e ↦ slept (watch_from try left (suc n))
]

unfoldable pub watch_with_retry : (ℕ → Result (Unit {0}) Text) → Watched
unfolding watch_from
watch_with_retry try = watch_from try watch_retry_attempts 0

-- ===== src/Tests/Shutdown.antt =====
-- src/daemon/shutdown.rs and src/notify/events.rs at small inputs.
use palingenesis.Prelude.{◌≡◌, refl, none, some, [], ◌∷◌}
use palingenesis.Prelude.Time.{from_secs}
use palingenesis.Prelude.Text.{codes}
use palingenesis.Daemon.Shutdown.{graceful, timed_out, shutdown, await_all}
use palingenesis.Notify.Events.{daemon_started, event_type}

on_time : shutdown (some (from_secs 10) ∷ some 0 ∷ []) ≡ graceful
unfolding shutdown await_all
on_time = refl

one_hangs : shutdown (some (from_secs 1) ∷ none ∷ some (from_secs 11) ∷ []) ≡ timed_out 2
unfolding shutdown await_all
one_hangs = refl

type_of_start : event_type (daemon_started 5 (codes "0.1.0")) ≡ codes "daemon_started"
unfolding event_type codes
type_of_start = refl

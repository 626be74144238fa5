-- ===== src/Daemon/Core/Lifetime.antt =====
-- What a start of src/daemon/core.rs leaves behind.
use palingenesis.Prelude.{
  ℕ, ◌≡◌, ◌∙◌, refl, sym, ap, Bool, true, false, Option, none, some, List, [], ◌∷◌, ◌++◌, Result,
  ok, err, Bool-cases, Option-cases, Result-cases, inl, inr,
}
use palingenesis.Prelude.Text.{Text, codes}
use palingenesis.Prelude.Io.{then_run}
use palingenesis.Monitor.Frontmatter.{IoError}
use palingenesis.Daemon.Pid
use palingenesis.Daemon.Pid.{
  PidFile, PidError, io, Look, already_running, read_text, handle_existing_pid_file, acquire,
  release, remove,
}
use palingenesis.Notify.Events.{NotificationEvent, daemon_started, daemon_stopped}
use palingenesis.Ipc.Server.{IpcServer, IpcError, bind, cleanup, drop_server}
use palingenesis.Daemon.Pid.Acquire.{AcquireEnd, got, refused, failed, acquire-AcquireEnd}
use palingenesis.Daemon.Core.{
  set_pid_file, pid_result, Daemon, DaemonError, pid_error, ipc_error, Faults, serve, run,
  drop_daemon, handle_start,
}

-- The removals work.
pub record Clean (faults : Faults) : Type 0 where
  pub early : faults.release_early ≡ none
  pub late : faults.release ≡ none
  pub pid_file : faults.drop_pid_file ≡ none
  pub server : faults.drop_server ≡ none

drop_server-exists : (s : IpcServer) → (drop_server none s).exists ≡ false
unfolding drop_server cleanup
drop_server-exists s = elim (Bool-cases s.exists) [
  | inl here ↦ rw (drop_server, cleanup, here) refl
  | inr absent ↦ rw (drop_server, cleanup, absent) absent
]

release-held :
    (p : PidFile)
    → p.acquired ≡ true
    → release none p ≡ (ok tt, record { file = none; acquired = false })
unfolding release remove
release-held p held = elim (Option-cases p.file) [
  | inl absent ↦
      rw (release, held, remove, absent)
        (ap (λ f. (ok tt, record { file = f; acquired = false })) absent)
  | inr (text, here) ↦ rw (release, held, remove, here) refl
]

release-free :
    (fault : Option IoError) (p : PidFile) → p.acquired ≡ false → release fault p ≡ (ok tt, p)
unfolding release
release-free fault p free = rw (release, free) refl

acquire-refused :
    (running : ℕ → Bool) (own : ℕ) (f : Pid.Faults) (text : Text) (pid : ℕ)
    → read_text none (some text) ≡ ok pid
    → running pid ≡ true
    → f.first.read ≡ none
    → acquire running own f (record { file = some text; acquired = false })
      ≡ (err (already_running pid), record { file = some text; acquired = false })
unfolding acquire handle_existing_pid_file
acquire-refused running own f text pid reads alive works =
    rw (acquire, handle_existing_pid_file, works, reads, alive) refl

module _ (running : ℕ → Bool) (own : ℕ) (version : Text) (now_start now_stop : ℕ) where
  -- How a start ends: it ran and was stopped; or it could not bind the socket; or it did not get the
  -- PID file. The file is removed in the first two cases.
  pub data StartEnd (events : List NotificationEvent) (p : Result (Unit {0}) DaemonError × Daemon)
      : Type 0 where
    stopped :
        p.0 ≡ ok tt
        → p.1.pid_file.file ≡ none
        → p.1.event_broadcaster
          ≡ events
            ++ daemon_started now_start version ∷ []
            ++ daemon_stopped now_stop (codes "shutdown") ∷ []
        → StartEnd events p
    unbound :
        (e : IpcError)
        → p.0 ≡ err (ipc_error e)
        → p.1.pid_file.file ≡ none
        → p.1.event_broadcaster ≡ events
        → StartEnd events p
    not_acquired :
        (e : PidError)
        → p.0 ≡ err (pid_error e)
        → p.1.pid_file.acquired ≡ false
        → p.1.event_broadcaster ≡ events
        → StartEnd events p

  abbrev dropped :
      Faults → Result (Unit {0}) DaemonError × Daemon → Result (Unit {0}) DaemonError × Daemon
  dropped faults (r, d) = (r, drop_daemon running own version now_start now_stop faults d)

  serve-StartEnd :
      (faults : Faults) (d : Daemon)
      → Clean faults
      → d.pid_file.acquired ≡ true
      → StartEnd d.event_broadcaster
          (dropped faults (serve running own version now_start now_stop faults d))
  unfolding serve drop_daemon
  serve-StartEnd faults d clean held = elim (Result-cases ((bind faults.bind d.ipc_server).0)) [
    | inl (u, good) ↦
        rw (serve, good, clean.late, clean.pid_file, release-held d.pid_file held)
          (stopped refl refl refl)
    | inr (e, bad) ↦
        rw (serve, bad, clean.early, clean.pid_file, release-held d.pid_file held)
          (unbound e refl refl refl)
  ]

  drop_daemon-exists :
      (faults : Faults) (d : Daemon)
      → Clean faults
      → (drop_daemon running own version now_start now_stop faults d).ipc_server.exists ≡ false
  unfolding drop_daemon
  drop_daemon-exists faults d clean =
      rw (drop_daemon, clean.server) (drop_server-exists d.ipc_server)

  -- Every start from which removing the files works, whatever else fails, and whatever another
  -- process makes of the PID file while it is acquired, but not later, ends in one of the three
  -- ways: stopped, with both events sent and no PID file left; not bound, with no event and no PID
  -- file left; or without the PID file and with no event. In every case no socket is left, also
  -- none that another daemon listens on.
  pub handle_start-StartEnd :
      (faults : Faults) (d : Daemon)
      → Clean faults
      → d.pid_file.acquired ≡ false
      → StartEnd d.event_broadcaster (handle_start running own version now_start now_stop faults d)
        × ((handle_start running own version now_start now_stop faults d).1.ipc_server.exists
            ≡ false)
  unfolding handle_start run drop_daemon
  handle_start-StartEnd faults d clean free = (
    ends (acquire running own faults.acquire d.pid_file)
        (acquire-AcquireEnd running own faults.acquire d.pid_file),
    drop_daemon-exists faults (run running own version now_start now_stop faults d).1 clean,
  )
    where
      ends :
          (p : Result (Unit {0}) PidError × PidFile)
          → AcquireEnd running own faults.acquire d.pid_file p
          → StartEnd d.event_broadcaster (
              dropped faults (
                then_run
                  (pid_result p.0, set_pid_file p.1 d)
                  (λ _. serve running own version now_start now_stop faults)))
      ends p (got o i i' f a) = rw o (serve-StartEnd faults (set_pid_file p.1 d) clean a)
      ends p (refused pid o r f a) =
          rw (o, release-free faults.drop_pid_file p.1 (a ∙ free))
            (not_acquired (already_running pid) refl (a ∙ free) refl)
      ends p (failed e o a) =
          rw (o, release-free faults.drop_pid_file p.1 (a ∙ free))
            (not_acquired (io e) refl (a ∙ free) refl)

  -- A start while the PID file names a process that runs is refused and leaves the PID file as it is,
  -- but removes the socket, on which that process may listen.
  pub handle_start-refused :
      (faults : Faults) (d : Daemon) (text : Text) (pid : ℕ)
      → Clean faults
      → d.pid_file ≡ record { file = some text; acquired = false }
      → read_text none (some text) ≡ ok pid
      → running pid ≡ true
      → faults.acquire.first.read ≡ none
      → (handle_start running own version now_start now_stop faults d).0
          ≡ err (pid_error (already_running pid))
        × ((handle_start running own version now_start now_stop faults d).1.pid_file ≡ d.pid_file)
        × ((handle_start running own version now_start now_stop faults d).1.ipc_server.exists
            ≡ false)
  unfolding handle_start run drop_daemon
  handle_start-refused faults d text pid clean file reads alive works =
      let refuses : acquire running own faults.acquire d.pid_file
          ≡ (err (already_running pid), d.pid_file) =
        ap (acquire running own faults.acquire) file
        ∙ acquire-refused running own faults.acquire text pid reads alive works
        ∙ ap (λ p. (err (already_running pid), p)) (sym file) in
      rw
        (
          handle_start,
          run,
          refuses,
          release-free faults.drop_pid_file d.pid_file (ap (λ p. p.acquired) file),
        )
        (refl, refl, drop_daemon-exists faults d clean)

-- ===== src/Daemon/Core.antt =====
-- src/daemon/core.rs, and the start of src/cli/commands/daemon.rs: what a daemon does with the PID
-- file, the socket and the event stream from its start to its end. The tasks that run in between
-- (the monitors, the servers, the signals) are modelled in modules of their own; here they only
-- end, and the server of the socket is dropped when its task does. Reading the clock is a
-- parameter.
pub mod Lifetime
use palingenesis.Prelude.{ℕ, Bool, false, Option, List, [], ◌∷◌, ◌++◌, Result, ok, err}
use palingenesis.Prelude.Io.{Io, ◌>>=◌, ◌>>◌, give}
use palingenesis.Prelude.Text.{Text, codes}
use palingenesis.Monitor.Frontmatter.{IoError}
use palingenesis.Notify.Events.{NotificationEvent, daemon_started, daemon_stopped}
use palingenesis.Daemon.Pid
use palingenesis.Daemon.Pid.{PidError, PidFile, acquire, release}
use palingenesis.Ipc.Server.{IpcError, IpcServer, BindFaults, bind, drop_server}

pub data DaemonError : Type 0 where
  pid_error : PidError → DaemonError
  ipc_error : IpcError → DaemonError

pub record Daemon : Type 0 where
  pub pid_file : PidFile
  pub ipc_server : IpcServer
  pub event_broadcaster : List NotificationEvent

pub record Faults : Type 0 where
  pub acquire : Pid.Faults
  pub bind : BindFaults
  -- The release behind a failure of `bind`, and that at the end.
  pub release_early : Option IoError
  pub release : Option IoError
  -- When the server that ran is dropped, when the PID file is dropped, and when the server of the
  -- daemon is.
  pub drop_run : Option IoError
  pub drop_pid_file : Option IoError
  pub drop_server : Option IoError

abbrev pub Step : Type 0
Step = Io Daemon DaemonError (Unit {0})

abbrev pub pid_result : Result (Unit {0}) PidError → Result (Unit {0}) DaemonError
pid_result (ok u) = ok u
pid_result (err e) = err (pid_error e)

abbrev pub set_pid_file : PidFile → Daemon → Daemon
set_pid_file p d = record d { pid_file = p }

abbrev pub set_server : IpcServer → Daemon → Daemon
set_server s d = record d { ipc_server = s }

abbrev pub on_pid_file : Io PidFile PidError (Unit {0}) → Step
on_pid_file m d = let (r, p) = m d.pid_file in (pid_result r, set_pid_file p d)

-- `bind`, or the release of the PID file and the error.
abbrev pub bound_or_released :
    Option IoError → Result (Unit {0}) IpcError → Daemon → Result (Unit {0}) DaemonError × Daemon
bound_or_released fault (ok _) d = (ok tt, d)
bound_or_released fault (err e) d = (err (ipc_error e), set_pid_file (release fault d.pid_file).1 d)

abbrev pub bind_server : Faults → Step
bind_server faults d =
    let (r, s) = bind faults.bind d.ipc_server in
    bound_or_released faults.release_early r (set_server s d)

abbrev pub broadcast : NotificationEvent → Step
broadcast event d = (ok tt, record d { event_broadcaster = d.event_broadcaster ++ event ∷ [] })

-- `mem::take` leaves a server that does not listen, at the same path.
abbrev pub stop_server : Option IoError → Step
stop_server fault d =
    (ok tt, set_server (record (drop_server fault d.ipc_server) { listener = false }) d)

module _ (running : ℕ → Bool) (own : ℕ) (version : Text) (now_start now_stop : ℕ) where
  -- The rest of `run`, once the PID file is held.
  unfoldable pub serve : Faults → Step
  unfolding release bind drop_server codes
  serve faults = do
    bind_server faults
    broadcast (daemon_started now_start version)
    broadcast (daemon_stopped now_stop (codes "shutdown"))
    stop_server faults.drop_run
    on_pid_file (release faults.release)

  unfoldable pub run : Faults → Step
  unfolding acquire serve
  run faults = do on_pid_file (acquire running own faults.acquire); serve faults

  -- The fields of the daemon are dropped in their order: the PID file, if it is still held, then
  -- the server.
  unfoldable pub drop_daemon : Faults → Daemon → Daemon
  unfolding release drop_server
  drop_daemon faults d =
      let released = set_pid_file (release faults.drop_pid_file d.pid_file).1 d in
      set_server (drop_server faults.drop_server released.ipc_server) released

  -- `handle_start`, in the foreground.
  unfoldable pub handle_start : Faults → Daemon → Result (Unit {0}) DaemonError × Daemon
  unfolding run drop_daemon
  handle_start faults d = let (r, d') = run faults d in (r, drop_daemon faults d')

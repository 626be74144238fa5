-- ===== src/Tests/Core.antt =====
-- The starts of src/daemon/core.rs, and the commands of src/cli/commands/session.rs, at one daemon.
use palingenesis.Prelude.{
  ◌≡◌, ◌+◌, ◌%◌, ◌^◌, refl, true, false, none, [], Result, err, if◌then◌else◌,
}
use palingenesis.Prelude.Text.{Text, codes, trim, trim_end, trim_start_by, is_whitespace}
use palingenesis.Prelude.Number.{parse_uint, scan, is_digit}
use palingenesis.Daemon.Pid.{already_running, read_text}
use palingenesis.Prelude.Int.{ℤ}
use palingenesis.Ipc.Protocol.{pause, resume, new_session, DaemonStatus}
use palingenesis.Ipc.Server.{new_server}
use palingenesis.Ipc.Client.Connection.{request_pause, request_resume, request_new_session, served}
use palingenesis.Daemon.State.{access}
use palingenesis.Daemon.Core.{Daemon, Faults, pid_error, handle_start}
use palingenesis.Daemon.Core.Lifetime.{Clean, StartEnd, handle_start-StartEnd, handle_start-refused}
use palingenesis.Cli.Session.{handle_pause, handle_resume, handle_new_session}
use palingenesis.Cli.Session.Effect.{after, prints, handle_session-effect}
use palingenesis.Tests.Pid.{running, working, other_daemon}
use palingenesis.Tests.Floats.{floats}
use palingenesis.Tests.Daemon.{daemon, outside}

abbrev faults : Faults
faults = record {
  acquire = working;
  bind = record {
    remove_stale = none;
    has_parent = true;
    create_dir_all = none;
    set_parent_permissions = none;
    bind = none;
    set_permissions = none;
  };
  release_early = none;
  release = none;
  drop_run = none;
  drop_pid_file = none;
  drop_server = none;
}

abbrev clean : Clean faults
clean = record { early = refl; late = refl; pid_file = refl; server = refl }

-- The process 7 listens on the socket.
abbrev second_daemon : Daemon
second_daemon = record {
  pid_file = other_daemon;
  ipc_server = new_server true;
  event_broadcaster = [];
}

handle_start-StartEnd_example :
    StartEnd running 5
      (codes "1.0")
      1
      2
      []
      (handle_start running 5 (codes "1.0") 1 2 faults second_daemon)
    × ((handle_start running 5 (codes "1.0") 1 2 faults second_daemon).1.ipc_server.exists ≡ false)
handle_start-StartEnd_example =
    handle_start-StartEnd running 5 (codes "1.0") 1 2 faults second_daemon clean refl

-- A second daemon is refused, and takes the socket of the first away.
handle_start-refused_example :
    ((handle_start running 5 (codes "1.0") 1 2 faults second_daemon).0
      ≡ err (pid_error (already_running 7)))
    × ((handle_start running 5 (codes "1.0") 1 2 faults second_daemon).1.pid_file ≡ other_daemon)
    × ((handle_start running 5 (codes "1.0") 1 2 faults second_daemon).1.ipc_server.exists ≡ false)
unfolding read_text codes trim trim_end trim_start_by is_whitespace parse_uint scan is_digit
handle_start-refused_example =
    handle_start-refused running 5 (codes "1.0") 1 2 faults second_daemon (codes "7\n") 7 clean refl
      refl refl refl

abbrev parse_status : Text → Result (DaemonStatus ℤ) Text
parse_status text = err text

abbrev status_json : {F : Type 0} → DaemonStatus F → Text
status_json s = codes "{}"

handle_session-effect_example :
    (handle_pause (request_pause parse_status (served (access floats outside) status_json daemon))
      ≡ prints floats outside status_json parse_status
          (if daemon.paused then codes "Already paused" else codes "Monitoring paused"))
    × (after floats outside status_json parse_status pause daemon ≡ record daemon { paused = true })
    × (handle_resume
          (request_resume parse_status (served (access floats outside) status_json daemon))
        ≡ prints floats outside status_json parse_status
            (if daemon.paused then codes "Monitoring resumed" else codes "Already monitoring"))
    × ((after floats outside status_json parse_status resume daemon).paused ≡ false)
    × (handle_new_session
          (request_new_session parse_status (served (access floats outside) status_json daemon))
        ≡ prints floats outside status_json parse_status (codes "New session started"))
    × (after floats outside status_json parse_status new_session daemon
        ≡ record daemon { sessions_count = (daemon.sessions_count + 1) % 2 ^ 64 })
handle_session-effect_example = handle_session-effect floats outside status_json parse_status daemon

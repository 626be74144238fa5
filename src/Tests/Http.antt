-- ===== src/Tests/Http.antt =====
-- src/http/handlers/control.rs at the daemon of the daemon's tests.
use palingenesis.Prelude.{◌≡◌, refl, true, false}
use palingenesis.Prelude.Text.{codes, text_eq}
use palingenesis.Daemon.State.{pause, access}
use palingenesis.Ipc.Protocol
use palingenesis.Ipc.Socket.{handle_command}
use palingenesis.Http.Control.{
  bad_request, ok_200, control_error, control_error_of, pause_handler, pause_daemon,
}
use palingenesis.Http.Control.Agreement.{pause_route, handle_route, handle_route-handle_command}
use palingenesis.Tests.Floats.{floats}
use palingenesis.Tests.Daemon.{daemon, outside}

paused_daemon : (pause_handler floats outside (record daemon { paused = true })).0 ≡ (
  bad_request,
  control_error (record {
    success = false;
    error = record { code = codes "ALREADY_PAUSED"; message = codes "Daemon already paused" };
  }),
)
unfolding pause_handler pause_daemon pause control_error_of codes text_eq
paused_daemon = refl

handle_route-handle_command_example :
    ((handle_route floats outside (codes "id") pause_route daemon).1
      ≡ (handle_command (access floats outside) Protocol.pause daemon).1)
    × ((handle_route floats outside (codes "id") pause_route daemon).0.0 ≡ ok_200)
unfolding handle_command access pause
handle_route-handle_command_example =
    handle_route-handle_command floats outside (codes "id") pause_route daemon

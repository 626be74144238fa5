-- ===== src/Http/Control/Agreement.antt =====
-- The control routes of src/http/handlers/control.rs and the commands of src/ipc/socket.rs do the
-- same.
use palingenesis.Prelude.{◌≡◌, refl, Bool, true, false, Bool-cases, inl, inr, if◌then◌else◌}
use palingenesis.Prelude.Text.{Text, codes, text_eq}
use palingenesis.Prelude.Float.{FloatOps}
use palingenesis.Ipc.Protocol
use palingenesis.Ipc.Protocol.{IpcCommand, IpcResponse, ok_response, error, status_response}
use palingenesis.Ipc.Socket.{handle_command}
use palingenesis.Daemon.State.{DaemonState, Outside, access, pause, resume, new_session}
use palingenesis.Http.Control.{
  ok_200, bad_request, Response, control_error_of, pause_handler, resume_handler,
  new_session_handler, pause_daemon, resume_daemon, new_session_daemon,
}

pub data Route : Type 0 where
  pause_route resume_route new_session_route : Route

abbrev pub command : Route → IpcCommand
command pause_route = Protocol.pause
command resume_route = Protocol.resume
command new_session_route = Protocol.new_session

abbrev pub accepted : {F : Type 0} → IpcResponse F → Bool
accepted ok_response = true
accepted (error message) = false
accepted (status_response s) = true

module _ {F : Type 0} (fl : FloatOps F) (out : Outside F) where
  abbrev pub handle_route : Text → Route → DaemonState F → Response × DaemonState F
  handle_route id pause_route s = pause_handler fl out s
  handle_route id resume_route s = resume_handler fl out s
  handle_route id new_session_route s = new_session_handler fl out id s

  -- A control route changes the daemon as the command of the socket does, and it answers with 200
  -- where that is accepted and with 400 where it is refused: never with 500.
  pub handle_route-handle_command :
      (id : Text) (route : Route) (s : DaemonState F)
      → let web = handle_route id route s in
        let socket = handle_command (access fl out) (command route) s in
        (web.1 ≡ socket.1) × (web.0.0 ≡ (if accepted socket.0 then ok_200 else bad_request))
  unfolding handle_command access pause resume new_session pause_handler resume_handler
      new_session_handler pause_daemon resume_daemon new_session_daemon control_error_of codes
      text_eq
  handle_route-handle_command id pause_route s = elim (Bool-cases s.paused) [
    | inl h ↦ rw h (refl, refl)
    | inr h ↦ rw h (refl, refl)
  ]
  handle_route-handle_command id resume_route s = elim (Bool-cases s.paused) [
    | inl h ↦ rw h (refl, refl)
    | inr h ↦ rw h (refl, refl)
  ]
  handle_route-handle_command id new_session_route s = (refl, refl)

-- ===== src/Cli/Session/Effect.antt =====
-- The commands of src/cli/commands/session.rs all the way to the daemon: the client
-- (src/ipc/client.rs), the socket (src/ipc/socket.rs) and the state (src/daemon/state.rs).
use palingenesis.Prelude.{
  ◌≡◌, ◌+◌, ◌%◌, ◌^◌, refl, true, false, Result, [], ◌∷◌, ok, Bool-cases, inl, inr, if◌then◌else◌,
}
use palingenesis.Prelude.Text.{
  Text, codes, text_eq, starts_with, trim, trim_end, trim_start_by, is_whitespace, ascii_lower,
  ascii_upper,
}
use palingenesis.Prelude.Float.{FloatOps}
use palingenesis.Ipc.Protocol.{IpcCommand, pause, resume, new_session, DaemonStatus, parse, to_text}
use palingenesis.Ipc.Socket.{line, handle_command, handle_connection}
use palingenesis.Ipc.Client.{command_text, parse_response, received, expect_ok}
use palingenesis.Ipc.Client.Connection.{
  connect_with_path, send_command, request_pause, request_resume, request_new_session, first_line,
  served,
}
use palingenesis.Daemon.State
use palingenesis.Daemon.State.{DaemonState, Outside, access}
use palingenesis.Cli.Session.{out, returned, Done, handle_pause, handle_resume, handle_new_session}

module _ {F : Type 0} (fl : FloatOps F) (outside : Outside F) (json : DaemonStatus F → Text)
    (from_str : Text → Result (DaemonStatus F) Text) where
  -- The daemon behind the line of a command.
  abbrev pub after : IpcCommand → DaemonState F → DaemonState F
  after command s = (handle_connection (access fl outside) json (line (command_text command)) s).1

  abbrev pub prints : Text → Done
  prints text = (out text ∷ [], returned (ok tt))

  pause_effect :
      (s : DaemonState F)
      → (handle_pause (request_pause from_str (served (access fl outside) json s))
          ≡ prints (if s.paused then codes "Already paused" else codes "Monitoring paused"))
        × (after pause s ≡ record s { paused = true })
  unfolding handle_pause request_pause State.pause connect_with_path send_command received
      parse_response expect_ok command_text handle_connection handle_command access parse to_text
      first_line codes text_eq starts_with trim trim_end trim_start_by is_whitespace ascii_lower
      ascii_upper
  pause_effect s = elim (Bool-cases s.paused) [
    | inl paused ↦ rw paused (refl, refl)
    | inr monitoring ↦ rw monitoring (refl, refl)
  ]

  resume_effect :
      (s : DaemonState F)
      → (handle_resume (request_resume from_str (served (access fl outside) json s))
          ≡ prints (if s.paused then codes "Monitoring resumed" else codes "Already monitoring"))
        × ((after resume s).paused ≡ false)
  unfolding handle_resume request_resume State.resume connect_with_path send_command received
      parse_response expect_ok command_text handle_connection handle_command access parse to_text
      first_line codes text_eq starts_with trim trim_end trim_start_by is_whitespace ascii_lower
      ascii_upper
  resume_effect s = elim (Bool-cases s.paused) [
    | inl paused ↦ rw paused (refl, refl)
    | inr monitoring ↦ rw monitoring (refl, refl)
  ]

  -- What the commands of a session print, if the daemon runs and the socket works, is what the
  -- daemon has done: `pause` leaves it paused, and says whether it was paused already, `resume`
  -- leaves it monitoring, and says whether it was monitoring already, and `new-session` only
  -- counts up the sessions, wrapping round at 64 bits, and says that a session started, whatever the
  -- state: the message that there was none to replace is never printed.
  pub handle_session-effect :
      (s : DaemonState F)
      → (handle_pause (request_pause from_str (served (access fl outside) json s))
          ≡ prints (if s.paused then codes "Already paused" else codes "Monitoring paused"))
        × (after pause s ≡ record s { paused = true })
        × (handle_resume (request_resume from_str (served (access fl outside) json s))
            ≡ prints (if s.paused then codes "Monitoring resumed" else codes "Already monitoring"))
        × ((after resume s).paused ≡ false)
        × (handle_new_session (request_new_session from_str (served (access fl outside) json s))
            ≡ prints (codes "New session started"))
        × (after new_session s ≡ record s { sessions_count = (s.sessions_count + 1) % 2 ^ 64 })
  unfolding handle_new_session request_new_session State.new_session connect_with_path send_command
      received parse_response expect_ok command_text handle_connection handle_command access parse
      to_text first_line codes text_eq starts_with trim trim_end trim_start_by is_whitespace
      ascii_lower ascii_upper
  handle_session-effect s =
      let (paused, stays) = pause_effect s in
      let (resumed, runs) = resume_effect s in (paused, stays, resumed, runs, refl, refl)

-- ===== src/Ipc/Socket.antt =====
-- src/ipc/socket.rs: a connection, and the daemon's side of a command.
use palingenesis.Prelude.{◌++◌, List, [], ◌∷◌, Option, none, some, Result, ok, err}
use palingenesis.Prelude.Text.{Text, codes, trim}
use palingenesis.Monitor.Frontmatter.{IoError}
use palingenesis.Ipc.Protocol.{
  IpcCommand, status, pause, resume, new_session, reload, parse, DaemonStatus, IpcResponse,
  ok_response, error, status_response, to_text,
}

-- The trait `DaemonStateAccess`, for a daemon in a state of `T`.
pub record DaemonStateAccess (F T : Type 0) : Type 0 where
  pub get_status : T → DaemonStatus F
  pub pause : T → Result (Unit {0}) Text × T
  pub resume : T → Result (Unit {0}) Text × T
  pub new_session : T → Result (Unit {0}) Text × T
  pub reload_config : T → Result (Unit {0}) Text × T

-- What comes of reading a line within the time limit.
pub data Read : Type 0 where
  end_of_file : Read
  line : Text → Read
  failed : IoError → Read
  timed_out : Read

abbrev pub respond : {F T : Type 0} → Result (Unit {0}) Text × T → IpcResponse F × T
respond (ok _, t) = (ok_response, t)
respond (err message, t) = (error message, t)

module _ {F T : Type 0} (access : DaemonStateAccess F T) where
  unfoldable pub handle_command : IpcCommand → T → IpcResponse F × T
  handle_command status t = (status_response (access.get_status t), t)
  handle_command pause t = respond (access.pause t)
  handle_command resume t = respond (access.resume t)
  handle_command new_session t = respond (access.new_session t)
  handle_command reload t = respond (access.reload_config t)

  abbrev on_line : Text → Option IpcCommand → T → IpcResponse F × T
  on_line text (some command) t = handle_command command t
  on_line text none t = (error (codes "Unknown command: " ++ trim text), t)

  -- What is written to the peer, if anything, or the error.
  unfoldable pub handle_connection :
      (DaemonStatus F → Text) → Read → T → Result (Option Text) IoError × T
  handle_connection json end_of_file t = (ok none, t)
  handle_connection json (failed e) t = (err e, t)
  handle_connection json timed_out t =
      (ok (some (to_text json (error (codes "Connection timeout")))), t)
  handle_connection json (line text) t =
      let (response, t') = on_line text (parse text) t in (ok (some (to_text json response)), t')

  -- The answers to a sequence of commands, one connection after the other.
  unfoldable pub serve : List IpcCommand → T → List (IpcResponse F) × T
  serve [] t = ([], t)
  serve (command ∷ commands) t =
      let (response, t') = handle_command command t in
      let (responses, t'') = serve commands t' in (response ∷ responses, t'')

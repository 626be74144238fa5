-- ===== src/Ipc/Client.antt =====
-- src/ipc/client.rs: what the client sends for a command, and what it makes of the answer. The
-- connection, the writing and the reading are given by their outcomes; the JSON of a status
-- (serde_json) is a parameter.
pub mod Connection
use palingenesis.Prelude.{◌≡◌, refl, some, ◌++◌, Result, ok, err, drop, if◌then◌else◌}
use palingenesis.Prelude.Text.{
  Text, codes, text_eq, starts_with, trim, trim_end, trim_start_by, is_whitespace, ascii_upper,
  is_empty,
}
use palingenesis.Monitor.Frontmatter.{IoError}
use palingenesis.Ipc.Protocol.{
  IpcCommand, status, pause, resume, new_session, reload, parse, DaemonStatus, IpcResponse,
  ok_response, error, status_response, to_text,
}
use palingenesis.Ipc.Socket.{
  DaemonStateAccess, Read, end_of_file, line, failed, timed_out, handle_command, handle_connection,
}

pub data IpcClientError : Type 0 where
  not_running timeout : IpcClientError
  io : IoError → IpcClientError
  protocol : Text → IpcClientError

unfoldable pub command_text : IpcCommand → Text
unfolding codes
command_text status = codes "STATUS\n"
command_text pause = codes "PAUSE\n"
command_text resume = codes "RESUME\n"
command_text new_session = codes "NEW_SESSION\n"
command_text reload = codes "RELOAD\n"

module _ {F : Type 0} where
  abbrev parsed_status : Result (DaemonStatus F) Text → Result (IpcResponse F) IpcClientError
  parsed_status (ok s) = ok (status_response s)
  parsed_status (err message) = err (protocol (codes "Invalid response: " ++ message))

  unfoldable pub parse_response :
      (Text → Result (DaemonStatus F) Text) → Text → Result (IpcResponse F) IpcClientError
  unfolding codes trim_end text_eq starts_with trim
  parse_response from_str response =
      let trimmed = trim_end response in
      if is_empty trimmed
      then err (protocol (codes "Empty response"))
      else if text_eq trimmed (codes "OK")
      then ok ok_response
      else if starts_with trimmed (codes "ERR:")
      then ok (error (trim (drop 4 trimmed)))
      else parsed_status (from_str trimmed)

  unfoldable pub expect_ok : IpcResponse F → Result (Unit {0}) IpcClientError
  unfolding codes
  expect_ok ok_response = ok tt
  expect_ok (error message) = err (protocol message)
  expect_ok (status_response s) = err (protocol (codes "Unexpected status response"))

  unfoldable pub expect_status : IpcResponse F → Result (DaemonStatus F) IpcClientError
  unfolding codes
  expect_status (status_response s) = ok s
  expect_status (error message) = err (protocol message)
  expect_status ok_response = err (protocol (codes "Unexpected OK response"))

  -- What comes of the answer, behind a writing that worked.
  unfoldable pub received :
      (Text → Result (DaemonStatus F) Text) → Read → Result (IpcResponse F) IpcClientError
  unfolding parse_response codes
  received from_str end_of_file = err (protocol (codes "Empty response"))
  received from_str (line response) = parse_response from_str response
  received from_str (failed e) = err (io e)
  received from_str timed_out = err timeout

  -- The line of a command is executed as that command, and its answer is written.
  handle_connection-command_text :
      {T : Type 0} (access : DaemonStateAccess F T) (json : DaemonStatus F → Text) (c : IpcCommand)
      (t : T)
      → let (response, t') = handle_command access c t in
        handle_connection access json (line (command_text c)) t
        ≡ (ok (some (to_text json response)), t')
  unfolding handle_connection command_text parse codes trim trim_end trim_start_by is_whitespace
      ascii_upper text_eq
  handle_connection-command_text access json status t = refl
  handle_connection-command_text access json pause t = refl
  handle_connection-command_text access json resume t = refl
  handle_connection-command_text access json new_session t = refl
  handle_connection-command_text access json reload t = refl

-- ===== src/Ipc/Client/Connection.antt =====
-- The connections of src/ipc/client.rs: what each call of the socket answers is given, and so is the
-- answer of the other side to what is written.
use palingenesis.Prelude.{
  Bool, true, false, Option, none, some, [], ◌∷◌, Result, ok, err, ◌==◌, if◌then◌else◌,
}
use palingenesis.Prelude.Text.{Text}
use palingenesis.Monitor.Frontmatter.{IoError}
use palingenesis.Ipc.Protocol.{
  IpcCommand, status, pause, resume, new_session, reload, DaemonStatus, IpcResponse,
}
use palingenesis.Ipc.Socket.{DaemonStateAccess, Read, end_of_file, line, handle_connection}
use palingenesis.Ipc.Client.{
  IpcClientError, not_running, timeout, io, command_text, received, expect_ok, expect_status,
}

-- An error of `UnixStream::connect`, by its kind.
pub data ConnectError : Type 0 where
  no_socket connection_refused : ConnectError
  other_error : IoError → ConnectError

-- A call within the time limit.
pub data Timed (E : Type 0) : Type 0 where
  in_time : Option E → Timed E
  too_late : Timed E

pub record Link : Type 0 where
  pub exists : Bool
  pub connect : Timed ConnectError
  pub write : Timed IoError
  pub flush : Option IoError
  pub answer : Text → Read

unfoldable pub map_connect_error : ConnectError → IpcClientError
map_connect_error no_socket = not_running
map_connect_error connection_refused = not_running
map_connect_error (other_error e) = io e

abbrev pub connect_result : Timed ConnectError → Result (Unit {0}) IpcClientError
connect_result (in_time none) = ok tt
connect_result (in_time (some e)) = err (map_connect_error e)
connect_result too_late = err timeout

unfoldable pub connect_with_path : Link → Result (Unit {0}) IpcClientError
unfolding map_connect_error
connect_with_path link = elim (link.exists) [
  | false ↦ err not_running
  | true ↦ connect_result link.connect
]

abbrev pub write_result : Timed IoError → Option IoError → Result (Unit {0}) IpcClientError
write_result too_late flush = err timeout
write_result (in_time (some e)) flush = err (io e)
write_result (in_time none) (some e) = err (io e)
write_result (in_time none) none = ok tt

abbrev pub and_then {ℓ κ} :
    {A : Type ℓ} {B : Type κ}
    → Result A IpcClientError
    → (A → Result B IpcClientError)
    → Result B IpcClientError
and_then (ok a) f = f a
and_then (err e) f = err e

module _ {F : Type 0} (from_str : Text → Result (DaemonStatus F) Text) where
  unfoldable pub send_command : IpcCommand → Link → Result (IpcResponse F) IpcClientError
  unfolding command_text received
  send_command command link =
      and_then (write_result link.write link.flush)
        λ _. received from_str (link.answer (command_text command))

  -- Connect, then one command.
  abbrev pub exchange : IpcCommand → Link → Result (IpcResponse F) IpcClientError
  exchange command link = and_then (connect_with_path link) λ _. send_command command link

  unfoldable pub request_status : Link → Result (DaemonStatus F) IpcClientError
  unfolding connect_with_path send_command expect_status
  request_status link = and_then (exchange status link) expect_status

  unfoldable pub request_pause : Link → Result (Unit {0}) IpcClientError
  unfolding connect_with_path send_command expect_ok
  request_pause link = and_then (exchange pause link) expect_ok

  unfoldable pub request_resume : Link → Result (Unit {0}) IpcClientError
  unfolding connect_with_path send_command expect_ok
  request_resume link = and_then (exchange resume link) expect_ok

  unfoldable pub request_reload : Link → Result (Unit {0}) IpcClientError
  unfolding connect_with_path send_command expect_ok
  request_reload link = and_then (exchange reload link) expect_ok

  unfoldable pub request_new_session : Link → Result (Unit {0}) IpcClientError
  unfolding connect_with_path send_command expect_ok
  request_new_session link = and_then (exchange new_session link) expect_ok

-- What `read_line` gives of a text: all of it, if there is no newline.
unfoldable pub first_line : Text → Text
first_line [] = []
first_line (c ∷ text) = if c == 10 then c ∷ [] else c ∷ first_line text

abbrev pub read_of : Result (Option Text) IoError → Read
read_of (ok none) = end_of_file
read_of (ok (some [])) = end_of_file
read_of (ok (some (c ∷ text))) = line (first_line (c ∷ text))
read_of (err e) = end_of_file

-- The link to a daemon that runs, in a state.
abbrev pub served : {F T : Type 0} → DaemonStateAccess F T → (DaemonStatus F → Text) → T → Link
served access json t = record {
  exists = true;
  connect = in_time none;
  write = in_time none;
  flush = none;
  answer = λ text. read_of (handle_connection access json (line text) t).0;
}

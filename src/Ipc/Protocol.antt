-- ===== src/Ipc/Protocol.antt =====
-- src/ipc/protocol.rs: the commands and the answers of the control protocol.
-- The JSON text of a status (serde_json) is a parameter.
use palingenesis.Prelude.{ℕ, ◌++◌, Option, none, some, if◌then◌else◌, ◌||◌}
use palingenesis.Prelude.Text.{Text, codes, text_eq, trim, to_ascii_uppercase}

pub data IpcCommand : Type 0 where
  status pause resume new_session reload : IpcCommand

abbrev command_of : Text → Option IpcCommand
command_of name =
    if text_eq name (codes "STATUS")
    then some status
    else if text_eq name (codes "PAUSE")
    then some pause
    else if text_eq name (codes "RESUME")
    then some resume
    else if text_eq name (codes "NEW_SESSION") || text_eq name (codes "NEW-SESSION")
    then some new_session
    else if text_eq name (codes "RELOAD")
    then some reload
    else none

unfoldable pub parse : Text → Option IpcCommand
parse line = command_of (to_ascii_uppercase (trim line))

pub record DaemonStatus (F : Type 0) : Type 0 where
  pub state : Text
  pub uptime_secs : ℕ  -- u64
  pub current_session : Option Text
  pub saves_count : ℕ  -- u64
  pub total_resumes : ℕ  -- u64
  pub time_saved_seconds : F
  pub time_saved_human : Option Text

pub data IpcResponse (F : Type 0) : Type 0 where
  ok_response : IpcResponse F
  error : Text → IpcResponse F
  status_response : DaemonStatus F → IpcResponse F

unfoldable pub to_text : {F : Type 0} → (DaemonStatus F → Text) → IpcResponse F → Text
to_text json ok_response = codes "OK\n"
to_text json (error message) = codes "ERR: " ++ (message ++ codes "\n")
to_text json (status_response s) = json s ++ codes "\n"

-- ===== src/Http/Control.antt =====
-- src/http/handlers/control.rs: the handlers of the control routes, over the daemon's state. A
-- response is its status and its payload; the identifier of a new session (uuid) is a parameter.
pub mod Agreement
use palingenesis.Prelude.{ℕ, Bool, true, false, List, [], ◌∷◌, Result, ok, err, if◌then◌else◌}
use palingenesis.Prelude.Text.{Text, codes, text_eq}
use palingenesis.Prelude.Float.{FloatOps}
use palingenesis.Daemon.State.{DaemonState, Outside, pause, resume, new_session}

pub data StatusCode : Type 0 where
  ok_200 bad_request internal_server_error : StatusCode

pub record ErrorDetail : Type 0 where
  pub code : Text
  pub message : Text

pub record ControlErrorResponse : Type 0 where
  pub success : Bool
  pub error : ErrorDetail

pub record ControlResponse : Type 0 where
  pub success : Bool

pub record ControlResponseWithId : Type 0 where
  pub success : Bool
  pub session_id : Text

pub record ControlError : Type 0 where
  pub code : Text
  pub message : Text
  pub status : StatusCode

-- What a handler answers with.
pub data Payload : Type 0 where
  control : ControlResponse → Payload
  control_with_id : ControlResponseWithId → Payload
  control_error : ControlErrorResponse → Payload

abbrev pub Response : Type 0
Response = StatusCode × Payload

abbrev pub already_paused : Text
already_paused = codes "Daemon already paused"

abbrev pub not_paused : Text
not_paused = codes "Daemon is not paused"

abbrev pub error_response : ControlError → Response
error_response e = (
  e.status,
  control_error (record { success = false; error = record { code = e.code; message = e.message } }),
)

abbrev done : Result (Unit {0}) ControlError → Response
done (ok _) = (ok_200, control (record { success = true }))
done (err e) = error_response e

abbrev with_id : Result Text ControlError → Response
with_id (ok id) = (ok_200, control_with_id (record { success = true; session_id = id }))
with_id (err e) = error_response e

-- A known message is the client's mistake, any other the server's.
unfoldable pub control_error_of : (known code other message : Text) → ControlError
unfolding codes text_eq
control_error_of known code other message =
    if text_eq message known
    then record { code = code; message = message; status = bad_request }
    else record { code = other; message = message; status = internal_server_error }

abbrev paused_result : Result (Unit {0}) Text → Result (Unit {0}) ControlError
paused_result (ok _) = ok tt
paused_result (err message) =
    err (control_error_of already_paused (codes "ALREADY_PAUSED") (codes "PAUSE_ERROR") message)

abbrev resumed_result : Result (Unit {0}) Text → Result (Unit {0}) ControlError
resumed_result (ok _) = ok tt
resumed_result (err message) =
    err (control_error_of not_paused (codes "NOT_PAUSED") (codes "RESUME_ERROR") message)

abbrev session_result : Text → Result (Unit {0}) Text → Result Text ControlError
session_result id (ok _) = ok id
session_result id (err message) =
    err (record { code = codes "SESSION_ERROR"; message = message; status = internal_server_error })

module _ {F : Type 0} (fl : FloatOps F) (out : Outside F) where
  unfoldable pub pause_daemon : DaemonState F → Result (Unit {0}) ControlError × DaemonState F
  unfolding control_error_of pause codes
  pause_daemon s = let (result, s') = pause fl out s in (paused_result result, s')

  unfoldable pub resume_daemon : DaemonState F → Result (Unit {0}) ControlError × DaemonState F
  unfolding control_error_of resume codes
  resume_daemon s = let (result, s') = resume fl out s in (resumed_result result, s')

  unfoldable pub new_session_daemon :
      Text → DaemonState F → Result Text ControlError × DaemonState F
  unfolding new_session codes
  new_session_daemon id s =
      let (result, s') = new_session fl out s in (session_result id result, s')

  unfoldable pub pause_handler : DaemonState F → Response × DaemonState F
  unfolding pause_daemon
  pause_handler s = let (result, s') = pause_daemon s in (done result, s')

  unfoldable pub resume_handler : DaemonState F → Response × DaemonState F
  unfolding resume_daemon
  resume_handler s = let (result, s') = resume_daemon s in (done result, s')

  unfoldable pub new_session_handler : Text → DaemonState F → Response × DaemonState F
  unfolding new_session_daemon
  new_session_handler id s = let (result, s') = new_session_daemon id s in (with_id result, s')

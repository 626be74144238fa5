-- ===== src/Cli/Session.antt =====
-- src/cli/commands/session.rs: what the commands print for what the client returns, and how they
-- end. The exit with a code is an end of its own.
pub mod Effect
use palingenesis.Prelude.{ℕ, Bool, List, [], ◌∷◌, Result, ok, err, if◌then◌else◌}
use palingenesis.Prelude.Text.{Text, codes, text_eq, to_ascii_lowercase}
use palingenesis.Ipc.Client.{IpcClientError, not_running, timeout, io, protocol}

-- What is printed, and how the command ends.
pub data Printed : Type 0 where
  out : Text → Printed
  error_out : Text → Printed

pub data End : Type 0 where
  returned : Result (Unit {0}) IpcClientError → End
  exited : ℕ → End

abbrev pub Done : Type 0
Done = List Printed × End

abbrev says : Text → Done
says text = (out text ∷ [], returned (ok tt))

abbrev exits : Text → Done
exits text = (error_out text ∷ [], exited 1)

abbrev fails : IpcClientError → Done
fails e = ([], returned (err e))

abbrev eq_ignore_case : Text → Text → Bool
eq_ignore_case a b = text_eq (to_ascii_lowercase a) (to_ascii_lowercase b)

unfoldable pub handle_pause : Result (Unit {0}) IpcClientError → Done
unfolding codes text_eq
handle_pause (ok _) = says (codes "Monitoring paused")
handle_pause (err not_running) = exits (codes "Daemon not running")
handle_pause (err timeout) = exits (codes "Daemon unresponsive")
handle_pause (err (protocol message)) =
    if eq_ignore_case message (codes "Daemon already paused")
    then says (codes "Already paused")
    else fails (protocol message)
handle_pause (err (io e)) = fails (io e)

unfoldable pub handle_resume : Result (Unit {0}) IpcClientError → Done
unfolding codes text_eq
handle_resume (ok _) = says (codes "Monitoring resumed")
handle_resume (err not_running) = exits (codes "Daemon not running")
handle_resume (err timeout) = exits (codes "Daemon unresponsive")
handle_resume (err (protocol message)) =
    if eq_ignore_case message (codes "Daemon is not paused")
    then says (codes "Already monitoring")
    else fails (protocol message)
handle_resume (err (io e)) = fails (io e)

unfoldable pub handle_new_session : Result (Unit {0}) IpcClientError → Done
unfolding codes text_eq
handle_new_session (ok _) = says (codes "New session started")
handle_new_session (err not_running) = exits (codes "Daemon not running")
handle_new_session (err timeout) = exits (codes "Daemon unresponsive")
handle_new_session (err (protocol message)) =
    if eq_ignore_case message (codes "No active session to replace")
    then exits (codes "No active session to replace")
    else fails (protocol message)
handle_new_session (err (io e)) = fails (io e)

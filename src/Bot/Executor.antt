-- ===== src/Bot/Executor.antt =====
-- src/bot/executor.rs, and the results of src/bot/commands.rs: the bot's commands on the daemon's
-- state. The log file, the PID file, the identifier of a new session and the time of the last event
-- are parameters. `none` is a panic.
use palingenesis.Prelude.{
  ℕ, ◌+◌, ◌-◌, ◌/◌, ◌%◌, min, Bool, true, false, Option, none, some, get_or, List, [], ◌∷◌, ◌++◌,
  Result, ok, err, ltb, ◌==◌, length, drop, if◌then◌else◌,
}
use palingenesis.Prelude.Text.{utf8_len, Text, codes, text_eq, lines, is_empty}
use palingenesis.Prelude.Number.{decimal}
use palingenesis.Prelude.Float.{FloatOps}
use palingenesis.Bot.Commands.{BotCommand, status, pause, resume, logs, new_session, help}
use palingenesis.Daemon.Pid.{PidError}
use palingenesis.Daemon.State.{DaemonState, Outside}
use palingenesis.Http.Control.{ControlError, pause_daemon, resume_daemon, new_session_daemon}
use palingenesis.Http.Status.{StatusResponse, build_status_snapshot}

pub record BotCommandField : Type 0 where
  pub name : Text
  pub value : Text
  pub inline : Bool

pub record BotCommandResult : Type 0 where
  pub success : Bool
  pub title : Text
  pub body : Option Text
  pub fields : List BotCommandField

abbrev pub success : Text → BotCommandResult
success title = record { success = true; title = title; body = none; fields = [] }

abbrev pub error : Text → BotCommandResult
error title = record { success = false; title = title; body = none; fields = [] }

abbrev pub with_body : Text → BotCommandResult → BotCommandResult
with_body body result = record result { body = some body }

abbrev pub with_fields : List BotCommandField → BotCommandResult → BotCommandResult
with_fields fields result = record result { fields = fields }

abbrev pushed : ℕ → Option Text → Option Text
pushed c none = none
pushed c (some s) = some (c ∷ s)

-- `&s[..n]`: the first n bytes, which must not end inside a character.
unfoldable pub cut_bytes : ℕ → Text → Option Text
cut_bytes n [] = if n == 0 then some [] else none
cut_bytes n (c ∷ s) =
    let width = utf8_len (c ∷ []) in
    let rest = cut_bytes (n - width) s in
    if n == 0 then some [] else if ltb n width then none else pushed c rest

abbrev with_dots : Option Text → Option Text
with_dots none = none
with_dots (some s) = some (s ++ codes "...")

abbrev next_line : Text → Text → Text
next_line result line = (if is_empty result then result else result ++ 10 ∷ []) ++ line

-- The loop over the lines, with what it has made.
unfoldable pub truncate_from : ℕ → Text → List Text → Option Text
unfolding cut_bytes codes
truncate_from max_chars result [] = some result
truncate_from max_chars result (line ∷ rest) =
    let more = truncate_from max_chars (next_line result line) rest in
    if ltb max_chars (utf8_len result + utf8_len line + 1)
    then if is_empty result
      then with_dots (cut_bytes (min (max_chars - 3) (utf8_len line)) line)
      else some (result ++ codes "\n...(truncated)")
    else more

unfoldable pub truncate_log_lines : List Text → ℕ → Option Text
unfolding truncate_from
truncate_log_lines log_lines max_chars = truncate_from max_chars [] log_lines

unfoldable pub read_log_tail : Result Text Text → ℕ → Result (List Text) Text
unfolding lines
read_log_tail (err e) tail = err e
read_log_tail (ok text) tail =
    let all = lines text in
    let start = if ltb tail (length all) then length all - tail else 0 in ok (drop start all)

unfoldable pub format_duration : ℕ → Text
unfolding decimal codes
format_duration seconds =
    let hours = seconds / 3_600 in
    let minutes = (seconds % 3_600) / 60 in
    let secs = seconds % 60 in
    if ltb 0 hours
    then decimal hours
      ++ (codes "h " ++ (decimal minutes ++ (codes "m " ++ (decimal secs ++ codes "s"))))
    else if ltb 0 minutes
    then decimal minutes ++ (codes "m " ++ (decimal secs ++ codes "s"))
    else decimal secs ++ codes "s"

abbrev state_label : Text → Text
state_label state = if text_eq state (codes "monitoring") then codes "running" else state

abbrev field : Text → Text → Bool → BotCommandField
field name value inline = record { name = name; value = value; inline = inline }

abbrev fenced : ℕ → Option Text → Option BotCommandResult
fenced tail none = none
fenced tail (some content) = some (
    with_body (codes "```\n" ++ (content ++ codes "\n```"))
      (success (codes "Last " ++ (decimal tail ++ codes " log lines"))))

abbrev tail_result : ℕ → Result (List Text) Text → Option BotCommandResult
tail_result tail (err e) = some (error (codes "Failed to read logs: " ++ e))
tail_result tail (ok []) = some (success (codes "No log entries found"))
tail_result tail (ok (line ∷ rest)) = fenced tail (truncate_log_lines (line ∷ rest) 1_700)

-- The log file, if it exists, by what reading it gives.
unfoldable pub execute_logs : Option (Result Text Text) → ℕ → Option BotCommandResult
unfolding truncate_log_lines read_log_tail codes decimal
execute_logs none tail = some (error (codes "No log file found"))
execute_logs (some file) tail = tail_result tail (read_log_tail file tail)

unfoldable pub execute_help : BotCommandResult
unfolding codes
execute_help =
    with_body
      (codes
        "Available commands:\n- /palin status\n- /palin pause\n- /palin resume\n- /palin logs [--tail|-t N]\n- /palin new-session\n- /palin help")
      (success (codes "palingenesis bot help"))

abbrev on_control : Text → Result (Unit {0}) ControlError → BotCommandResult
on_control title (ok _) = success title
on_control title (err e) = error e.message

abbrev on_session : Result Text ControlError → BotCommandResult
on_session (ok id) = with_body (codes "Session ID: " ++ id) (success (codes "New session started"))
on_session (err e) = error e.message

pub record Environment : Type 0 where
  pub pid_file : Result ℕ PidError
  pub log_file : Option (Result Text Text)
  pub session_id : Text
  -- `last_event_timestamp`, as RFC 3339.
  pub last_event : Option Text

module _ {F : Type 0} (fl : FloatOps F) (out : Outside F) (env : Environment) where
  abbrev status_fields : StatusResponse → List BotCommandField
  status_fields snapshot =
      field (codes "State") (state_label snapshot.state) true
      ∷ field (codes "Uptime") (format_duration snapshot.stats.uptime_secs) true
      ∷ field (codes "Current session") (get_or snapshot.current_session (codes "None")) false
      ∷ field (codes "Last event") (get_or env.last_event (codes "No events yet")) false
      ∷ []

  unfoldable pub execute_status : DaemonState F → BotCommandResult
  unfolding build_status_snapshot format_duration codes text_eq
  execute_status s =
      with_fields (status_fields (build_status_snapshot fl out env.pid_file s))
        (success (codes "Daemon status"))

  unfoldable pub execute_pause : DaemonState F → BotCommandResult × DaemonState F
  unfolding pause_daemon codes
  execute_pause s =
      let (result, s') = pause_daemon fl out s in
      (on_control (codes "Daemon paused successfully.") result, s')

  unfoldable pub execute_resume : DaemonState F → BotCommandResult × DaemonState F
  unfolding resume_daemon codes
  execute_resume s =
      let (result, s') = resume_daemon fl out s in
      (on_control (codes "Daemon resumed successfully.") result, s')

  unfoldable pub execute_new_session : DaemonState F → BotCommandResult × DaemonState F
  unfolding new_session_daemon codes
  execute_new_session s =
      let (result, s') = new_session_daemon fl out env.session_id s in (on_session result, s')

  abbrev returned : BotCommandResult × DaemonState F → Option BotCommandResult × DaemonState F
  returned (result, s) = (some result, s)

  unfoldable pub execute : BotCommand → DaemonState F → Option BotCommandResult × DaemonState F
  unfolding execute_status execute_pause execute_resume execute_new_session execute_logs
      execute_help
  execute status s = (some (execute_status s), s)
  execute pause s = returned (execute_pause s)
  execute resume s = returned (execute_resume s)
  execute (logs tail) s = (execute_logs env.log_file tail, s)
  execute new_session s = returned (execute_new_session s)
  execute help s = (some execute_help, s)

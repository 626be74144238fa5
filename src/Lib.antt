-- ===== src/Lib.antt =====
-- A model of palingenesis, a daemon that watches AI coding sessions and resumes them when they stop.
--
-- The program. The monitor (src/monitor) watches session files and the assistant's process. When a
-- session stops, the classifier reads the tail of its file and gives a stop reason. The selector
-- (src/resume/selector.rs) maps the reason to a strategy: the same session is resumed after a wait
-- (a rate limit), a new session is started (an exhausted context), or nothing is done. A strategy
-- updates the state file (src/state) and reports to the metrics and to the audit log. The daemon
-- (src/daemon) is controlled over a socket (src/ipc) and by a chat bot (src/bot), and notifies
-- channels (src/notify).
--
-- The files.
-- * Prelude and its children: shared lists, results, machine words, durations (a duration is its
--   nanoseconds), texts (a text is its list of code points), numbers as text, and an interface of
--   floats.
-- * Resume/Backoff (src/resume/backoff.rs): Backoff and its delays.
-- * Resume/Outcome, Resume/Context (src/resume/outcome.rs, error.rs, context.rs).
-- * Resume/Selector (src/resume/selector.rs): `select`.
-- * Resume/Effects (src/resume/time_saved.rs and the state updates): the monad in which a strategy
--   runs. It records the calls of the metrics and of the audit log, the waits and the trigger, with
--   the state file and the generator of the thread; `none` is a panic.
-- * Resume/SameSession (src/resume/same_session.rs): `execute`, one function for each part of it.
-- * Resume/NextStep, Resume/Prompt, Resume/NewSession (src/resume/new_session.rs): the parser of the
--   next-step file, the step and the prompt of a new session, and `execute`.
-- * Resume/Backup (src/resume/backup.rs): `create_backup` and `prune_old_backups` over the directory
--   of the session.
-- * Monitor/Session, Monitor/Frontmatter (src/monitor/session.rs, frontmatter.rs): a session file.
-- * Monitor/Parser (SessionParser of src/monitor/frontmatter.rs), Monitor/Events (src/monitor/
--   events.rs) and Monitor/Core (src/monitor/core.rs): the handlers, and `event_loop` over the list
--   of what the loop receives.
-- * Monitor/Process and its children (src/monitor/process.rs): `run_loop` over what the enumerator
--   lists at each poll, and the enumeration of /proc.
-- * Monitor/Classifier (src/monitor/classifier.rs): Types, the detectors in Detect, `classify` in
--   Classify.
-- * State/Schema (src/state/schema.rs); State/Lock and State/Store (src/state/store.rs): the file lock
--   with its time limit, and loading and saving under any fault of the file system.
-- * State/Audit and its children (src/state/audit.rs): the entries and their builders, the logger with
--   its rotation, and the queries.
-- * Ipc/Protocol, Ipc/Socket (src/ipc/protocol.rs, socket.rs): the commands, and `handle_connection`
--   over the interface DaemonStateAccess; `serve` is a sequence of connections; Ipc/Client
--   (src/ipc/client.rs): the client's side.
-- * Daemon/State (src/daemon/state.rs): DaemonState, and `access`, which implements the interface.
-- * Daemon/Pid (src/daemon/pid.rs): the PID file, with what other processes make of it
--   while it is acquired; Daemon/Shutdown
--   (src/daemon/shutdown.rs): `shutdown`.
-- * Config/Schema, Config/Validation, Config/Check (src/config/schema.rs, validation.rs): the
--   configuration, its defaults and `validate_config`.
-- * Monitor/Watcher (src/monitor/watcher.rs): the buffer and the loop in Watcher, the retries in Retry,
--   the wait for the directory and `run` in Start; Monitor/Detection (src/monitor/detection.rs).
-- * Opencode/Process (src/opencode/process.rs): `poll_once` and `run_loop`.
-- * Mcp/Protocol, Mcp/Server (src/mcp/protocol.rs, server.rs): `process_input` and `run_json_rpc`.
-- * Ipc/Server (src/ipc/socket.rs): the life of the socket; Ipc/Client/Connection
--   (src/ipc/client.rs): the requests of the client, whole.
-- * Daemon/Core (src/daemon/core.rs, src/cli/commands/daemon.rs): `run` and `handle_start`, composed of
--   Daemon/Pid and Ipc/Server.
-- * Cli/Session (src/cli/commands/session.rs): what the commands print; Cli/Config
--   (src/cli/commands/config.rs): the overrides by the environment in Env and Overrides, the file in
--   Default and Files.
-- * Http/Control, Http/Status (src/http/handlers/control.rs, status.rs): the handlers of the control
--   and status routes.
-- * Bot/Auth, Bot/Commands (src/bot/auth.rs, commands.rs): who may give commands, and `from_str`;
--   Bot/Executor (src/bot/executor.rs): `execute`; Bot/Responses (src/bot/commands.rs): the answers.
-- * Notify/Dispatcher, Notify/Events (src/notify/dispatcher.rs, events.rs): `dispatch`, and the events.
-- * Tests and its children: the definitions at concrete inputs.
--
-- How they interact. Monitor/Core calls Monitor/Parser and the classifier; Resume/Selector reads the
-- classifier's reasons; both strategies run in Resume/Effects and share Resume/Steps; Ipc/Socket
-- knows the daemon only by the record DaemonStateAccess, which Daemon/State fills; Http/Control works
-- on the same state, and Bot/Executor calls it. State/Store and Resume/Backup, State/Audit and
-- Daemon/Pid are programs of Prelude/Io: steps on a state, each of which can fail. Daemon/Core is
-- composed of Daemon/Pid and Ipc/Server. Cli/Session reads what Ipc/Client gives, whose other side is
-- Ipc/Socket over Daemon/State.
--
-- Parameters. Floats, the random generator, regular expressions, files, YAML, TOML, JSON, paths,
-- channels, the commands that resume or create a session, backups, cancellation and the debug forms
-- are arguments. Instants are numbers.
--
-- Bounds. A word of w bits keeps its saturation or wrap-around written out. A usize has 64 bits. Three
-- definitions run on fuel: `decimal`, whose fuel is one more than the number it prints, the loop of
-- the file lock, which has two more tries than pauses that fit into the time limit, and the search
-- for session files, whose fuel is the number of directories, of which each round takes one. The
-- loops of the monitors and of the servers run over the list of their inputs.
--
-- Not modelled: the other routes of the HTTP server, the platforms of the bot and of the
-- notifications, the other commands of the command line, the HTTP client of the assistant, the
-- configuration's paths, signals, telemetry, and links in the directories that the detection of
-- assistants searches. Most are I/O around the parts above.
mod Prelude
pub mod Config
pub mod Monitor
pub mod State
pub mod Resume
pub mod Ipc
pub mod Daemon
pub mod Http
pub mod Opencode
pub mod Mcp
pub mod Cli
pub mod Bot
pub mod Notify
mod Tests

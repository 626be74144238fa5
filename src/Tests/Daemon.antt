-- ===== src/Tests/Daemon.antt =====
-- src/daemon/state.rs and src/ipc/socket.rs at a concrete daemon.
use palingenesis.Prelude.{◌+◌, ◌≡◌, refl, true, false, List, [], ◌∷◌, ◌++◌, some, ok, err}
use palingenesis.Prelude.Int.{ℤ}
use palingenesis.Prelude.Text.{Text, codes, text_eq, trim, ascii_upper, to_ascii_lowercase}
use palingenesis.State.Schema.{default_state}
use palingenesis.Ipc.Protocol.{IpcCommand, pause, resume, reload, parse, ok_response, error}
use palingenesis.Ipc.Socket.{serve, handle_command}
use palingenesis.Config.Schema.{Config, default_config}
use palingenesis.Config.Validation
use palingenesis.Config.Validation.{is_valid}
use palingenesis.Daemon.State
use palingenesis.Daemon.State.{
  DaemonState, Outside, access, load_config_from_disk, reload_config, apply_auto_detection,
  get_status, has_name, refresh_auto_detected_assistants, new,
}
use palingenesis.Daemon.State.Commands.{accepted, count, is_pause, is_resume, serve-paused}
use palingenesis.Tests.Floats.{floats}

abbrev below : Text → Text
below name = codes "/run/" ++ name

abbrev pub config : Config ℤ
config = default_config below below

-- A file system in which every path exists and is a file, but for the directory that is watched.
abbrev pub checks : Validation.Outside
checks = record {
  exists = λ path. true;
  is_dir = λ path. text_eq path (below (codes ".opencode"));
  parent = λ path. some (codes "/run");
  to_lowercase = to_ascii_lowercase;
  is_hex = λ s. true;
}

-- A configuration file that cannot be parsed, and an assistant that is running.
abbrev pub outside : Outside ℤ
outside = record {
  config_exists = true;
  read_config = ok (codes "x =");
  parse_config = λ t. err (codes "expected a value");
  in_runtime_dir = below;
  in_home_dir = below;
  config_path = codes "config.toml";
  checks = checks;
  detected = codes "opencode" ∷ [];
  now = 0;
  stats = (default_state floats).stats;
  is_finite = λ x. true;
}

abbrev pub daemon : DaemonState ℤ
daemon = record {
  start_time = 0;
  paused = false;
  sessions_count = 0;
  resumes_count = 4;
  config = config;
  poisoned = false;
  auto_detect_active = true;
}

abbrev pub commands : List IpcCommand
commands = pause ∷ pause ∷ resume ∷ resume ∷ reload ∷ pause ∷ []

answers :
    (serve (access floats outside) commands daemon).0
    ≡ ok_response
      ∷ error (codes "Daemon already paused")
      ∷ ok_response
      ∷ error (codes "Daemon is not paused")
      ∷ error (codes "Failed to parse config file config.toml: expected a value")
      ∷ ok_response
      ∷ []
unfolding serve access State.pause State.resume reload_config load_config_from_disk codes
    handle_command
answers = refl

parsed : parse (codes " new-session\n") ≡ some IpcCommand.new_session
unfolding parse codes text_eq trim ascii_upper
parsed = refl

serve-paused_example :
    count daemon.paused
      + accepted is_pause commands (serve (access floats outside) commands daemon).0
    ≡ count (serve (access floats outside) commands daemon).1.paused
      + accepted is_resume commands (serve (access floats outside) commands daemon).0
serve-paused_example = serve-paused floats outside commands daemon

abbrev message : Text
message = codes "Failed to parse config file config.toml: expected a value"

refused : (reload_config floats outside daemon).0 ≡ err message
unfolding reload_config load_config_from_disk codes
refused = refl

abbrev refreshed : List Text
refreshed = (refresh_auto_detected_assistants floats outside daemon).config.monitoring.assistants

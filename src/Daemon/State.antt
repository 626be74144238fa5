-- ===== src/Daemon/State.antt =====
-- src/daemon/state.rs: the state that the daemon shares with its control interfaces. Parameters:
-- the configuration file and its TOML, the directories, the file system that the validation sees,
-- the detection of assistants, the clock and the number formats. A poisoned lock is a flag. Log
-- lines are left out.
pub mod Commands
pub mod Assistants
pub mod Validity
use palingenesis.Prelude.{
  ℕ, ◌+◌, ◌-◌, ◌%◌, ◌/◌, ◌^◌, max, Bool, true, false, not, ◌||◌, List, [], ◌∷◌, ◌++◌, Option, none,
  some, Result, ok, err, any, if◌then◌else◌,
}
use palingenesis.Prelude.Time.{Duration, from_secs}
use palingenesis.Prelude.Text.{Text, codes, text_eq, is_empty}
use palingenesis.Prelude.Float.{FloatOps}
use palingenesis.Config.Schema.{Config, MonitoringConfig, default_config}
use palingenesis.Config.Validation
use palingenesis.Config.Validation.{is_valid}
use palingenesis.Config.Check.{validate_config}
use palingenesis.State.Schema.{Stats}
use palingenesis.Ipc.Protocol.{DaemonStatus}
use palingenesis.Ipc.Socket.{DaemonStateAccess}

pub record DaemonState (F : Type 0) : Type 0 where
  pub start_time : Duration
  pub paused : Bool
  pub sessions_count : ℕ  -- u64
  pub resumes_count : ℕ  -- u64
  pub config : Config F
  pub poisoned : Bool
  pub auto_detect_active : Bool

pub record Outside (F : Type 0) : Type 0 where
  pub config_exists : Bool
  -- The file's text, or the message of the error.
  pub read_config : Result Text Text
  pub parse_config : Text → Result (Config F) Text
  -- Paths in the runtime directory and in the home directory.
  pub in_runtime_dir : Text → Text
  pub in_home_dir : Text → Text
  pub config_path : Text
  pub checks : Validation.Outside
  -- The names that `detect_assistants` finds.
  pub detected : List Text
  pub now : Duration
  pub stats : Stats F
  pub is_finite : F → Bool

-- `Vec::contains`
abbrev pub has_name : List Text → Text → Bool
has_name names name = any (text_eq name) names

abbrev pub monitor_names : {F : Type 0} → Config F → List Text → Config F
monitor_names c names = record c { monitoring = record c.monitoring { assistants = names } }

-- The loop over the detected names.
unfoldable pub add_names : List Text → List Text → List Text
add_names assistants [] = assistants
add_names assistants (name ∷ names) =
    add_names (if has_name assistants name then assistants else assistants ++ name ∷ []) names

module _ {F : Type 0} (fl : FloatOps F) (out : Outside F) where
  unfoldable pub load_config_from_disk : Result (Config F) Text
  load_config_from_disk =
      if not out.config_exists
      then ok (default_config out.in_runtime_dir out.in_home_dir)
      else elim out.read_config [
        | err e ↦
            err (codes "Failed to read config file " ++ (out.config_path ++ (codes ": " ++ e)))
        | ok contents ↦ elim (out.parse_config contents) [
          | err e ↦
              err (codes "Failed to parse config file " ++ (out.config_path ++ (codes ": " ++ e)))
          | ok config ↦ ok config
        ]
      ]

  -- The configuration with what is detected, and whether detection is on.
  unfoldable pub apply_auto_detection : Config F → Config F × Bool
  apply_auto_detection config =
      if not (is_empty config.monitoring.assistants)
      then (config, false)
      else if not config.monitoring.auto_detect
      then (config, false)
      else if is_empty out.detected
      then (config, true)
      else (monitor_names config out.detected, true)

  abbrev or_default : Result (Config F) Text → Config F
  or_default (ok config) = config
  or_default (err e) = default_config out.in_runtime_dir out.in_home_dir

  abbrev state_of : Config F × Bool → DaemonState F
  state_of (config, active) = record {
    start_time = out.now;
    paused = false;
    sessions_count = 0;
    resumes_count = 0;
    config = config;
    poisoned = false;
    auto_detect_active = active;
  }

  unfoldable pub new : DaemonState F
  new = state_of (apply_auto_detection (or_default load_config_from_disk))

  unfoldable pub new_without_auto_detection : DaemonState F
  new_without_auto_detection = state_of (or_default load_config_from_disk, false)

  unfoldable pub uptime : DaemonState F → Duration
  uptime s = out.now - s.start_time

  unfoldable pub format_time_saved : F → Text
  format_time_saved seconds =
      if not (out.is_finite seconds) || fl.le seconds (fl.of_ℕ 0)
      then codes "0 seconds"
      else if fl.lt seconds (fl.of_ℕ 60)
      then fl.fixed 0 seconds ++ codes " seconds"
      else if fl.lt seconds (fl.of_ℕ 3_600)
      then fl.fixed 1 (fl.div seconds (fl.of_ℕ 60)) ++ codes " minutes"
      else if fl.lt seconds (fl.of_ℕ 86_400)
      then fl.fixed 1 (fl.div seconds (fl.of_ℕ 3_600)) ++ codes " hours"
      else fl.fixed 1 (fl.div seconds (fl.of_ℕ 86_400)) ++ codes " days"

  unfoldable pub get_status : DaemonState F → DaemonStatus F
  get_status s = record {
    state = if s.paused then codes "paused" else codes "monitoring";
    uptime_secs = uptime s / 1_000_000_000;
    current_session = none;
    saves_count = out.stats.saves_count;
    total_resumes = s.resumes_count;
    time_saved_seconds = out.stats.time_saved_seconds;
    time_saved_human = some (format_time_saved out.stats.time_saved_seconds);
  }

  unfoldable pub pause : DaemonState F → Result (Unit {0}) Text × DaemonState F
  pause s =
      (if s.paused then err (codes "Daemon already paused") else ok tt, record s { paused = true })

  -- `fetch_add` wraps around.
  unfoldable pub resume : DaemonState F → Result (Unit {0}) Text × DaemonState F
  resume s =
      if not s.paused
      then (err (codes "Daemon is not paused"), record s { paused = false })
      else (ok tt, record s { paused = false; resumes_count = (s.resumes_count + 1) % 2 ^ 64 })

  unfoldable pub new_session : DaemonState F → Result (Unit {0}) Text × DaemonState F
  new_session s = (ok tt, record s { sessions_count = (s.sessions_count + 1) % 2 ^ 64 })

  abbrev install : Config F × Bool → DaemonState F → DaemonState F
  install (config, active) s = record s { config = config; auto_detect_active = active }

  unfoldable pub reload_config : DaemonState F → Result (Unit {0}) Text × DaemonState F
  reload_config s = elim load_config_from_disk [
    | err e ↦ (err e, s)
    | ok new_config ↦
        if not (is_valid (validate_config fl out.checks new_config))
        then (err (codes "Configuration validation failed"), s)
        else if s.poisoned
        then (err (codes "Config lock poisoned"), s)
        else (ok tt, install (apply_auto_detection new_config) s)
  ]

  unfoldable pub access : DaemonStateAccess F (DaemonState F)
  access = record {
    get_status = get_status;
    pause = pause;
    resume = resume;
    new_session = new_session;
    reload_config = reload_config;
  }

  unfoldable pub auto_detect_interval : DaemonState F → Duration
  auto_detect_interval s =
      if s.poisoned
      then from_secs 300
      else from_secs (max s.config.monitoring.auto_detect_interval_secs 1)

  unfoldable pub refresh_auto_detected_assistants : DaemonState F → DaemonState F
  refresh_auto_detected_assistants s =
      if not s.auto_detect_active || is_empty out.detected || s.poisoned then s else record s {
        config = monitor_names s.config (add_names s.config.monitoring.assistants out.detected);
      }

-- ===== src/Config/Schema.antt =====
-- src/config/schema.rs: the configuration and its defaults. A path is its text, a hash map a list
-- of pairs; the directories that the defaults start from are parameters.
use palingenesis.Prelude.{ℕ, Bool, true, false, List, [], Option, none, some}
use palingenesis.Prelude.Text.{Text, codes}
use palingenesis.Prelude.Float.{FloatOps}

pub record MetricsConfig : Type 0 where
  pub manual_restart_time_seconds : ℕ  -- u64

pub record DaemonConfig : Type 0 where
  pub pid_file : Option Text
  pub socket_path : Option Text
  pub http_enabled : Bool
  pub http_port : ℕ  -- u16
  pub http_bind : Text
  pub log_level : Text
  pub log_file : Option Text

pub record MonitoringConfig : Type 0 where
  pub session_dir : Text
  pub assistants : List Text
  pub auto_detect : Bool
  pub auto_detect_interval_secs : ℕ  -- u64
  pub debounce_ms : ℕ  -- u64
  pub poll_interval_secs : Option ℕ  -- u64

pub record OpenCodeConfig : Type 0 where
  pub enabled : Bool
  pub serve_port : ℕ  -- u16
  pub serve_hostname : Text
  pub auto_restart : Bool
  pub restart_delay_ms : ℕ  -- u64
  pub health_check_interval : ℕ  -- u64

pub record McpConfig : Type 0 where
  pub enabled : Bool
  pub protocol_version : Text
  pub instructions : Option Text

pub record ResumeConfig : Type 0 where
  pub enabled : Bool
  pub base_delay_secs : ℕ  -- u64
  pub max_delay_secs : ℕ  -- u64
  pub max_retries : ℕ  -- u32
  pub jitter : Bool
  pub backup_count : ℕ  -- u32

pub record WebhookConfig : Type 0 where
  pub url : Text
  pub headers : Option (List (Text × Text))

pub record NtfyConfig : Type 0 where
  pub topic : Text
  pub server : Option Text
  pub priority : Option Text

pub record DiscordConfig : Type 0 where
  pub webhook_url : Text

pub record SlackConfig : Type 0 where
  pub webhook_url : Text

pub record NotificationsConfig : Type 0 where
  pub enabled : Bool
  pub webhook : Option WebhookConfig
  pub ntfy : Option NtfyConfig
  pub discord : Option DiscordConfig
  pub slack : Option SlackConfig

pub data BotPlatform : Type 0 where
  discord slack : BotPlatform

pub record AuthorizedUser : Type 0 where
  pub platform : BotPlatform
  pub user_id : Text

pub record BotConfig : Type 0 where
  pub enabled : Bool
  pub allow_all_users : Bool
  pub discord_application_id : Option Text
  pub discord_public_key : Option Text
  pub slack_signing_secret : Option Text
  pub authorized_users : List AuthorizedUser

pub record OtelConfig (F : Type 0) : Type 0 where
  pub enabled : Bool
  pub endpoint : Text
  pub service_name : Text
  pub protocol : Text
  pub sampling_ratio : F
  pub traces : Bool
  pub logs : Bool
  pub metrics : Bool
  pub metrics_enabled : Bool

pub record Config (F : Type 0) : Type 0 where
  pub daemon : DaemonConfig
  pub monitoring : MonitoringConfig
  pub resume : ResumeConfig
  pub notifications : NotificationsConfig
  pub bot : BotConfig
  pub metrics : MetricsConfig
  pub opencode : OpenCodeConfig
  pub mcp : McpConfig
  pub otel : Option (OtelConfig F)

-- `Paths::runtime_dir()` and the home directory, joined with the names below them.
abbrev pub default_daemon : (Text → Text) → DaemonConfig
default_daemon in_runtime_dir = record {
  pid_file = some (in_runtime_dir (codes "palingenesis.pid"));
  socket_path = some (in_runtime_dir (codes "palingenesis.sock"));
  http_enabled = false;
  http_port = 7_654;
  http_bind = codes "127.0.0.1";
  log_level = codes "info";
  log_file = none;
}

abbrev pub default_monitoring : (Text → Text) → MonitoringConfig
default_monitoring in_home_dir = record {
  session_dir = in_home_dir (codes ".opencode");
  assistants = [];
  auto_detect = true;
  auto_detect_interval_secs = 300;
  debounce_ms = 100;
  poll_interval_secs = none;
}

abbrev pub default_opencode : OpenCodeConfig
default_opencode = record {
  enabled = false;
  serve_port = 4_096;
  serve_hostname = codes "localhost";
  auto_restart = true;
  restart_delay_ms = 1_000;
  health_check_interval = 1_000;
}

abbrev pub default_mcp : McpConfig
default_mcp = record { enabled = true; protocol_version = codes "2024-11-05"; instructions = none }

abbrev pub default_resume : ResumeConfig
default_resume = record {
  enabled = true;
  base_delay_secs = 30;
  max_delay_secs = 300;
  max_retries = 10;
  jitter = true;
  backup_count = 10;
}

abbrev pub default_bot : BotConfig
default_bot = record {
  enabled = false;
  allow_all_users = true;
  discord_application_id = none;
  discord_public_key = none;
  slack_signing_secret = none;
  authorized_users = [];
}

abbrev pub default_otel : {F : Type 0} → FloatOps F → OtelConfig F
default_otel fl = record {
  enabled = false;
  endpoint = codes "http://localhost:4317";
  service_name = codes "palingenesis";
  protocol = codes "http";
  sampling_ratio = fl.of_ℕ 1;
  traces = true;
  logs = false;
  metrics = true;
  metrics_enabled = true;
}

abbrev pub default_notifications : NotificationsConfig
default_notifications = record {
  enabled = false;
  webhook = none;
  ntfy = none;
  discord = none;
  slack = none;
}

abbrev pub default_metrics : MetricsConfig
default_metrics = record { manual_restart_time_seconds = 300 }

-- The derived `Default` of the whole.
unfoldable pub default_config : {F : Type 0} → (Text → Text) → (Text → Text) → Config F
default_config in_runtime_dir in_home_dir = record {
  daemon = default_daemon in_runtime_dir;
  monitoring = default_monitoring in_home_dir;
  resume = default_resume;
  notifications = default_notifications;
  bot = default_bot;
  metrics = default_metrics;
  opencode = default_opencode;
  mcp = default_mcp;
  otel = none;
}

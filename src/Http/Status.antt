-- ===== src/Http/Status.antt =====
-- src/http/handlers/status.rs: the report of the daemon's state. What reading the PID file gives is a
-- parameter.
use palingenesis.Prelude.{ℕ, Bool, true, List, Option, Result, to_option, if◌then◌else◌}
use palingenesis.Prelude.Text.{Text}
use palingenesis.Prelude.Float.{FloatOps}
use palingenesis.Config.Schema.{DaemonConfig, MonitoringConfig, default_daemon, default_monitoring}
use palingenesis.Ipc.Protocol.{DaemonStatus}
use palingenesis.Daemon.Pid.{PidError}
use palingenesis.Daemon.State.{DaemonState, Outside, get_status}

pub record StatsResponse : Type 0 where
  pub uptime_secs : ℕ
  pub saves_count : ℕ
  pub total_resumes : ℕ

pub record ConfigSummary : Type 0 where
  pub http_enabled : Bool
  pub http_port : ℕ
  pub auto_detect : Bool
  pub assistants : List Text

pub record StatusResponse : Type 0 where
  pub state : Text
  pub pid : Option ℕ
  pub current_session : Option Text
  pub stats : StatsResponse
  pub config_summary : ConfigSummary

pub record StatusEnvelope : Type 0 where
  pub success : Bool
  pub data_ : StatusResponse

abbrev pub from_configs : DaemonConfig → MonitoringConfig → ConfigSummary
from_configs daemon monitoring = record {
  http_enabled = daemon.http_enabled;
  http_port = daemon.http_port;
  auto_detect = monitoring.auto_detect;
  assistants = monitoring.assistants;
}

abbrev pub stats_from_status : {F : Type 0} → DaemonStatus F → StatsResponse
stats_from_status status = record {
  uptime_secs = status.uptime_secs;
  saves_count = status.saves_count;
  total_resumes = status.total_resumes;
}

abbrev pub response_from_status :
    {F : Type 0} → DaemonStatus F → Option ℕ → ConfigSummary → StatusResponse
response_from_status status pid summary = record {
  state = status.state;
  pid = pid;
  current_session = status.current_session;
  stats = stats_from_status status;
  config_summary = summary;
}

module _ {F : Type 0} (fl : FloatOps F) (out : Outside F) (pid_file : Result ℕ PidError) where
  -- A poisoned lock gives the defaults.
  unfoldable pub build_config_summary : DaemonState F → ConfigSummary
  build_config_summary s =
      if s.poisoned
      then from_configs (default_daemon out.in_runtime_dir) (default_monitoring out.in_home_dir)
      else from_configs s.config.daemon s.config.monitoring

  unfoldable pub build_status_snapshot : DaemonState F → StatusResponse
  unfolding get_status build_config_summary
  build_status_snapshot s =
      response_from_status (get_status fl out s) (to_option pid_file) (build_config_summary s)

  unfoldable pub status_handler : DaemonState F → StatusEnvelope
  unfolding build_status_snapshot
  status_handler s = record { success = true; data_ = build_status_snapshot s }

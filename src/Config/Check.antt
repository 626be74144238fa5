-- ===== src/Config/Check.antt =====
-- src/config/validation.rs: `validate_config`, the checks of a whole configuration.
pub mod Accepted
use palingenesis.Prelude.{
  ℕ, Bool, true, false, not, ◌&&◌, ◌||◌, List, [], ◌∷◌, ◌++◌, Option, none, some, ltb, leb, ◌==◌,
  if◌then◌else◌,
}
use palingenesis.Prelude.Text.{Text, codes, is_empty, trim, to_ascii_lowercase, text_eq}
use palingenesis.Prelude.Number.{decimal}
use palingenesis.Prelude.Float.{FloatOps}
use palingenesis.Config.Schema.{
  Config, DaemonConfig, MonitoringConfig, OpenCodeConfig, ResumeConfig, WebhookConfig, NtfyConfig,
  MetricsConfig, OtelConfig,
}
use palingenesis.Config.Validation.{
  ValidationResult, Outside, nothing, error_if, warn_if, joined, at_least_ms, at_least_second,
  port_range, is_http_url, validate_log_level, validate_opencode_hostname, validate_dir_path,
  validate_file_parent_path, validate_bot_config,
}

abbrev zero_error : ℕ → Text → Text → Text → ValidationResult
zero_error n field message suggestion = error_if (n == 0) field message (some suggestion)

module _ (out : Outside) where
  abbrev pub daemon_reports : DaemonConfig → List ValidationResult → List ValidationResult
  daemon_reports daemon rest =
      validate_log_level out daemon.log_level
      ∷ zero_error daemon.http_port (codes "daemon.http_port")
          (codes "HTTP port must be between 1 and 65535") port_range
      ∷ warn_if (daemon.http_enabled && ltb daemon.http_port 1_024) (codes "daemon.http_port") (
          codes "Port "
          ++ (decimal daemon.http_port ++ codes " requires elevated privileges on most systems"))
      ∷ validate_file_parent_path out (codes "daemon.pid_file") daemon.pid_file
      ∷ validate_file_parent_path out (codes "daemon.socket_path") daemon.socket_path
      ∷ validate_file_parent_path out (codes "daemon.log_file") daemon.log_file
      ∷ rest

  abbrev poll_report : Option ℕ → ValidationResult
  poll_report none = nothing
  poll_report (some poll_interval) =
      zero_error poll_interval (codes "monitoring.poll_interval_secs")
        (codes "Polling interval must be positive") at_least_second

  abbrev pub monitoring_reports : MonitoringConfig → List ValidationResult → List ValidationResult
  monitoring_reports monitoring rest =
      validate_dir_path out (codes "monitoring.session_dir") monitoring.session_dir
      ∷ zero_error monitoring.debounce_ms (codes "monitoring.debounce_ms")
          (codes "Debounce duration must be positive") at_least_ms
      ∷ zero_error monitoring.auto_detect_interval_secs
          (codes "monitoring.auto_detect_interval_secs")
          (codes "Auto-detect interval must be positive") at_least_second
      ∷ poll_report monitoring.poll_interval_secs
      ∷ rest

  abbrev pub opencode_reports : OpenCodeConfig → List ValidationResult → List ValidationResult
  opencode_reports opencode rest =
      zero_error opencode.health_check_interval (codes "opencode.health_check_interval")
        (codes "OpenCode health check interval must be positive") at_least_ms
      ∷ zero_error opencode.restart_delay_ms (codes "opencode.restart_delay_ms")
          (codes "OpenCode restart delay must be positive") at_least_ms
      ∷ zero_error opencode.serve_port (codes "opencode.serve_port")
          (codes "OpenCode serve port must be between 1 and 65535") port_range
      ∷ validate_opencode_hostname out opencode.serve_hostname
      ∷ rest

  abbrev pub resume_reports : ResumeConfig → List ValidationResult → List ValidationResult
  resume_reports resume rest =
      zero_error resume.base_delay_secs (codes "resume.base_delay_secs")
        (codes "Base delay cannot be zero") at_least_second
      ∷ zero_error resume.max_delay_secs (codes "resume.max_delay_secs")
          (codes "Max delay cannot be zero") at_least_second
      ∷ error_if (ltb resume.max_delay_secs resume.base_delay_secs) (codes "resume.max_delay_secs")
          (codes "Max delay cannot be less than base delay") none
      ∷ warn_if (resume.enabled && resume.max_retries == 0) (codes "resume.max_retries")
          (codes "Resume enabled but max_retries is 0 (will never retry)")
      ∷ rest

  abbrev pub webhook_report : Option WebhookConfig → ValidationResult
  webhook_report none = nothing
  webhook_report (some webhook) =
      error_if (not (is_http_url out webhook.url)) (codes "notifications.webhook.url")
        (codes "Webhook URL must start with http:// or https://") none

  abbrev server_report : Option Text → ValidationResult
  server_report none = nothing
  server_report (some server) =
      error_if (not (is_http_url out server)) (codes "notifications.ntfy.server")
        (codes "ntfy server must start with http:// or https://") none

  abbrev pub ntfy_reports : Option NtfyConfig → List ValidationResult → List ValidationResult
  ntfy_reports none rest = rest
  ntfy_reports (some ntfy) rest =
      error_if (is_empty (trim ntfy.topic)) (codes "notifications.ntfy.topic")
        (codes "ntfy topic cannot be empty") none
      ∷ server_report ntfy.server
      ∷ rest

  abbrev endpoint_report : Text → ValidationResult
  endpoint_report endpoint =
      if is_empty endpoint
      then error_if true (codes "otel.endpoint") (codes "OpenTelemetry endpoint cannot be empty")
          none
      else error_if (not (is_http_url out endpoint)) (codes "otel.endpoint")
          (codes "OpenTelemetry endpoint must start with http:// or https://") none

  abbrev pub metrics_report : MetricsConfig → ValidationResult
  metrics_report metrics =
      error_if
        (not (
          leb 60 metrics.manual_restart_time_seconds
          && leb metrics.manual_restart_time_seconds 1_800))
        (codes "metrics.manual_restart_time_seconds")
        (codes "manual restart time must be between 60 and 1800 seconds")
        (some (codes "Set a value between 60 and 1800 seconds"))

  abbrev pub known_protocol : Text → Bool
  known_protocol protocol =
      let lower = to_ascii_lowercase (trim protocol) in
      text_eq lower (codes "grpc") || text_eq lower (codes "http")

module _ {F : Type 0} (fl : FloatOps F) (out : Outside) where
  -- `(0.0..=1.0).contains(&x)`
  abbrev pub is_ratio : F → Bool
  is_ratio x = fl.le (fl.of_ℕ 0) x && fl.le x (fl.of_ℕ 1)

  abbrev pub otel_reports : Option (OtelConfig F) → List ValidationResult → List ValidationResult
  otel_reports none rest = rest
  otel_reports (some otel) rest =
      endpoint_report out (trim otel.endpoint)
      ∷ error_if (not (known_protocol out otel.protocol)) (codes "otel.protocol")
          (codes "OpenTelemetry protocol must be http or grpc")
          (some (codes "Set protocol to http or grpc"))
      ∷ error_if (not (is_ratio otel.sampling_ratio)) (codes "otel.sampling_ratio")
          (codes "OpenTelemetry sampling_ratio must be between 0.0 and 1.0")
          (some (codes "Set sampling_ratio between 0.0 and 1.0"))
      ∷ rest

  unfoldable pub validate_config : Config F → ValidationResult
  unfolding joined
  validate_config config = joined (
      daemon_reports out config.daemon (
        monitoring_reports out config.monitoring (
          opencode_reports out config.opencode (
            resume_reports out config.resume (
              webhook_report out config.notifications.webhook
              ∷ ntfy_reports out config.notifications.ntfy (
                  otel_reports config.otel (
                    metrics_report out config.metrics
                    ∷ validate_bot_config out config.bot
                    ∷ [])))))))

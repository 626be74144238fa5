-- ===== src/Cli/Config/Overrides.antt =====
-- `apply_env_overrides` of src/cli/commands/config.rs: the variables, section by section. What is
-- said of a number that cannot be read, and the reading of a float, are parameters.
use palingenesis.Prelude.{
  ℕ, ◌-◌, ◌^◌, true, false, Option, none, some, List, [], ◌∷◌, ◌++◌, Result, ok, get_or,
  if◌then◌else◌,
}
use palingenesis.Prelude.Io.{◌>>◌}
use palingenesis.Prelude.Words.{max_u32, max_u64}
use palingenesis.Prelude.Text.{Text, codes}
use palingenesis.Prelude.Number.{parse_uint}
use palingenesis.Prelude.Float.{FloatOps}
use palingenesis.Config.Schema.{
  Config, DaemonConfig, MonitoringConfig, OpenCodeConfig, ResumeConfig, NotificationsConfig,
  OtelConfig, default_otel,
}
use palingenesis.Cli.Config.Env.{
  Shown, Step, items, when_set, apply_env, apply_parse_env, apply_bool_env,
}

abbrev pub max_u16 : ℕ
max_u16 = 2 ^ 16 - 1

abbrev pub ntfy_server : Text
ntfy_server = codes "PALINGENESIS_NTFY_SERVER"

abbrev pub ntfy_priority : Text
ntfy_priority = codes "PALINGENESIS_NTFY_PRIORITY"

module _ {F : Type 0} where
  abbrev pub on_config : (Config F → Config F) → Shown F → Shown F
  on_config f s = record s { config = f s.config }

  abbrev pub on_daemon : (DaemonConfig → DaemonConfig) → Shown F → Shown F
  on_daemon f = on_config λ c. record c { daemon = f c.daemon }

  abbrev pub on_monitoring : (MonitoringConfig → MonitoringConfig) → Shown F → Shown F
  on_monitoring f = on_config λ c. record c { monitoring = f c.monitoring }

  abbrev pub on_opencode : (OpenCodeConfig → OpenCodeConfig) → Shown F → Shown F
  on_opencode f = on_config λ c. record c { opencode = f c.opencode }

  abbrev pub on_resume : (ResumeConfig → ResumeConfig) → Shown F → Shown F
  on_resume f = on_config λ c. record c { resume = f c.resume }

  abbrev pub on_notifications : (NotificationsConfig → NotificationsConfig) → Shown F → Shown F
  on_notifications f = on_config λ c. record c { notifications = f c.notifications }

  -- The copy of the section, with its defaults if there is none.
  abbrev pub on_otel : FloatOps F → (OtelConfig F → OtelConfig F) → Shown F → Shown F
  on_otel fl f s = record s {
    otel_config = some (f (get_or s.otel_config (default_otel fl)));
    otel_override = true;
  }

module _ {F : Type 0} (fl : FloatOps F) (env : Text → Option Text) (why : Text → Text)
    (parse_float : Text → Option F) where
  -- An integer of a type with this greatest value.
  abbrev pub apply_uint_env : ℕ → Text → (ℕ → Shown F → Shown F) → Step F
  apply_uint_env most key set =
      apply_parse_env env (parse_uint most) (λ value. key ++ codes " is invalid: " ++ why value) key
        set

  -- The calls one after the other, up to the first that fails.
  unfoldable pub all_of : List (Step F) → Step F
  all_of [] s = (ok tt, s)
  all_of (step ∷ steps) s = (step >> all_of steps) s

  unfoldable pub daemon_overrides : List (Step F)
  daemon_overrides =
      (apply_env env (codes "PALINGENESIS_LOG_LEVEL")
        λ v. on_daemon λ d. record d { log_level = v })
      ∷ (apply_bool_env env (codes "PALINGENESIS_HTTP_ENABLED")
          λ b. on_daemon λ d. record d { http_enabled = b })
      ∷ (apply_uint_env max_u16 (codes "PALINGENESIS_HTTP_PORT")
          λ n. on_daemon λ d. record d { http_port = n })
      ∷ (apply_env env (codes "PALINGENESIS_HTTP_BIND")
          λ v. on_daemon λ d. record d { http_bind = v })
      ∷ (apply_env env (codes "PALINGENESIS_PID_FILE")
          λ v. on_daemon λ d. record d { pid_file = some v })
      ∷ (apply_env env (codes "PALINGENESIS_SOCKET_PATH")
          λ v. on_daemon λ d. record d { socket_path = some v })
      ∷ (apply_env env (codes "PALINGENESIS_LOG_FILE")
          λ v. on_daemon λ d. record d { log_file = some v })
      ∷ []

  unfoldable pub monitoring_overrides : List (Step F)
  monitoring_overrides =
      (apply_env env (codes "PALINGENESIS_SESSION_DIR")
        λ v. on_monitoring λ m. record m { session_dir = v })
      ∷ (apply_env env (codes "PALINGENESIS_ASSISTANTS")
          λ v. on_monitoring λ m. record m { assistants = items v })
      ∷ (apply_bool_env env (codes "PALINGENESIS_AUTO_DETECT")
          λ b. on_monitoring λ m. record m { auto_detect = b })
      ∷ (apply_uint_env max_u64 (codes "PALINGENESIS_DEBOUNCE_MS")
          λ n. on_monitoring λ m. record m { debounce_ms = n })
      ∷ (apply_uint_env max_u64 (codes "PALINGENESIS_POLL_INTERVAL_SECS")
          λ n. on_monitoring λ m. record m { poll_interval_secs = some n })
      ∷ []

  unfoldable pub opencode_overrides : List (Step F)
  opencode_overrides =
      (apply_bool_env env (codes "PALINGENESIS_OPENCODE_ENABLED")
        λ b. on_opencode λ o. record o { enabled = b })
      ∷ (apply_uint_env max_u16 (codes "PALINGENESIS_OPENCODE_SERVE_PORT")
          λ n. on_opencode λ o. record o { serve_port = n })
      ∷ (apply_env env (codes "PALINGENESIS_OPENCODE_SERVE_HOSTNAME")
          λ v. on_opencode λ o. record o { serve_hostname = v })
      ∷ (apply_bool_env env (codes "PALINGENESIS_OPENCODE_AUTO_RESTART")
          λ b. on_opencode λ o. record o { auto_restart = b })
      ∷ (apply_uint_env max_u64 (codes "PALINGENESIS_OPENCODE_RESTART_DELAY_MS")
          λ n. on_opencode λ o. record o { restart_delay_ms = n })
      ∷ (apply_uint_env max_u64 (codes "PALINGENESIS_OPENCODE_HEALTH_CHECK_INTERVAL")
          λ n. on_opencode λ o. record o { health_check_interval = n })
      ∷ []

  unfoldable pub resume_overrides : List (Step F)
  resume_overrides =
      (apply_bool_env env (codes "PALINGENESIS_RESUME_ENABLED")
        λ b. on_resume λ r. record r { enabled = b })
      ∷ (apply_uint_env max_u64 (codes "PALINGENESIS_RESUME_BASE_DELAY_SECS")
          λ n. on_resume λ r. record r { base_delay_secs = n })
      ∷ (apply_uint_env max_u64 (codes "PALINGENESIS_RESUME_MAX_DELAY_SECS")
          λ n. on_resume λ r. record r { max_delay_secs = n })
      ∷ (apply_uint_env max_u32 (codes "PALINGENESIS_RESUME_MAX_RETRIES")
          λ n. on_resume λ r. record r { max_retries = n })
      ∷ (apply_bool_env env (codes "PALINGENESIS_RESUME_JITTER")
          λ b. on_resume λ r. record r { jitter = b })
      ∷ (apply_uint_env max_u32 (codes "PALINGENESIS_RESUME_BACKUP_COUNT")
          λ n. on_resume λ r. record r { backup_count = n })
      ∷ []

  -- A variable that is only read, with its value pushed.
  abbrev pub push_env : Text → Step F
  push_env key = apply_env env key (λ v s. s)

  -- The server and the priority are looked at only if there is a topic.
  unfoldable pub apply_ntfy : Text → List (Step F)
  apply_ntfy topic =
      (push_env ntfy_server)
      ∷ (push_env ntfy_priority)
      ∷ (apply_env env (codes "PALINGENESIS_NTFY_TOPIC") λ v. on_notifications λ n. record n {
        ntfy = some (record { topic = v; server = env ntfy_server; priority = env ntfy_priority });
        enabled = true;
      })
      ∷ []

  unfoldable pub notification_overrides : List (Step F)
  notification_overrides =
      (apply_bool_env env (codes "PALINGENESIS_NOTIFICATIONS_ENABLED")
        λ b. on_notifications λ n. record n { enabled = b })
      ∷ (apply_env env (codes "PALINGENESIS_WEBHOOK_URL") λ v.
          on_notifications
            λ n. record n { webhook = some (record { url = v; headers = none }); enabled = true })
      ∷ (when_set env (env (codes "PALINGENESIS_NTFY_TOPIC")) λ topic. all_of (apply_ntfy topic))
      ∷ (apply_env env (codes "PALINGENESIS_DISCORD_WEBHOOK_URL") λ v.
          on_notifications
            λ n. record n { discord = some (record { webhook_url = v }); enabled = true })
      ∷ (apply_env env (codes "PALINGENESIS_SLACK_WEBHOOK_URL") λ v.
          on_notifications
            λ n. record n { slack = some (record { webhook_url = v }); enabled = true })
      ∷ []

  unfoldable pub otel_overrides : List (Step F)
  otel_overrides =
      (apply_bool_env env (codes "PALINGENESIS_OTEL_ENABLED")
        λ b. on_otel fl λ o. record o { enabled = b })
      ∷ (apply_env env (codes "PALINGENESIS_OTEL_ENDPOINT")
          λ v. on_otel fl λ o. record o { endpoint = v })
      ∷ (apply_env env (codes "PALINGENESIS_OTEL_SERVICE_NAME")
          λ v. on_otel fl λ o. record o { service_name = v })
      ∷ (apply_bool_env env (codes "PALINGENESIS_OTEL_TRACES")
          λ b. on_otel fl λ o. record o { traces = b })
      ∷ (apply_bool_env env (codes "PALINGENESIS_OTEL_METRICS")
          λ b. on_otel fl λ o. record o { metrics = b })
      ∷ (apply_bool_env env (codes "PALINGENESIS_OTEL_METRICS_ENABLED")
          λ b. on_otel fl λ o. record o { metrics_enabled = b })
      ∷ (apply_env env (codes "PALINGENESIS_OTEL_PROTOCOL")
          λ v. on_otel fl λ o. record o { protocol = v })
      ∷ (apply_parse_env env parse_float
          (λ value. codes "PALINGENESIS_OTEL_SAMPLING_RATIO must be a float")
          (codes "PALINGENESIS_OTEL_SAMPLING_RATIO")
          λ r. on_otel fl λ o. record o { sampling_ratio = r })
      ∷ []

  abbrev pub put_back : Step F
  put_back s =
      (ok tt, if s.otel_override then on_config (λ c. record c { otel = s.otel_config }) s else s)

  abbrev pub start : Config F → Shown F
  start config = record {
    config = config;
    overrides = [];
    otel_config = config.otel;
    otel_override = false;
  }

  unfoldable pub sections : List (Step F)
  sections =
      all_of daemon_overrides
      ∷ all_of monitoring_overrides
      ∷ all_of opencode_overrides
      ∷ all_of resume_overrides
      ∷ all_of notification_overrides
      ∷ all_of otel_overrides
      ∷ put_back
      ∷ []

  unfoldable pub apply_env_overrides : Config F → Result (Unit {0}) Text × Shown F
  unfolding all_of sections
  apply_env_overrides config = all_of sections (start config)

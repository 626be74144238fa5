-- ===== src/Cli/Config/Default.antt =====
-- The file that src/cli/commands/config.rs writes at first, line by line.
use palingenesis.Prelude.{List, [], ◌∷◌}
use palingenesis.Prelude.Text.{Text, codes, join}

unfoldable pub default_lines : List Text
default_lines =
    codes "# palingenesis configuration file"
    ∷ codes "# https://github.com/Jack-R-Hong/palingenesis"
    ∷ []
    ∷ codes "# Daemon process configuration"
    ∷ codes "[daemon]"
    ∷ codes "# Log level: trace, debug, info, warn, error"
    ∷ codes "log_level = \"info\""
    ∷ codes "# Enable HTTP control API (default: disabled)"
    ∷ codes "http_enabled = false"
    ∷ codes "# HTTP server port (when enabled)"
    ∷ codes "http_port = 7654"
    ∷ codes "# HTTP server bind address"
    ∷ codes "http_bind = \"127.0.0.1\""
    ∷ codes "# Optional: Custom PID file path (uses platform default if not set)"
    ∷ codes "# pid_file = \"/run/user/1000/palingenesis/palingenesis.pid\""
    ∷ codes "# Optional: Custom socket path (uses platform default if not set)"
    ∷ codes "# socket_path = \"/run/user/1000/palingenesis/palingenesis.sock\""
    ∷ codes "# Optional: Log to file instead of stderr"
    ∷ codes "# log_file = \"/path/to/daemon.log\""
    ∷ []
    ∷ codes "# Session monitoring configuration"
    ∷ codes "[monitoring]"
    ∷ codes "# Auto-detect running AI assistants"
    ∷ codes "auto_detect = true"
    ∷ codes "# Auto-detect re-scan interval (seconds)"
    ∷ codes "auto_detect_interval_secs = 300"
    ∷ codes "# Explicit list of assistants to monitor (optional)"
    ∷ codes "# assistants = [\"opencode\"]"
    ∷ codes "# Debounce time for file events (milliseconds)"
    ∷ codes "debounce_ms = 100"
    ∷ codes "# Optional: Session directory override"
    ∷ codes "# session_dir = \"~/.opencode\""
    ∷ codes "# Optional: Polling interval fallback (seconds)"
    ∷ codes "# poll_interval_secs = 5"
    ∷ []
    ∷ codes "# OpenCode process monitoring configuration"
    ∷ codes "[opencode]"
    ∷ codes "# Enable OpenCode process monitoring"
    ∷ codes "enabled = false"
    ∷ codes "# OpenCode serve port"
    ∷ codes "serve_port = 4096"
    ∷ codes "# OpenCode serve hostname"
    ∷ codes "serve_hostname = \"localhost\""
    ∷ codes "# Automatically restart OpenCode on crash"
    ∷ codes "auto_restart = true"
    ∷ codes "# Delay before restart (milliseconds)"
    ∷ codes "restart_delay_ms = 1000"
    ∷ codes "# Health check interval (milliseconds)"
    ∷ codes "health_check_interval = 1000"
    ∷ []
    ∷ codes "# MCP server configuration"
    ∷ codes "[mcp]"
    ∷ codes "# Enable MCP server support"
    ∷ codes "enabled = true"
    ∷ codes "# MCP protocol version to advertise"
    ∷ codes "protocol_version = \"2024-11-05\""
    ∷ codes "# Optional MCP instructions for clients"
    ∷ codes "# instructions = \"palingenesis MCP server\""
    ∷ []
    ∷ codes "# Resume strategy configuration"
    ∷ codes "[resume]"
    ∷ codes "# Enable automatic session resume"
    ∷ codes "enabled = true"
    ∷ codes "# Base delay for exponential backoff (seconds)"
    ∷ codes "base_delay_secs = 30"
    ∷ codes "# Maximum delay cap (seconds)"
    ∷ codes "max_delay_secs = 300"
    ∷ codes "# Maximum retry attempts before giving up"
    ∷ codes "max_retries = 10"
    ∷ codes "# Add random jitter to delays"
    ∷ codes "jitter = true"
    ∷ codes "# Number of session backups to keep"
    ∷ codes "backup_count = 10"
    ∷ []
    ∷ codes "# Notification configuration (all optional)"
    ∷ codes "[notifications]"
    ∷ codes "# Enable notifications globally"
    ∷ codes "enabled = false"
    ∷ []
    ∷ codes "# Webhook notifications"
    ∷ codes "# [notifications.webhook]"
    ∷ codes "# url = \"https://your-webhook.example.com/hook\""
    ∷ codes "# headers = { \"Authorization\" = \"Bearer token\" }"
    ∷ []
    ∷ codes "# ntfy.sh notifications"
    ∷ codes "# [notifications.ntfy]"
    ∷ codes "# topic = \"your-topic\""
    ∷ codes "# server = \"https://ntfy.sh\"  # optional, default is ntfy.sh"
    ∷ codes "# priority = \"default\"  # min, low, default, high, max"
    ∷ []
    ∷ codes "# Discord notifications"
    ∷ codes "# [notifications.discord]"
    ∷ codes "# webhook_url = \"https://discord.com/api/webhooks/...\""
    ∷ []
    ∷ codes "# Slack notifications"
    ∷ codes "# [notifications.slack]"
    ∷ codes "# webhook_url = \"https://hooks.slack.com/services/...\""
    ∷ []
    ∷ codes "# OpenTelemetry configuration (optional, for observability)"
    ∷ codes "# [otel]"
    ∷ codes "# enabled = false"
    ∷ codes "# endpoint = \"http://localhost:4317\""
    ∷ codes "# service_name = \"palingenesis\""
    ∷ codes "# protocol = \"http\"  # http or grpc"
    ∷ codes "# sampling_ratio = 1.0"
    ∷ codes "# traces = true"
    ∷ codes "# logs = false"
    ∷ codes "# metrics = true"
    ∷ codes "# metrics_enabled = true"
    ∷ []
    ∷ []

unfoldable pub generate_default_config_toml : Text
unfolding codes join default_lines
generate_default_config_toml = join (codes "\n") default_lines

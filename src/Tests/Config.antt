-- ===== src/Tests/Config.antt =====
-- src/config/validation.rs at the default configuration, and a daemon that runs with it.
use palingenesis.Prelude.{◌≡◌, ◌∙◌, refl, true, false}
use palingenesis.Prelude.Int.{ℤ}
use palingenesis.Prelude.Text.{codes, text_eq, trim, is_whitespace, ascii_lower, contains}
use palingenesis.Config.Schema.{Config, default_config, default_resume}
use palingenesis.Config.Validation.{is_valid}
use palingenesis.Config.Check.{validate_config}
use palingenesis.Config.Check.Accepted.{config_ok, is_valid-validate_config}
use palingenesis.Ipc.Socket.{serve}
use palingenesis.Daemon.State.{access, refresh_auto_detected_assistants}
use palingenesis.Daemon.State.Validity.{RunsValid, serve-RunsValid}
use palingenesis.Tests.Floats.{floats}
use palingenesis.Tests.Daemon.{config, checks, daemon, outside, commands}

accepted : config_ok floats checks config ≡ true
unfolding default_config codes text_eq trim is_whitespace ascii_lower contains
accepted = refl

-- A maximum delay below the base delay is refused.
abbrev backwards : Config ℤ
backwards = record config { resume = record default_resume { max_delay_secs = 20 } }

refused : config_ok floats checks backwards ≡ false
unfolding default_config codes text_eq trim is_whitespace ascii_lower contains
refused = refl

is_valid-validate_config_example :
    is_valid (validate_config floats checks backwards) ≡ config_ok floats checks backwards
is_valid-validate_config_example = is_valid-validate_config floats checks backwards

runs : RunsValid floats outside daemon
runs = is_valid-validate_config floats checks config ∙ accepted

serve-RunsValid_example : RunsValid floats outside (
    refresh_auto_detected_assistants floats outside
      (serve (access floats outside) commands daemon).1)
serve-RunsValid_example = serve-RunsValid floats outside commands daemon runs

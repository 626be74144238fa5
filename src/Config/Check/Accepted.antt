-- ===== src/Config/Check/Accepted.antt =====
-- What `validate_config` of src/config/validation.rs accepts.
use palingenesis.Prelude.{
  ℕ, suc, ◌≡◌, ◌∙◌, refl, ap, Bool, true, false, not, ◌&&◌, ◌||◌, List, [], ◌∷◌, ◌++◌, Option, none,
  some, all, any, ltb, leb, ◌==◌, if◌then◌else◌, is_some, arith, inl, inr, Bool-cases,
}
use palingenesis.Prelude.Text.{utf8_len, Text, codes, is_empty, trim, text_eq}
use palingenesis.Prelude.Float.{FloatOps}
use palingenesis.Config.Schema.{
  Config, DaemonConfig, MonitoringConfig, OpenCodeConfig, ResumeConfig, WebhookConfig, NtfyConfig,
  BotConfig, AuthorizedUser, MetricsConfig, OtelConfig,
}
use palingenesis.Config.Validation.{
  ValidationResult, ValidationError, Outside, joined, is_valid, is_http_url, bad_hostname,
  log_levels, validate_log_level, validate_opencode_hostname, validate_dir_path,
  validate_file_parent_path, validate_bot_config, discord_key, slack_secret, user_reports,
}
use palingenesis.Config.Check.{
  known_protocol, is_ratio, validate_config, daemon_reports, monitoring_reports, opencode_reports,
  resume_reports, webhook_report, ntfy_reports, otel_reports, metrics_report,
}

abbrev pub non_blank : Text → Bool
non_blank s = not (is_empty (trim s))

-- A test of a value that need not be there.
abbrev pub if_given {ℓ} : {A : Type ℓ} → (A → Bool) → Option A → Bool
if_given test none = true
if_given test (some a) = test a

abbrev pub positive : ℕ → Bool
positive n = ltb 0 n

-- The description of what is accepted, section by section.
module _ (out : Outside) where
  abbrev pub file_ok : Text → Bool
  file_ok path = not (out.exists path && out.is_dir path) && is_some (out.parent path)

  abbrev pub dir_ok : Text → Bool
  dir_ok path =
      if out.exists path
      then out.is_dir path
      else elim (out.parent path) [ none ↦ false | some parent ↦ out.exists parent ]

  abbrev pub daemon_ok : DaemonConfig → Bool
  daemon_ok daemon =
      any (λ value. text_eq value (out.to_lowercase (trim daemon.log_level))) log_levels
      && (positive daemon.http_port
          && (if_given file_ok daemon.pid_file
              && (if_given file_ok daemon.socket_path && if_given file_ok daemon.log_file)))

  abbrev pub monitoring_ok : MonitoringConfig → Bool
  monitoring_ok monitoring =
      dir_ok monitoring.session_dir
      && (positive monitoring.debounce_ms
          && (positive monitoring.auto_detect_interval_secs
              && if_given positive monitoring.poll_interval_secs))

  abbrev pub opencode_ok : OpenCodeConfig → Bool
  opencode_ok opencode =
      positive opencode.health_check_interval
      && (positive opencode.restart_delay_ms
          && (positive opencode.serve_port
              && (non_blank opencode.serve_hostname
                  && not (bad_hostname out (trim opencode.serve_hostname)))))

  abbrev pub resume_ok : ResumeConfig → Bool
  resume_ok resume =
      positive resume.base_delay_secs && leb resume.base_delay_secs resume.max_delay_secs

  abbrev pub ntfy_ok : NtfyConfig → Bool
  ntfy_ok ntfy = non_blank ntfy.topic && if_given (is_http_url out) ntfy.server

  abbrev pub key_ok : Text → Bool
  key_ok key = utf8_len (trim key) == 64 && out.is_hex (trim key)

  abbrev pub bot_ok : BotConfig → Bool
  bot_ok bot =
      not bot.enabled
      || (is_some bot.discord_public_key || is_some bot.slack_signing_secret)
        && (if_given key_ok bot.discord_public_key
            && (if_given non_blank bot.slack_signing_secret
                && all (λ user. non_blank user.user_id) bot.authorized_users))

  abbrev pub metrics_ok : MetricsConfig → Bool
  metrics_ok metrics =
      leb 60 metrics.manual_restart_time_seconds && leb metrics.manual_restart_time_seconds 1_800

is_empty-append :
    (xs ys : List ValidationError) → is_empty (xs ++ ys) ≡ (is_empty xs && is_empty ys)
is_empty-append [] ys = refl
is_empty-append (x ∷ xs) ys = refl

and_true : (b : Bool) → (b && true) ≡ b
and_true true = refl
and_true false = refl

is_valid-joined : (rs : List ValidationResult) → is_valid (joined rs) ≡ all is_valid rs
unfolding is_valid joined
is_valid-joined [] = refl
is_valid-joined (r ∷ rs) =
    is_empty-append r.errors (joined rs).errors ∙ ap (λ b. is_valid r && b) (is_valid-joined rs)

module _ (out : Outside) where
  valid_file :
      (field : Text) (path : Option Text)
      → is_valid (validate_file_parent_path out field path) ≡ if_given (file_ok out) path
  unfolding validate_file_parent_path is_valid
  valid_file field none = refl
  valid_file field (some path) = ground arith

  valid_dir : (field path : Text) → is_valid (validate_dir_path out field path) ≡ dir_ok out path
  unfolding validate_dir_path is_valid
  valid_dir field path = ground arith

  valid_daemon :
      (daemon : DaemonConfig) (rest : List ValidationResult)
      → all is_valid (daemon_reports out daemon rest) ≡ (daemon_ok out daemon && all is_valid rest)
  unfolding validate_log_level is_valid
  valid_daemon daemon rest =
      rw
        (
          valid_file (codes "daemon.pid_file") daemon.pid_file,
          valid_file (codes "daemon.socket_path") daemon.socket_path,
          valid_file (codes "daemon.log_file") daemon.log_file,
        )
        (ground arith)

  valid_monitoring :
      (monitoring : MonitoringConfig) (rest : List ValidationResult)
      → all is_valid (monitoring_reports out monitoring rest)
        ≡ (monitoring_ok out monitoring && all is_valid rest)
  unfolding is_valid
  valid_monitoring monitoring rest =
      rw (valid_dir (codes "monitoring.session_dir") monitoring.session_dir) (ground arith)

  valid_opencode :
      (opencode : OpenCodeConfig) (rest : List ValidationResult)
      → all is_valid (opencode_reports out opencode rest)
        ≡ (opencode_ok out opencode && all is_valid rest)
  unfolding is_valid validate_opencode_hostname
  valid_opencode opencode rest = ground arith

  valid_resume :
      (resume : ResumeConfig) (rest : List ValidationResult)
      → all is_valid (resume_reports out resume rest) ≡ (resume_ok out resume && all is_valid rest)
  unfolding is_valid
  valid_resume resume rest = ground arith

  valid_ntfy :
      (ntfy : Option NtfyConfig) (rest : List ValidationResult)
      → all is_valid (ntfy_reports out ntfy rest)
        ≡ (if_given (ntfy_ok out) ntfy && all is_valid rest)
  unfolding is_valid
  valid_ntfy none rest = refl
  valid_ntfy (some ntfy) rest = ground arith

  valid_users :
      (index : ℕ) (users : List AuthorizedUser)
      → all is_valid (user_reports out index users) ≡ all (λ user. non_blank user.user_id) users
  unfolding is_valid
  valid_users index [] = refl
  valid_users index (user ∷ users) = ground (arith, valid_users (suc index) users)

  blank_key : (s : Text) → is_empty s ≡ true → (utf8_len s == 64) ≡ false
  blank_key [] h = refl
  blank_key (c ∷ s) h = cc

  valid_key : (key : Option Text) → is_valid (discord_key out key) ≡ if_given (key_ok out) key
  unfolding is_valid
  valid_key none = refl
  valid_key (some key) = ground (arith, blank_key (trim key))

  valid_secret :
      (secret : Option Text) → is_valid (slack_secret out secret) ≡ if_given non_blank secret
  unfolding is_valid
  valid_secret none = refl
  valid_secret (some secret) = ground arith

  valid_bot : (bot : BotConfig) → is_valid (validate_bot_config out bot) ≡ bot_ok out bot
  unfolding validate_bot_config
  valid_bot bot = elim (Bool-cases bot.enabled) [
    | inr off ↦ rw off (unfold is_valid in refl)
    | inl on ↦
        rw
          (
            on,
            is_valid-joined _,
            valid_key bot.discord_public_key,
            valid_secret bot.slack_signing_secret,
            valid_users 0 bot.authorized_users,
          )
          (unfold is_valid in ground arith)
  ]

module _ {F : Type 0} (fl : FloatOps F) (out : Outside) where
  abbrev pub otel_ok : OtelConfig F → Bool
  otel_ok otel =
      non_blank otel.endpoint
      && (is_http_url out (trim otel.endpoint)
          && (known_protocol out otel.protocol && is_ratio fl out otel.sampling_ratio))

  abbrev pub config_ok : Config F → Bool
  config_ok config =
      daemon_ok out config.daemon
      && (monitoring_ok out config.monitoring
          && (opencode_ok out config.opencode
              && (resume_ok out config.resume
                  && (if_given (λ w. is_http_url out w.url) config.notifications.webhook
                      && (if_given (ntfy_ok out) config.notifications.ntfy
                          && (if_given otel_ok config.otel
                              && (metrics_ok out config.metrics && bot_ok out config.bot)))))))

  valid_otel :
      (otel : Option (OtelConfig F)) (rest : List ValidationResult)
      → all is_valid (otel_reports fl out otel rest) ≡ (if_given otel_ok otel && all is_valid rest)
  unfolding is_valid
  valid_otel none rest = refl
  valid_otel (some otel) rest = ground arith

  valid_webhook :
      (webhook : Option WebhookConfig)
      → is_valid (webhook_report out webhook) ≡ if_given (λ w. is_http_url out w.url) webhook
  unfolding is_valid
  valid_webhook none = refl
  valid_webhook (some webhook) = ground arith

  valid_metrics :
      (metrics : MetricsConfig) → is_valid (metrics_report out metrics) ≡ metrics_ok out metrics
  unfolding is_valid
  valid_metrics metrics = ground arith

  -- A configuration is valid exactly when every section is as `config_ok` describes it: warnings
  -- never make it invalid, and no check hides another.
  pub is_valid-validate_config :
      (config : Config F) → is_valid (validate_config fl out config) ≡ config_ok config
  unfolding validate_config
  is_valid-validate_config config =
      rw
        (
          is_valid-joined _,
          valid_daemon out config.daemon _,
          valid_monitoring out config.monitoring _,
          valid_opencode out config.opencode _,
          valid_resume out config.resume _,
          valid_webhook config.notifications.webhook,
          valid_ntfy out config.notifications.ntfy _,
          valid_otel config.otel _,
          valid_metrics config.metrics,
          valid_bot out config.bot,
          and_true (bot_ok out config.bot),
        )
        refl

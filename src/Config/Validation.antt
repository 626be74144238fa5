-- ===== src/Config/Validation.antt =====
-- src/config/validation.rs: the checks of a configuration. What is pushed onto the two vectors is a
-- report; the checks' reports are joined in the order of the code. The file system, the full
-- Unicode lower case and the decoding of hexadecimal text are parameters.
use palingenesis.Prelude.{
  ℕ, suc, Bool, true, false, not, ◌&&◌, ◌||◌, List, [], ◌∷◌, ◌++◌, map, Option, none, some, any,
  ◌==◌, if◌then◌else◌,
}
use palingenesis.Prelude.Text.{
  utf8_len, Text, codes, is_empty, is_whitespace, trim, text_eq, starts_with, contains, join,
}
use palingenesis.Prelude.Number.{decimal}
use palingenesis.Config.Schema.{BotConfig, AuthorizedUser}

pub record ValidationError : Type 0 where
  pub field : Text
  pub message : Text
  pub suggestion : Option Text

pub record ValidationWarning : Type 0 where
  pub field : Text
  pub message : Text

pub record ValidationResult : Type 0 where
  pub errors : List ValidationError
  pub warnings : List ValidationWarning

unfoldable pub is_valid : ValidationResult → Bool
is_valid result = is_empty result.errors

-- What the checks ask of the file system, and of text.
pub record Outside : Type 0 where
  pub exists : Text → Bool
  pub is_dir : Text → Bool
  pub parent : Text → Option Text
  pub to_lowercase : Text → Text
  -- `hex::decode(…).is_ok()`
  pub is_hex : Text → Bool

abbrev pub nothing : ValidationResult
nothing = record { errors = []; warnings = [] }

-- `errors.push(…)`, `warnings.push(…)` on a condition.
abbrev pub error_if : Bool → Text → Text → Option Text → ValidationResult
error_if true field message suggestion = record {
  errors = record { field = field; message = message; suggestion = suggestion } ∷ [];
  warnings = [];
}
error_if false field message suggestion = nothing

abbrev pub warn_if : Bool → Text → Text → ValidationResult
warn_if true field message = record {
  errors = [];
  warnings = record { field = field; message = message } ∷ [];
}
warn_if false field message = nothing

unfoldable pub joined : List ValidationResult → ValidationResult
joined [] = nothing
joined (report ∷ rest) =
    let later = joined rest in
    record { errors = report.errors ++ later.errors; warnings = report.warnings ++ later.warnings }

abbrev pub log_levels : List Text
log_levels = map codes ("trace" ∷ "debug" ∷ "info" ∷ "warn" ∷ "error" ∷ [])

abbrev zero_error : ℕ → Text → Text → Text → ValidationResult
zero_error n field message suggestion = error_if (n == 0) field message (some suggestion)

abbrev pub at_least_ms : Text
at_least_ms = codes "Use a value of at least 1 ms"

abbrev pub at_least_second : Text
at_least_second = codes "Use a value of at least 1 second"

abbrev pub port_range : Text
port_range = codes "Use a port between 1 and 65535"

abbrev pub host_hint : Text
host_hint = codes "Use a hostname like localhost or 0.0.0.0"

module _ (out : Outside) where
  abbrev pub is_http_url : Text → Bool
  is_http_url value =
      let lower = out.to_lowercase (trim value) in
      starts_with lower (codes "http://") || starts_with lower (codes "https://")

  unfoldable pub validate_log_level : Text → ValidationResult
  validate_log_level level =
      let lower = out.to_lowercase (trim level) in
      error_if (not (any (λ value. text_eq value lower) log_levels)) (codes "daemon.log_level")
        (codes "Invalid log level: " ++ lower)
        (some (codes "Valid levels: " ++ join (codes ", ") log_levels))

  abbrev pub bad_hostname : Text → Bool
  bad_hostname trimmed =
      any is_whitespace trimmed || contains trimmed (codes "//") || contains trimmed (codes "/")

  unfoldable pub validate_opencode_hostname : Text → ValidationResult
  validate_opencode_hostname hostname =
      let trimmed = trim hostname in
      let field = codes "opencode.serve_hostname" in
      if is_empty trimmed
      then error_if true field (codes "OpenCode hostname cannot be empty") (some host_hint)
      else error_if (bad_hostname trimmed) field
          (codes "OpenCode hostname must be a hostname without scheme or path") (some host_hint)

  abbrev dir_by_parent : Text → Text → Option Text → ValidationResult
  dir_by_parent field path none =
      error_if true field (codes "Invalid directory path")
        (some (codes "Update the path to a valid directory"))
  dir_by_parent field path (some parent) =
      if out.exists parent
      then warn_if true field (codes "Directory does not exist yet but can be created: " ++ path)
      else error_if true field (codes "Parent directory does not exist: " ++ parent)
          (some (codes "Create the parent directory or update the path"))

  unfoldable pub validate_dir_path : Text → Text → ValidationResult
  validate_dir_path field path =
      if out.exists path
      then error_if (not (out.is_dir path)) field (codes "Path is not a directory: " ++ path) none
      else dir_by_parent field path (out.parent path)

  abbrev file_by_parent : Text → Option Text → ValidationResult
  file_by_parent field none =
      error_if true field (codes "Invalid file path")
        (some (codes "Update the path to a valid file location"))
  file_by_parent field (some parent) =
      warn_if (not (out.exists parent)) field
        (codes "Parent directory does not exist yet but can be created: " ++ parent)

  unfoldable pub validate_file_parent_path : Text → Option Text → ValidationResult
  validate_file_parent_path field none = nothing
  validate_file_parent_path field (some path) =
      if out.exists path && out.is_dir path
      then error_if true field (codes "Expected a file path but found a directory: " ++ path) none
      else file_by_parent field (out.parent path)

  abbrev pub discord_key : Option Text → ValidationResult
  discord_key none = nothing
  discord_key (some key) =
      let trimmed = trim key in
      let field = codes "bot.discord_public_key" in
      if is_empty trimmed
      then error_if true field (codes "Discord public key cannot be empty") none
      else if not (utf8_len trimmed == 64)
      then error_if true field
          (codes "Discord public key must be 64 hex characters (got "
            ++ (decimal (utf8_len trimmed) ++ codes ")"))
          (some (codes "Ed25519 public keys are 32 bytes = 64 hex characters"))
      else error_if (not (out.is_hex trimmed)) field
          (codes "Discord public key must be hex-encoded")
          (some (codes "Use the hex public key from the Discord developer portal"))

  abbrev pub slack_secret : Option Text → ValidationResult
  slack_secret none = nothing
  slack_secret (some secret) =
      error_if (is_empty (trim secret)) (codes "bot.slack_signing_secret")
        (codes "Slack signing secret cannot be empty") none

  abbrev is_none : Option Text → Bool
  is_none none = true
  is_none (some _) = false

  -- The loop over the users, from an index on.
  abbrev pub user_reports : ℕ → List AuthorizedUser → List ValidationResult
  user_reports index [] = []
  user_reports index (user ∷ users) =
      error_if (is_empty (trim user.user_id))
        (codes "bot.authorized_users[" ++ (decimal index ++ codes "].user_id"))
        (codes "Authorized user ID cannot be empty") none
      ∷ user_reports (suc index) users

  unfoldable pub validate_bot_config : BotConfig → ValidationResult
  unfolding joined
  validate_bot_config bot =
      if not bot.enabled
      then nothing
      else joined (
          error_if (is_none bot.discord_public_key && is_none bot.slack_signing_secret)
            (codes "bot.enabled") (codes "Bot enabled but no signing keys configured")
            (some (codes "Set bot.discord_public_key or bot.slack_signing_secret"))
          ∷ discord_key bot.discord_public_key
          ∷ slack_secret bot.slack_signing_secret
          ∷ warn_if (is_empty bot.authorized_users && not bot.allow_all_users)
              (codes "bot.authorized_users")
              (codes "No authorized users configured; commands will be rejected")
          ∷ user_reports 0 bot.authorized_users)

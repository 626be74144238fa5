-- ===== src/Monitor/Classifier/Detect.antt =====
-- The detectors of src/monitor/classifier.rs. Each takes the evidence gathered so far and returns
-- it with what it adds.
use palingenesis.Prelude.{
  ℕ, Bool, false, not, ◌&&◌, List, [], ◌∷◌, ◌++◌, Option, none, some, Result, ok, err, leb, any,
  find_map, or_else, get_or, if◌then◌else◌,
}
use palingenesis.Prelude.Time.{Duration, from_secs}
use palingenesis.Prelude.Words.{max_u32, max_u64}
use palingenesis.Prelude.Text.{Text, codes, contains}
use palingenesis.Prelude.Number.{decimal, parse_uint}
use palingenesis.Prelude.Int.{ℤ, is_nat, as_usize, display_int}
use palingenesis.Prelude.Float.{FloatOps}
use palingenesis.Monitor.Session.{
  Session, SessionState, status_is, is_complete, steps_completed_count,
}
use palingenesis.Monitor.Frontmatter.{Files, parse_session}
use palingenesis.Monitor.Classifier.Types.{
  RetryAfterSource, header, response_body, text_parsed, config_default, RateLimitInfo,
  ContextExhaustionInfo, UserExitType, ctrl_c, exit_command, clean_exit, terminal_closed,
  user_terminated, UserExitInfo, StopReason, completed, Regexes, StopReasonClassifier,
}

-- What the classifier takes from outside: the regex crate, `str::to_lowercase` (whose tables of
-- Unicode are not modelled), the session files and the YAML parser.
pub record Outside : Type 0 where
  pub rx : Regexes
  pub to_lowercase : Text → Text
  pub files : Files
  pub from_yaml : Text → Result SessionState Text

module _ {F : Type 0} (fl : FloatOps F) (out : Outside) (c : StopReasonClassifier F) where
  open out use {rx, to_lowercase}

  -- `Regex::new(p).ok()`, then its captures in the content.
  abbrev captures_of : Text → Text → Option (ℕ → Option Text)
  captures_of pattern content = elim (rx.new pattern) [
    | err e ↦ none
    | ok regex ↦ rx.captures regex content
  ]

  -- `capture_seconds`, and the same for `u32`.
  abbrev capture_uint : ℕ → (ℕ → Option Text) → ℕ → Option ℕ
  capture_uint most caps index = elim (caps index) [ none ↦ none | some s ↦ parse_uint most s ]

  abbrev seconds_of : Text → Text → RetryAfterSource → Option (Duration × RetryAfterSource)
  seconds_of pattern content source = elim (captures_of pattern content) [
    | none ↦ none
    | some caps ↦ elim (capture_uint max_u64 caps 1) [
      | none ↦ none
      | some secs ↦ some (from_secs secs, source)
    ]
  ]

  unfoldable pub extract_retry_after : Text → Duration × RetryAfterSource
  extract_retry_after content =
      get_or
        (or_else (seconds_of (codes "(?i)retry-after[:\\s]+(\\d+)") content header) (
          or_else
            (seconds_of (codes "\\\"retry_after\\\"\\s*:\\s*\\\"?(\\d+)\\\"?") content
              response_body)
            (seconds_of (codes "(?i)try\\s+again\\s+in\\s+(\\d+)\\s*(?:seconds|second|sec|s)")
              content text_parsed)))
        (c.config.default_retry_wait, config_default)

  -- The loop over patterns that stops at the first match.
  unfoldable pub first_match : List Text → Text → Option Text
  first_match patterns content = find_map (λ pattern. rx.find pattern content) patterns

  unfoldable pub detect_rate_limit : Text → List Text → Option RateLimitInfo × List Text
  detect_rate_limit content evidence = elim (first_match c.rate_limit_patterns content) [
    | none ↦ (none, evidence)
    | some matched ↦
        let (retry_after, source) = extract_retry_after content in
        (
          some (record { retry_after = retry_after; source = source; message = some matched }),
          evidence ++ (codes "matched pattern: " ++ matched) ∷ [],
        )
  ]

  unfoldable pub has_error_indicators : Text → Bool
  has_error_indicators content =
      let content_lower = to_lowercase content in
      any (contains content_lower)
        (codes "error" ∷ codes "exception" ∷ codes "failed" ∷ codes "panic" ∷ codes "crash" ∷ [])

  -- The loop over the hash map, in its order of iteration.
  unfoldable pub infer_from : Text → List (Text × ℕ) → ℕ
  infer_from content_lower [] = c.config.default_context_size
  infer_from content_lower ((model, size) ∷ sizes) =
      if contains content_lower model then size else infer_from content_lower sizes

  unfoldable pub infer_context_size : Text → ℕ
  unfolding infer_from
  infer_context_size content = infer_from (to_lowercase content) c.config.known_context_sizes

  -- Two numbers of the content, and their quotient.
  abbrev used_of_total : Text → Text → Option (F × ℕ)
  used_of_total pattern content = elim (captures_of pattern content) [
    | none ↦ none
    | some caps ↦ elim (capture_uint max_u32 caps 1) [
      | none ↦ none
      | some used ↦ elim (capture_uint max_u32 caps 2) [
        | none ↦ none
        | some total ↦ some (fl.div (fl.of_ℕ used) (fl.of_ℕ total), total)
      ]
    ]
  ]

  abbrev used_count : Text → Text → Option (F × ℕ)
  used_count pattern content = elim (captures_of pattern content) [
    | none ↦ none
    | some caps ↦ elim (capture_uint max_u32 caps 1) [
      | none ↦ none
      | some used ↦
          let context_size = infer_context_size content in
          some (fl.div (fl.of_ℕ used) (fl.of_ℕ context_size), context_size)
    ]
  ]

  unfoldable pub extract_token_usage : Text → Option (F × ℕ)
  extract_token_usage content =
      or_else (used_of_total (codes "(?i)used\\s+(\\d{2,})\\s+of\\s+(\\d{2,})\\s+tokens") content) (
        or_else (used_of_total (codes "(?i)(\\d{2,})\\s*/\\s*(\\d{2,})\\s*tokens?") content)
          (used_count (codes "(?i)(\\d{2,})\\s*tokens?\\s*(?:used|consumed|spent)") content))

  abbrev percent_text : F → Text
  percent_text x = fl.fixed 0 (fl.mul x (fl.of_ℕ 100)) ++ codes "%"

  unfoldable pub context_by_pattern : Text → Text → ContextExhaustionInfo F
  context_by_pattern content matched = elim (extract_token_usage content) [
    | none ↦ record { usage_percent = none; context_size = none; message = some matched }
    | some (usage, size) ↦ record {
      usage_percent = some usage;
      context_size = some size;
      message = some matched;
    }
  ]

  unfoldable pub context_by_usage :
      Option (F × ℕ) → List Text → Option (ContextExhaustionInfo F) × List Text
  context_by_usage none evidence = (none, evidence)
  context_by_usage (some (usage_percent, context_size)) evidence =
      let threshold = c.config.context_threshold_percent in
      if fl.le threshold usage_percent
      then (
        some (record {
          usage_percent = some usage_percent;
          context_size = some context_size;
          message = none;
        }),
        evidence
            ++ (codes "token usage "
                ++ percent_text usage_percent
                ++ codes " exceeds threshold "
                ++ percent_text threshold)
              ∷ [],
      )
      else (none, evidence)

  unfoldable pub detect_context_exhaustion :
      Text → List Text → Option (ContextExhaustionInfo F) × List Text
  unfolding context_by_usage
  detect_context_exhaustion content evidence = elim (first_match c.context_patterns content) [
    | some matched ↦ (
      some (context_by_pattern content matched),
      evidence ++ (codes "matched context pattern: " ++ matched) ∷ [],
    )
    | none ↦ context_by_usage (extract_token_usage content) evidence
  ]

  abbrev exit_info : UserExitType → ℤ → Text → UserExitInfo
  exit_info exit_type code message = record {
    exit_type = exit_type;
    exit_code = some code;
    message = some message;
  }

  -- The exit codes that decide at once; `none` goes on to the content.
  unfoldable pub exit_by_code : ℤ → List Text → Option (Option UserExitInfo × List Text)
  exit_by_code code evidence =
      if is_nat code 130
      then some (
        some (exit_info ctrl_c code (codes "User pressed Ctrl+C")),
        evidence ++ codes "exit code 130 (SIGINT/Ctrl+C)" ∷ [],
      )
      else if is_nat code 143
      then some (
        some (exit_info user_terminated code (codes "Process terminated")),
        evidence ++ codes "exit code 143 (SIGTERM)" ∷ [],
      )
      else if is_nat code 129
      then some (
        some (exit_info terminal_closed code (codes "Terminal closed")),
        evidence ++ codes "exit code 129 (SIGHUP)" ∷ [],
      )
      else if is_nat code 0
      then none
      else some (none, evidence)

  abbrev is_zero : Option ℤ → Bool
  is_zero none = false
  is_zero (some code) = is_nat code 0

  unfoldable pub exit_by_content : Text → Option ℤ → List Text → Option UserExitInfo × List Text
  exit_by_content content exit_code evidence =
      if has_error_indicators content
      then (none, evidence)
      else elim (first_match c.user_exit_patterns content) [
        | some matched ↦ (
          some (record { exit_type = exit_command; exit_code = exit_code; message = some matched }),
          evidence ++ (codes "matched user exit pattern: " ++ matched) ∷ [],
        )
        | none ↦
            if is_zero exit_code
            then (
              some (record { exit_type = clean_exit; exit_code = exit_code; message = none }),
              evidence ++ codes "clean exit code 0" ∷ [],
            )
            else (none, evidence)
      ]

  unfoldable pub detect_user_exit : Text → Option ℤ → List Text → Option UserExitInfo × List Text
  unfolding exit_by_code exit_by_content
  detect_user_exit content none evidence = exit_by_content content none evidence
  detect_user_exit content (some code) evidence =
      get_or (exit_by_code code evidence) (exit_by_content content (some code) evidence)

  -- The check of the last step, for a session whose status is not complete.
  unfoldable pub check_last_step :
      Session → Option ℤ → List Text → Option (StopReason F) × List Text
  check_last_step session none evidence = (none, evidence)
  check_last_step session (some last_step) evidence =
      let completed_count = steps_completed_count session in
      let in_progress = status_is session.state.status (codes "in-progress") in
      if not in_progress && leb (as_usize last_step) completed_count
      then (
        some completed,
        evidence
            ++ (codes "stepsCompleted "
                ++ decimal completed_count
                ++ codes " reached lastStep "
                ++ display_int last_step)
              ∷ [],
      )
      else (none, evidence)

  unfoldable pub check_completed : Text → List Text → Option (StopReason F) × List Text
  unfolding check_last_step
  check_completed session_path evidence =
      elim (parse_session out.files out.from_yaml session_path) [
        | err e ↦ (none, evidence)
        | ok session ↦
            if is_complete session
            then (some completed, evidence ++ codes "session status is complete" ∷ [])
            else check_last_step session session.state.last_step evidence
      ]

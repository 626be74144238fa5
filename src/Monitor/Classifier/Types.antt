-- ===== src/Monitor/Classifier/Types.antt =====
-- The data of src/monitor/classifier.rs: stop reasons, the configuration and its patterns.
-- The regex crate is a parameter; a compiled pattern is the pattern's text. An `f32` is of type `F`.
use palingenesis.Prelude.{
  ℕ, Bool, true, false, List, [], ◌∷◌, ◌++◌, map, Option, none, some, Result, ok, err, ◌>>=◌,
}
use palingenesis.Prelude.Time.{Duration, from_secs}
use palingenesis.Prelude.Text.{Text, codes}
use palingenesis.Prelude.Int.{ℤ}
use palingenesis.Prelude.Float.{FloatOps}
use palingenesis.Monitor.Frontmatter.{IoError}

pub data RetryAfterSource : Type 0 where
  header response_body text_parsed config_default : RetryAfterSource

pub record RateLimitInfo : Type 0 where
  pub retry_after : Duration
  pub source : RetryAfterSource
  pub message : Option Text

pub record ContextExhaustionInfo (F : Type 0) : Type 0 where
  pub usage_percent : Option F
  pub context_size : Option ℕ
  pub message : Option Text

pub data UserExitType : Type 0 where
  ctrl_c exit_command clean_exit terminal_closed user_terminated : UserExitType

pub record UserExitInfo : Type 0 where
  pub exit_type : UserExitType
  pub exit_code : Option ℤ  -- i32
  pub message : Option Text

pub data StopReason (F : Type 0) : Type 0 where
  rate_limit : RateLimitInfo → StopReason F
  context_exhausted : Option (ContextExhaustionInfo F) → StopReason F
  user_exit : UserExitInfo → StopReason F
  completed : StopReason F
  unknown : Text → StopReason F

module _ {F : Type 0} where
  unfoldable pub should_auto_resume : StopReason F → Bool
  should_auto_resume (rate_limit _) = true
  should_auto_resume (context_exhausted _) = true
  should_auto_resume (user_exit _) = false
  should_auto_resume completed = false
  should_auto_resume (unknown _) = false

  unfoldable pub metrics_reason_label : StopReason F → Option Text
  metrics_reason_label (rate_limit _) = some (codes "rate_limit")
  metrics_reason_label (context_exhausted _) = some (codes "context_exhausted")
  metrics_reason_label (user_exit _) = some (codes "manual")
  metrics_reason_label completed = some (codes "manual")
  metrics_reason_label (unknown _) = none

pub record ClassificationResult (F : Type 0) : Type 0 where
  pub reason : StopReason F
  pub confidence : F
  pub evidence : List Text

pub data ClassifierError : Type 0 where
  io : IoError → ClassifierError
  pattern_error : Text → ClassifierError

pub record ClassifierConfig (F : Type 0) : Type 0 where
  pub default_retry_wait : Duration
  pub max_lines : ℕ
  pub context_threshold_percent : F
  pub default_context_size : ℕ  -- u32
  -- A hash map, in the order in which it is iterated over.
  pub known_context_sizes : List (Text × ℕ)
  pub extra_rate_limit_patterns : List Text
  pub extra_context_patterns : List Text

abbrev pub gpt4_turbo : Text × ℕ
gpt4_turbo = (codes "gpt-4 turbo", 128_000)

abbrev pub gpt4 : Text × ℕ
gpt4 = (codes "gpt-4", 8_192)

abbrev pub default_known_sizes : List (Text × ℕ)
default_known_sizes =
    (codes "claude 3.5 sonnet", 200_000) ∷ (codes "claude 3 opus", 200_000) ∷ gpt4_turbo ∷ gpt4 ∷ []

unfoldable pub default_config : {F : Type 0} → FloatOps F → ClassifierConfig F
default_config fl = record {
  default_retry_wait = from_secs 30;
  max_lines = 100;
  context_threshold_percent = fl.decimal 80 2;
  default_context_size = 200_000;
  known_context_sizes = default_known_sizes;
  extra_rate_limit_patterns = [];
  extra_context_patterns = [];
}

-- The regex crate: `Regex::new` fails with a text or gives the pattern back, `find` gives the text
-- of the first match, and `captures` the groups of the first match.
pub record Regexes : Type 0 where
  pub new : Text → Result Text Text
  pub find : Text → Text → Option Text
  pub captures : Text → Text → Option (ℕ → Option Text)

pub record StopReasonClassifier (F : Type 0) : Type 0 where
  pub config : ClassifierConfig F
  pub rate_limit_patterns : List Text
  pub context_patterns : List Text
  pub user_exit_patterns : List Text

abbrev rate_limit_sources : List Text
rate_limit_sources = map codes (
    "(?i)rate[_-]?limit[_-]?error" ∷ "(?i)rate\\s+limit\\s+reached" ∷ "(?i)\\b429\\b"
    ∷ "(?i)too\\s+many\\s+requests" ∷ "(?i)quota\\s+exceeded"
    ∷ "(?i)overloaded[_-]?error|overloaded" ∷ "(?i)throttl" ∷ [])

abbrev context_sources : List Text
context_sources = map codes (
    "(?i)context[_-]?length[_-]?exceeded" ∷ "(?i)maximum\\s+context\\s+length"
    ∷ "(?i)token\\s+limit\\s+exceeded" ∷ "(?i)conversation\\s+too\\s+long"
    ∷ "(?i)context\\s+window\\s+(?:full|exceeded|limit)" ∷ "(?i)max\\s*tokens?\\s+reached"
    ∷ "(?i)prompt\\s+is\\s+too\\s+long" ∷ "(?i)context\\s+(?:truncated|reset)"
    ∷ "(?i)conversation\\s+reset" ∷ [])

abbrev user_exit_sources : List Text
user_exit_sources = map codes (
    "(?im)^\\s*exit\\s*$" ∷ "(?im)^\\s*quit\\s*$" ∷ "(?im)^\\s*/bye\\s*$" ∷ "(?im)^\\s*goodbye\\s*$"
    ∷ "(?im)^\\s*done\\s*$" ∷ "(?i)keyboard\\s+interrupt" ∷ "(?i)interrupted\\s+by\\s+user"
    ∷ "(?i)sigint\\s+received" ∷ [])

module _ (rx : Regexes) where
  -- `Regex::new(p)?` for each pattern in turn.
  unfoldable pub compile : List Text → Result (List Text) ClassifierError
  compile [] = ok []
  compile (p ∷ ps) = elim (rx.new p) [
    | err message ↦ err (pattern_error message)
    | ok regex ↦ elim (compile ps) [ err e ↦ err e | ok regexes ↦ ok (regex ∷ regexes) ]
  ]

  unfoldable pub build_context_patterns : Result (List Text) ClassifierError
  build_context_patterns = compile context_sources

  unfoldable pub build_user_exit_patterns : Result (List Text) ClassifierError
  build_user_exit_patterns = compile user_exit_sources

  unfoldable pub with_config :
      {F : Type 0} → ClassifierConfig F → Result (StopReasonClassifier F) ClassifierError
  unfolding compile build_context_patterns build_user_exit_patterns
  with_config config = do
    first ← compile rate_limit_sources
    extra ← compile config.extra_rate_limit_patterns
    context ← build_context_patterns
    extra_context ← compile config.extra_context_patterns
    user_exits ← build_user_exit_patterns
    ok (record {
      config = config;
      rate_limit_patterns = first ++ extra;
      context_patterns = context ++ extra_context;
      user_exit_patterns = user_exits;
    })

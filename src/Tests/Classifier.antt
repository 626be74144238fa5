-- ===== src/Tests/Classifier.antt =====
-- src/monitor/classifier.rs and src/resume/selector.rs at concrete sessions.
use palingenesis.Prelude.{
  ◌≡◌, refl, true, [], ◌∷◌, none, some, ok, err, is_some, if◌then◌else◌, not, ◌&&◌, ◌||◌,
}
use palingenesis.Prelude.Int.{ℤ, pos}
use palingenesis.Prelude.Text.{codes, contains, lines, to_ascii_lowercase}
use palingenesis.Monitor.Frontmatter.{not_found}
use palingenesis.Monitor.Classifier.Types.{
  completed, should_auto_resume, default_config, StopReasonClassifier, gpt4, gpt4_turbo,
}
use palingenesis.Monitor.Classifier.Detect.{
  Outside, first_match, detect_context_exhaustion, infer_from,
}
use palingenesis.Monitor.Classifier.Classify.{tail_lines, completion, classify_with_session}
use palingenesis.Monitor.Classifier.Verdicts.{auto_resume_iff}
use palingenesis.Monitor.Classifier.ContextSize.{infer_depends_on_order}
use palingenesis.Resume.Selector.{select, new, select_agrees}
use palingenesis.Tests.Floats.{floats}

-- Patterns that are plain words, no session file, and no frontmatter.
abbrev pub plain : Outside
plain = record {
  rx = record {
    new = λ p. ok p;
    find = λ p content. if contains content p then some p else none;
    captures = λ p content. none;
  };
  to_lowercase = to_ascii_lowercase;
  files = record {
    read_to_string = λ path. err (not_found (codes "missing"));
    open_lines = λ path. err (not_found (codes "missing"));
  };
  from_yaml = λ text. err (codes "not parsed");
}

abbrev pub words : StopReasonClassifier ℤ
words = record {
  config = default_config floats;
  rate_limit_patterns = codes "429" ∷ [];
  context_patterns = codes "too long" ∷ [];
  user_exit_patterns = codes "quit" ∷ [];
}

tail_test : tail_lines 2 (codes "a\nb\r\nc\n") ≡ codes "b" ∷ codes "c" ∷ []
unfolding tail_lines lines codes
tail_test = refl

auto_resume_iff_example :
    should_auto_resume
      (classify_with_session floats plain words (codes "too long") none (some (pos 130))).reason
    ≡ (is_some (first_match floats plain words (codes "429" ∷ []) (codes "too long"))
        || not (is_some (completion floats plain words none []).0)
          && is_some (detect_context_exhaustion floats plain words (codes "too long") []).0)
auto_resume_iff_example =
    auto_resume_iff floats plain words (codes "too long") none (some (pos 130))

names_turbo : contains (codes "on gpt-4 turbo now") (codes "gpt-4 turbo") ≡ true
unfolding contains codes
names_turbo = refl

infer_depends_on_order_example :
    (infer_from floats plain words (codes "on gpt-4 turbo now") (gpt4_turbo ∷ gpt4 ∷ []) ≡ 128_000)
    × (infer_from floats plain words (codes "on gpt-4 turbo now") (gpt4 ∷ gpt4_turbo ∷ []) ≡ 8_192)
infer_depends_on_order_example =
    infer_depends_on_order floats plain words (codes "on gpt-4 turbo now") names_turbo []

select_agrees_example :
    is_some (select {F = ℤ} new completed) ≡ should_auto_resume {F = ℤ} completed
select_agrees_example = select_agrees completed

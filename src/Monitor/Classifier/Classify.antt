-- ===== src/Monitor/Classifier/Classify.antt =====
-- The verdict of src/monitor/classifier.rs: the detectors in their order.
use palingenesis.Prelude.{
  ℕ, ◌-◌, List, [], ◌∷◌, ◌++◌, Option, none, some, Result, ok, err, length, drop,
}
use palingenesis.Prelude.Text.{Text, codes, lines, join}
use palingenesis.Prelude.Int.{ℤ}
use palingenesis.Prelude.Float.{FloatOps}
use palingenesis.Monitor.Frontmatter.{IoError, io_text}
use palingenesis.Monitor.Classifier.Types.{
  RateLimitInfo, ContextExhaustionInfo, UserExitInfo, StopReason, rate_limit, context_exhausted,
  user_exit, unknown, ClassificationResult, StopReasonClassifier,
}
use palingenesis.Monitor.Classifier.Detect.{
  Outside, detect_rate_limit, detect_context_exhaustion, detect_user_exit, check_completed,
}

-- The last lines of a text, at most as many as the number says.
unfoldable pub tail_lines : ℕ → Text → List Text
tail_lines max_lines content =
    let all_lines = lines content in drop (length all_lines - max_lines) all_lines

module _ {F : Type 0} (fl : FloatOps F) where
  unfoldable pub confidence_from_evidence : List Text → F → F
  confidence_from_evidence evidence base =
      let extra = fl.mul (fl.of_ℕ (length evidence - 1)) (fl.decimal 3 2) in
      fl.min (fl.add base extra) (fl.decimal 98 2)

module _ {F : Type 0} (fl : FloatOps F) (out : Outside) (c : StopReasonClassifier F) where
  abbrev verdict : StopReason F → F → List Text → ClassificationResult F
  verdict reason confidence evidence = record {
    reason = reason;
    confidence = confidence;
    evidence = evidence;
  }

  -- The last detector, and the verdict where none has found anything.
  unfoldable pub by_user_exit : Option UserExitInfo × List Text → ClassificationResult F
  by_user_exit (some info, evidence) =
      verdict (user_exit info) (confidence_from_evidence fl evidence (fl.decimal 75 2)) evidence
  by_user_exit (none, evidence) =
      verdict (unknown (codes "No matching patterns")) (fl.decimal 2 1) evidence

  unfoldable pub by_context :
      Text → Option ℤ → Option (ContextExhaustionInfo F) × List Text → ClassificationResult F
  unfolding by_user_exit
  by_context content exit_code (some info, evidence) =
      verdict (context_exhausted (some info))
        (confidence_from_evidence fl evidence (fl.decimal 78 2)) evidence
  by_context content exit_code (none, evidence) =
      by_user_exit (detect_user_exit fl out c content exit_code evidence)

  unfoldable pub by_completed :
      Text → Option ℤ → Option (StopReason F) × List Text → ClassificationResult F
  unfolding by_context
  by_completed content exit_code (some reason, evidence) = verdict reason (fl.decimal 95 2) evidence
  by_completed content exit_code (none, evidence) =
      by_context content exit_code (detect_context_exhaustion fl out c content evidence)

  abbrev pub completion : Option Text → List Text → Option (StopReason F) × List Text
  completion none evidence = (none, evidence)
  completion (some path) evidence = check_completed fl out c path evidence

  unfoldable pub by_rate_limit :
      Text → Option Text → Option ℤ → Option RateLimitInfo × List Text → ClassificationResult F
  unfolding by_completed
  by_rate_limit content session_path exit_code (some info, evidence) =
      verdict (rate_limit info) (confidence_from_evidence fl evidence (fl.decimal 85 2)) evidence
  by_rate_limit content session_path exit_code (none, evidence) =
      by_completed content exit_code (completion session_path evidence)

  unfoldable pub classify_with_session : Text → Option Text → Option ℤ → ClassificationResult F
  unfolding by_rate_limit
  classify_with_session content session_path exit_code =
      by_rate_limit content session_path exit_code (detect_rate_limit fl out c content [])

  unfoldable pub read_file_tail : Text → ℕ → Result Text IoError
  unfolding tail_lines
  read_file_tail path max_lines = elim (out.files.read_to_string path) [
    | err e ↦ err e
    | ok content ↦ ok (join (codes "\n") (tail_lines max_lines content))
  ]

  unfoldable pub classify : Text → Option ℤ → ClassificationResult F
  unfolding read_file_tail classify_with_session
  classify session_path exit_code = elim (read_file_tail session_path c.config.max_lines) [
    | err e ↦
        verdict (unknown (codes "Read error: " ++ io_text e)) (fl.of_ℕ 0)
          ((codes "error: " ++ io_text e) ∷ [])
    | ok content ↦ classify_with_session content (some session_path) exit_code
  ]

  unfoldable pub classify_content : Text → Option ℤ → ClassificationResult F
  unfolding classify_with_session
  classify_content content exit_code = classify_with_session content none exit_code

-- ===== src/Monitor/Classifier/Verdicts/Exits.antt =====
-- What an exit code other than 0 means to src/monitor/classifier.rs.
use palingenesis.Prelude.{
  ◌≡◌, refl, inl, inr, Bool, true, false, not, ◌&&◌, ◌||◌, List, [], Option, none, some, arith,
  Option-cases, is_some,
}
use palingenesis.Prelude.Text.{Text}
use palingenesis.Prelude.Int.{ℤ, is_nat}
use palingenesis.Prelude.Float.{FloatOps}
use palingenesis.Monitor.Classifier.Types.{ContextExhaustionInfo, StopReason, StopReasonClassifier}
use palingenesis.Monitor.Classifier.Detect.{
  Outside, first_match, detect_context_exhaustion, detect_user_exit,
}
use palingenesis.Monitor.Classifier.Classify.{
  completion, by_context, by_user_exit, classify_with_session,
}
use palingenesis.Monitor.Classifier.Verdicts.{
  is_rate_limit, is_user_exit, reason_of_limit, reason_past_completed, reason_of_completed,
  completion-cases,
}

-- SIGINT, SIGTERM and SIGHUP.
abbrev pub is_signal : ℤ → Bool
is_signal code = is_nat code 130 || is_nat code 143 || is_nat code 129

module _ {F : Type 0} (fl : FloatOps F) (out : Outside) (c : StopReasonClassifier F)
    (content : Text) (path : Option Text) (code : ℤ) (failed : is_nat code 0 ≡ false) where
  detected :
      (ev : List Text)
      → is_some (detect_user_exit fl out c content (some code) ev).0 ≡ is_signal code
  unfolding detect_user_exit
  detected ev = ground arith

  exit_reason :
      (ev : List Text)
      → is_user_exit
          (by_user_exit fl out c (detect_user_exit fl out c content (some code) ev)).reason
        ≡ is_signal code
  unfolding by_user_exit
  exit_reason ev = ground (arith, detected ev)

  context_exit :
      (p : Option (ContextExhaustionInfo F) × List Text)
      → is_user_exit (by_context fl out c content (some code) p).reason
        ≡ (not (is_some p.0) && is_signal code)
  unfolding by_context
  context_exit (none, ev) = exit_reason ev
  context_exit (some info, ev) = refl

  limit_not_exit : (r : StopReason F) → is_rate_limit r ≡ true → is_user_exit r ≡ false
  limit_not_exit r h = ground arith

  -- After an exit code other than 0 the verdict is a user's exit exactly when the code is that of
  -- SIGINT, SIGTERM or SIGHUP, no rate limit pattern matches, the session is not found complete
  -- and its context is not found exhausted. The text of the session never makes it one.
  user_exit_iff : is_user_exit (classify_with_session fl out c content path (some code)).reason ≡ (
      not (is_some (first_match fl out c c.rate_limit_patterns content))
      && (not (is_some (completion fl out c path []).0)
          && (not (is_some (detect_context_exhaustion fl out c content []).0) && is_signal code)))
  user_exit_iff = elim (Option-cases (first_match fl out c c.rate_limit_patterns content)) [
    | inl e ↦ elim (completion-cases fl out c path []) [
      | inl k ↦
          rw (reason_past_completed fl out c content path (some code) e k, e, k) (context_exit _)
      | inr k ↦ rw (reason_of_completed fl out c content path (some code) e k, e, k)
    ]
    | inr (m, e) ↦
        rw e (limit_not_exit _ (reason_of_limit fl out c content path (some code) (rw e)))
  ]

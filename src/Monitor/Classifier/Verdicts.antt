-- ===== src/Monitor/Classifier/Verdicts.antt =====
-- What a verdict of src/monitor/classifier.rs rests on.
pub mod Exits
use palingenesis.Prelude.{
  ℕ, ◌≤◌, ◌-◌, min, ◌≡◌, ◌≢◌, ◌∙◌, refl, inl, inr, ◌⊎◌, ◌↔◌, Bool, true, false, not, ◌&&◌, ◌||◌,
  List, [], Option, none, some, arith, Option-cases, is_some, length, length-drop,
}
use palingenesis.Prelude.Text.{Text, lines}
use palingenesis.Prelude.Int.{ℤ, pos, is_nat}
use palingenesis.Prelude.Float.{FloatOps}
use palingenesis.Monitor.Session.{Session}
use palingenesis.Monitor.Classifier.Types.{
  ContextExhaustionInfo, UserExitInfo, StopReason, rate_limit, context_exhausted, user_exit,
  completed, unknown, should_auto_resume, StopReasonClassifier,
}
use palingenesis.Monitor.Classifier.Detect.{
  Outside, first_match, detect_rate_limit, detect_context_exhaustion, detect_user_exit,
  exit_by_content, exit_by_code, check_completed, check_last_step,
}
use palingenesis.Monitor.Classifier.Classify.{
  tail_lines, completion, by_completed, by_context, by_user_exit, classify_with_session,
  classify_content,
}

-- The tail that is read from a session file has the smaller of the two numbers of lines.
length-tail_lines :
    (n : ℕ) (content : Text) → length (tail_lines n content) ≡ min (length (lines content)) n
unfolding tail_lines
length-tail_lines n content = omega (arith, length-drop {0})

module _ {F : Type 0} where
  abbrev pub is_rate_limit : StopReason F → Bool
  is_rate_limit (rate_limit _) = true
  is_rate_limit _ = false

  abbrev pub is_user_exit : StopReason F → Bool
  is_user_exit (user_exit _) = true
  is_user_exit _ = false

  abbrev pub is_completed : StopReason F → Bool
  is_completed completed = true
  is_completed _ = false

module _ {F : Type 0} where
  -- The reasons that the later detectors can give.
  abbrev is_late : StopReason F → Bool
  is_late (rate_limit _) = false
  is_late _ = true

module _ {F : Type 0} (fl : FloatOps F) (out : Outside) (c : StopReasonClassifier F) where
  check_last_step-cases :
      (session : Session) (o : Option ℤ) (ev : List Text)
      → (check_last_step fl out c session o ev ≡ (none, ev))
        ⊎ ((check_last_step fl out c session o ev).0 ≡ some completed)
  unfolding check_last_step
  check_last_step-cases session none ev = inl refl
  check_last_step-cases session (some n) ev = ground arith

  check_completed-cases :
      (path : Text) (ev : List Text)
      → (check_completed fl out c path ev ≡ (none, ev))
        ⊎ ((check_completed fl out c path ev).0 ≡ some completed)
  unfolding check_completed
  check_completed-cases path ev = ground arith

  completion-cases :
      (path : Option Text) (ev : List Text)
      → (completion fl out c path ev ≡ (none, ev))
        ⊎ ((completion fl out c path ev).0 ≡ some completed)
  completion-cases none ev = inl refl
  completion-cases (some path) ev = check_completed-cases path ev

  module _ (content : Text) (path : Option Text) (code : Option ℤ) where
    abbrev limit_match : Option Text
    limit_match = first_match fl out c c.rate_limit_patterns content

    abbrev verdict_reason : StopReason F
    verdict_reason = (classify_with_session fl out c content path code).reason

    reason_of_limit : is_some limit_match ≡ true → is_rate_limit verdict_reason ≡ true
    unfolding classify_with_session detect_rate_limit
    reason_of_limit h = ground arith

    reason_past_limit :
        limit_match ≡ none
        → verdict_reason ≡ (by_completed fl out c content code (completion fl out c path [])).reason
    unfolding classify_with_session detect_rate_limit
    reason_past_limit h = rw (h, verdict_reason, classify_with_session, detect_rate_limit) refl

    reason_of_completed :
        limit_match ≡ none
        → (completion fl out c path []).0 ≡ some completed
        → verdict_reason ≡ completed
    unfolding by_completed
    reason_of_completed h k = reason_past_limit h ∙ ground arith

    reason_past_completed :
        limit_match ≡ none
        → completion fl out c path [] ≡ (none, [])
        → verdict_reason
          ≡ (by_context fl out c content code
              (detect_context_exhaustion fl out c content [])).reason
    unfolding by_completed
    reason_past_completed h k = reason_past_limit h ∙ rw k refl

    user_exit_reason :
        (p : Option UserExitInfo × List Text)
        → (is_rate_limit (by_user_exit fl out c p).reason ≡ false)
          × (should_auto_resume (by_user_exit fl out c p).reason ≡ false)
          × (is_completed (by_user_exit fl out c p).reason ≡ false)
    unfolding by_user_exit should_auto_resume
    user_exit_reason (none, ev) = (refl, refl, refl)
    user_exit_reason (some info, ev) = (refl, refl, refl)

    context_reason :
        (p : Option (ContextExhaustionInfo F) × List Text)
        → let reason = (by_context fl out c content code p).reason in
          (is_rate_limit reason ≡ false)
          × (should_auto_resume reason ≡ is_some p.0)
          × (is_completed reason ≡ false)
    unfolding by_context should_auto_resume
    context_reason (none, ev) = user_exit_reason (detect_user_exit fl out c content code ev)
    context_reason (some info, ev) = (refl, refl, refl)

    limit_resumes : (r : StopReason F) → is_rate_limit r ≡ true → should_auto_resume r ≡ true
    unfolding should_auto_resume
    limit_resumes r h = ground arith

    -- A stop counts as a rate limit exactly when some rate limit pattern matches the content,
    -- whatever the exit code and the session file say.
    rate_limit_iff : is_rate_limit verdict_reason ≡ is_some limit_match
    rate_limit_iff = elim (Option-cases limit_match) [
      | inl e ↦ elim (completion-cases path []) [
        | inl k ↦ rw (reason_past_completed e k, e) (context_reason _).0
        | inr k ↦ rw (reason_of_completed e k, e)
      ]
      | inr (m, e) ↦ rw e (reason_of_limit (rw e))
    ]

    -- The verdict is to resume exactly when a rate limit pattern matches, or the session is not
    -- found complete and its context is found exhausted. In particular no exit code and no
    -- text that looks like a user's exit ever leads to a resume.
    pub auto_resume_iff : should_auto_resume verdict_reason ≡ (
        is_some limit_match
        || not (is_some (completion fl out c path []).0)
          && is_some (detect_context_exhaustion fl out c content []).0)
    unfolding should_auto_resume
    auto_resume_iff = elim (Option-cases limit_match) [
      | inl e ↦ elim (completion-cases path []) [
        | inl k ↦ rw (reason_past_completed e k, e, k) (context_reason _).1
        | inr k ↦ rw (reason_of_completed e k, e, k)
      ]
      | inr (m, e) ↦ rw e (limit_resumes _ (reason_of_limit (rw e)))
    ]

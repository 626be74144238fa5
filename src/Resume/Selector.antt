-- ===== src/Resume/Selector.antt =====
-- src/resume/selector.rs: which strategy answers a stop. A boxed strategy is its kind.
use palingenesis.Prelude.{◌≡◌, refl, Bool, true, false, Option, none, some, is_some, arith}
use palingenesis.Monitor.Classifier.Types.{
  StopReason, rate_limit, context_exhausted, user_exit, completed, unknown, should_auto_resume,
}

pub data UnknownStrategy : Type 0 where
  same_session new_session skip : UnknownStrategy

pub data StrategyKind : Type 0 where
  same_session_strategy new_session_strategy : StrategyKind

pub record StrategySelector : Type 0 where
  pub unknown_default : UnknownStrategy

abbrev pub new : StrategySelector
new = record { unknown_default = skip }

abbrev pub with_unknown_default : UnknownStrategy → StrategySelector
with_unknown_default u = record { unknown_default = u }

unfoldable pub for_unknown : UnknownStrategy → Option StrategyKind
for_unknown same_session = some same_session_strategy
for_unknown new_session = some new_session_strategy
for_unknown skip = none

unfoldable pub select : {F : Type 0} → StrategySelector → StopReason F → Option StrategyKind
unfolding for_unknown
select s (rate_limit _) = some same_session_strategy
select s (context_exhausted _) = some new_session_strategy
select s (user_exit _) = none
select s completed = none
select s (unknown _) = for_unknown s.unknown_default

-- The default selector gives a strategy exactly for the stop reasons that ask for an automatic
-- resume.
pub select_agrees :
    {F : Type 0} (reason : StopReason F) → is_some (select new reason) ≡ should_auto_resume reason
unfolding select should_auto_resume
select_agrees (rate_limit _) = refl
select_agrees _ = refl

abbrev pub is_deliberate : {F : Type 0} → StopReason F → Bool
is_deliberate (user_exit _) = true
is_deliberate completed = true
is_deliberate _ = false

-- No selector, whatever its default for unknown reasons, resumes a session that the user ended or
-- that is complete.
select-deliberate :
    {F : Type 0} (s : StrategySelector) (reason : StopReason F)
    → is_deliberate reason ≡ true
    → select s reason ≡ none
unfolding select
select-deliberate s reason h = ground arith

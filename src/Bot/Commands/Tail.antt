-- ===== src/Bot/Commands/Tail.antt =====
-- The option `--tail` of the bot's command `logs` (src/bot/commands.rs).
use palingenesis.Prelude.{
  ℕ, ◌≤◌, ◌≡◌, refl, List, [], ◌∷◌, ◌++◌, ok, arith, inl, inr, Bool-cases, Option-cases,
}
use palingenesis.Prelude.Words.{max_u64}
use palingenesis.Prelude.Text.{Text, codes, text_eq}
use palingenesis.Prelude.Number.{decimal, parse_uint, parse_uint-decimal}
use palingenesis.Bot.Commands.{logs, is_tail, parse_logs_from, parse_logs_command}

tail_alone :
    (tail n : ℕ)
    → n ≤ max_u64
    → parse_logs_from tail (codes "--tail" ∷ decimal n ∷ []) ≡ ok (logs n)
unfolding parse_logs_from codes text_eq
tail_alone tail n h = rw (parse_logs_from, parse_uint-decimal max_u64 n h) refl

last_tail_wins :
    (args : List Text) (tail k n : ℕ)
    → n ≤ max_u64
    → parse_logs_from tail args ≡ ok (logs k)
    → parse_logs_from tail (args ++ codes "--tail" ∷ decimal n ∷ []) ≡ ok (logs n)
unfolding parse_logs_from
last_tail_wins [] tail k n h e = tail_alone tail n h
last_tail_wins (arg ∷ []) tail k n h e = elim (Bool-cases (is_tail arg)) [
  | inl flag ↦ absurd (ground arith)
  | inr plain ↦ rw (parse_logs_from, plain) (last_tail_wins [] tail tail n h refl)
]
last_tail_wins (arg ∷ value ∷ rest) tail k n h e = elim (Bool-cases (is_tail arg)) [
  | inr plain ↦
      rw (parse_logs_from, plain) (last_tail_wins (value ∷ rest) tail k n h (ground arith))
  | inl flag ↦ elim (Option-cases (parse_uint max_u64 value)) [
    | inl bad ↦ absurd (ground arith)
    | inr (m, good) ↦ rw (parse_logs_from, flag, good) (last_tail_wins rest m k n h (ground arith))
  ]
]

-- The option `--tail n` behind arguments that are accepted overrides them: the last one wins, for
-- every number of lines that a usize can hold.
parse_logs_command-last :
    (args : List Text) (k n : ℕ)
    → n ≤ max_u64
    → parse_logs_command args ≡ ok (logs k)
    → parse_logs_command (args ++ codes "--tail" ∷ decimal n ∷ []) ≡ ok (logs n)
unfolding parse_logs_command
parse_logs_command-last args k n h e = last_tail_wins args 10 k n h e

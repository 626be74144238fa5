-- ===== src/Bot/Commands.antt =====
-- src/bot/commands.rs: the parser of the bot's commands.
pub mod Tail
use palingenesis.Prelude.{
  ℕ, Bool, true, false, ◌||◌, List, [], ◌∷◌, ◌++◌, Option, none, some, Result, ok, err,
  if◌then◌else◌,
}
use palingenesis.Prelude.Words.{max_u64}
use palingenesis.Prelude.Text.{Text, codes, text_eq, to_ascii_lowercase, split_whitespace}
use palingenesis.Prelude.Number.{parse_uint}

pub data BotCommand : Type 0 where
  status pause resume : BotCommand
  logs : ℕ → BotCommand  -- tail, a usize
  new_session help : BotCommand

-- `BotCommandParseError` is its message.
abbrev pub Parsed : Type 0
Parsed = Result BotCommand Text

abbrev pub is_tail : Text → Bool
is_tail arg = text_eq arg (codes "--tail") || text_eq arg (codes "-t")

-- The loop over the arguments; a usize has 64 bits.
unfoldable pub parse_logs_from : ℕ → List Text → Parsed
parse_logs_from tail [] = ok (logs tail)
parse_logs_from tail (arg ∷ []) =
    if is_tail arg then err (codes "Missing value for --tail") else ok (logs tail)
parse_logs_from tail (arg ∷ value ∷ rest) = elim (is_tail arg) [
  | false ↦ parse_logs_from tail (value ∷ rest)
  | true ↦ elim (parse_uint max_u64 value) [
    | none ↦ err (codes "Invalid value for --tail")
    | some n ↦ parse_logs_from n rest
  ]
]

unfoldable pub parse_logs_command : List Text → Parsed
unfolding parse_logs_from
parse_logs_command args = parse_logs_from 10 args

abbrev command_of : Text → List Text → Parsed
command_of command args =
    if text_eq command (codes "status")
    then ok status
    else if text_eq command (codes "pause")
    then ok pause
    else if text_eq command (codes "resume")
    then ok resume
    else if text_eq command (codes "logs")
    then parse_logs_command args
    else if text_eq command (codes "new-session") || text_eq command (codes "newsession")
    then ok new_session
    else if text_eq command (codes "help")
    then ok help
    else err (codes "Unknown command: " ++ command)

abbrev from_tokens : List Text → Parsed
from_tokens [] = ok help
from_tokens (command ∷ args) = command_of command args

-- `eq_ignore_ascii_case` with a lower-case literal.
abbrev is_prefix : Text → Bool
is_prefix token =
    text_eq (to_ascii_lowercase token) (codes "/palin")
    || text_eq (to_ascii_lowercase token) (codes "palin")

abbrev strip_prefix : List Text → List Text
strip_prefix [] = []
strip_prefix (first ∷ rest) = if is_prefix first then rest else first ∷ rest

unfoldable pub from_str : Text → Parsed
from_str input = from_tokens (strip_prefix (split_whitespace input))

-- ===== src/Resume/NextStep.antt =====
-- The step to continue from, as src/resume/new_session.rs reads it from a next-step file.
pub mod Headings
use palingenesis.Prelude.{
  ℕ, ◌∷◌, [], List, Bool, true, false, Option, none, some, ◌==◌, ◌||◌, if◌then◌else◌, get_or, drop,
  ◌++◌,
}
use palingenesis.Prelude.Words.{max_u32}
use palingenesis.Prelude.Text.{
  Text, codes, is_empty, trim, trim_start_by, to_ascii_lowercase, starts_with, lines,
}
use palingenesis.Prelude.Number.{is_digit, parse_uint, decimal}

pub record NextStepInfo : Type 0 where
  pub step_number : ℕ  -- u32
  pub description : Text
  pub raw_content : Text

-- `trim_start_matches(['.', ':', ')', '-'])`
abbrev pub is_separator : ℕ → Bool
is_separator c = c == b'.' || c == b':' || c == b')' || c == b'-'

abbrev pub is_hash : ℕ → Bool
is_hash c = c == b'#'

abbrev with_digit : Bool → ℕ → Text → Text × Text → Text × Text
with_digit true c s (digits, rest) = (c ∷ digits, rest)
with_digit false c s _ = ([], c ∷ s)

-- The loop over `char_indices`: the digits in front, and the rest.
unfoldable pub leading_digits : Text → Text × Text
unfolding is_digit
leading_digits [] = ([], [])
leading_digits (c ∷ s) = with_digit (is_digit c) c s (leading_digits s)

abbrev with_rest : Text → Option ℕ → Option (ℕ × Text)
with_rest rest none = none
with_rest rest (some number) = some (number, trim (trim_start_by is_separator rest))

abbrev number_of : Text × Text → Option (ℕ × Text)
number_of (digits, rest) =
    if is_empty digits then none else with_rest rest (parse_uint max_u32 digits)

unfoldable pub parse_leading_number : Text → Option (ℕ × Text)
parse_leading_number input = number_of (leading_digits input)

-- The line without its `#` in front.
unfoldable pub parse_cleaned : Text → Option (ℕ × Text)
parse_cleaned cleaned =
    if starts_with (to_ascii_lowercase cleaned) (codes "step ")
    then parse_leading_number (trim (drop 4 cleaned))
    else parse_leading_number cleaned

unfoldable pub parse_step_line : Text → Option (ℕ × Text)
unfolding parse_cleaned
parse_step_line line = parse_cleaned (trim (trim_start_by is_hash line))

-- The step number and the description found so far.
abbrev pub Found : Type 0
Found = Option ℕ × Option Text

abbrev describe : Text → Option Text → Option Text
describe trimmed (some description) = some description
describe trimmed none = if starts_with trimmed (codes "#") then none else some trimmed

abbrev on_step : Text → Option Text → Option (ℕ × Text) → Found
on_step trimmed description none = (none, describe trimmed description)
on_step trimmed description (some (step, desc)) =
    (some step, if is_empty desc then description else some desc)

abbrev on_content : Text → Found → Found
on_content trimmed (some step, description) = (some step, describe trimmed description)
on_content trimmed (none, description) = on_step trimmed description (parse_step_line trimmed)

abbrev on_trimmed : Text → Found → Found
on_trimmed trimmed found = if is_empty trimmed then found else on_content trimmed found

-- One turn of the loop over the lines.
unfoldable pub on_line : Text → Found → Found
on_line line found = on_trimmed (trim line) found

unfoldable pub on_lines : List Text → Found → Found
unfolding on_line
on_lines [] found = found
on_lines (line ∷ rest) found = on_lines rest (on_line line found)

abbrev pub continue_from : ℕ → Text
continue_from step = codes "Continue from step " ++ decimal step

abbrev finish : Text → Found → Option NextStepInfo
finish content (none, _) = none
finish content (some step, description) = some (record {
  step_number = step;
  description = get_or description (continue_from step);
  raw_content = content;
})

unfoldable pub parse_next_step : Text → Option NextStepInfo
parse_next_step content = finish content (on_lines (lines content) (none, none))

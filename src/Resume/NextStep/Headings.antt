-- ===== src/Resume/NextStep/Headings.antt =====
-- A next-step file that begins with a heading such as `# Step 7: Write the tests`
-- (src/resume/new_session.rs).
use palingenesis.Prelude.{
  ℕ, ◌≤◌, ◌≡◌, ◌≢◌, ◌∙◌, refl, List, [], ◌∷◌, ◌++◌, false, none, some, All, arith,
}
use palingenesis.Prelude.Words.{max_u32}
use palingenesis.Prelude.Text.{
  Text, ascii_lower, codes, is_empty, is_whitespace, trim, trim_start_by, trim_end, lines,
  starts_with,
}
use palingenesis.Prelude.Number.{
  is_digit, IsDigit, decimal, decimal-IsDigit, decimal-ne-nil, parse_uint-decimal,
}
use palingenesis.Resume.NextStep.{
  leading_digits, parse_leading_number, parse_cleaned, parse_step_line, parse_next_step,
  is_separator, on_lines, on_line,
}

leading_digits-digits :
    (s : Text) (c : ℕ) (rest : Text)
    → All IsDigit s
    → is_digit c ≡ false
    → leading_digits (s ++ c ∷ rest) ≡ (s, c ∷ rest)
unfolding leading_digits
leading_digits-digits [] c rest _ h = rw h refl
leading_digits-digits (d ∷ s) c rest (k, ks) h = rw (k, leading_digits-digits s c rest ks h) refl

-- A text that is not empty, and neither begins nor ends with white space.
pub record IsTrimmed (s : Text) : Type 0 where
  pub not_empty : s ≢ []
  pub start : trim_start_by is_whitespace s ≡ s
  pub end : trim_end s ≡ s

trim_end-append : (s t : Text) → t ≢ [] → trim_end t ≡ t → trim_end (s ++ t) ≡ s ++ t
unfolding trim_end
trim_end-append [] t h e = e
trim_end-append (c ∷ []) [] h e = absurd (h refl)
trim_end-append (c ∷ []) (d ∷ t) h e = rw e refl
trim_end-append (c ∷ d ∷ s) t h e = rw (trim_end-append (d ∷ s) t h e) refl

trim_of :
    (c : ℕ) (s t : Text) → is_whitespace c ≡ false → IsTrimmed t → trim (c ∷ s ++ t) ≡ c ∷ s ++ t
unfolding trim trim_start_by
trim_of c s t h good = rw h (trim_end-append (c ∷ s) t good.not_empty good.end)

trim_space : (s : Text) → trim (32 ∷ s) ≡ trim s
unfolding trim trim_start_by is_whitespace
trim_space s = refl

trim_trimmed : (t : Text) → IsTrimmed t → trim t ≡ t
unfolding trim
trim_trimmed t good = rw good.start good.end

digit-not-whitespace : (c : ℕ) → IsDigit c → is_whitespace c ≡ false
unfolding is_digit is_whitespace
digit-not-whitespace c h = ground arith

trim_digits : (s t : Text) → s ≢ [] → All IsDigit s → IsTrimmed t → trim (s ++ t) ≡ s ++ t
trim_digits [] t h k good = absurd (h refl)
trim_digits (c ∷ s) t h (k, _) good = trim_of c s t (digit-not-whitespace c k) good

is_empty_of : {A : Type 0} (s : List A) → s ≢ [] → is_empty s ≡ false
is_empty_of [] h = absurd (h refl)
is_empty_of (c ∷ s) h = refl

parse_leading_number-decimal :
    (n : ℕ) (d : Text)
    → n ≤ max_u32
    → IsTrimmed d
    → parse_leading_number (decimal n ++ (codes ": " ++ d)) ≡ some (n, d)
unfolding parse_leading_number codes trim_start_by is_digit
parse_leading_number-decimal n d h good =
    let split = leading_digits-digits (decimal n) 58 (32 ∷ d) (decimal-IsDigit n) refl in
    let some_digits : is_empty (decimal n) ≡ false = is_empty_of (decimal n) (decimal-ne-nil n) in
    let rest : trim (trim_start_by is_separator (58 ∷ 32 ∷ d)) ≡ d =
      trim_space d ∙ trim_trimmed d good in
    rw (parse_leading_number, split, some_digits, parse_uint-decimal max_u32 n h, rest) refl

-- The heading of a step.
abbrev pub heading : ℕ → Text → Text
heading n d = codes "# Step " ++ (decimal n ++ (codes ": " ++ d))

colon-IsTrimmed : (d : Text) → IsTrimmed d → IsTrimmed (58 ∷ 32 ∷ d)
unfolding trim_start_by is_whitespace
colon-IsTrimmed d good = record {
  not_empty = λ e. cc;
  start = refl;
  end = trim_end-append (58 ∷ 32 ∷ []) d good.not_empty good.end;
}

-- The heading `# Step n: d` of a step is read back as its number and its description, for every
-- 32-bit number and every description that is not empty and has no white space at its ends.
parse_step_line-heading :
    (n : ℕ) (d : Text) → n ≤ max_u32 → IsTrimmed d → parse_step_line (heading n d) ≡ some (n, d)
unfolding parse_step_line codes trim_start_by is_whitespace starts_with ascii_lower
parse_step_line-heading n d h good =
    let tail = decimal n ++ 58 ∷ 32 ∷ d in
    let cleaned : trim (32 ∷ 83 ∷ 116 ∷ 101 ∷ 112 ∷ 32 ∷ tail) ≡ 83 ∷ 116 ∷ 101 ∷ 112 ∷ 32 ∷ tail =
      trim_space _
      ∙ trim_of 83 (116 ∷ 101 ∷ 112 ∷ 32 ∷ decimal n) (58 ∷ 32 ∷ d) refl (colon-IsTrimmed d good) in
    let remainder : trim (32 ∷ tail) ≡ tail =
      trim_space _
      ∙ trim_digits (decimal n) (58 ∷ 32 ∷ d) (decimal-ne-nil n) (decimal-IsDigit n)
          (colon-IsTrimmed d good) in
    rw (parse_step_line, cleaned, parse_cleaned, remainder)
      (parse_leading_number-decimal n d h good)

heading-trimmed : (n : ℕ) (d : Text) → IsTrimmed d → trim (heading n d) ≡ heading n d
unfolding codes
heading-trimmed n d good =
    trim_of 35 (32 ∷ 83 ∷ 116 ∷ 101 ∷ 112 ∷ 32 ∷ decimal n) (58 ∷ 32 ∷ d)
      (unfold is_whitespace in refl) (colon-IsTrimmed d good)

on_line-found : (line : Text) (n : ℕ) (d : Text) → on_line line (some n, some d) ≡ (some n, some d)
unfolding on_line
on_line-found line n d = ground arith

-- What a step line and its description have settled, no later line changes.
on_lines-found :
    (rest : List Text) (n : ℕ) (d : Text) → on_lines rest (some n, some d) ≡ (some n, some d)
unfolding on_lines
on_lines-found [] n d = refl
on_lines-found (line ∷ rest) n d = rw (on_line-found line n d) (on_lines-found rest n d)

on_line-heading :
    (n : ℕ) (d : Text)
    → n ≤ max_u32
    → IsTrimmed d
    → on_line (heading n d) (none, none) ≡ (some n, some d)
unfolding on_line
on_line-heading n d h good =
    let taken : is_empty d ≡ false = is_empty_of d good.not_empty in
    rw (on_line, heading-trimmed n d good, parse_step_line-heading n d h good, taken)
      (unfold codes in refl)

-- A next-step file whose first line is the heading `# Step n: d`, for an n that fits into a u32 and
-- a d that is not empty and has no white space at its ends, gives the step n with the description
-- d, whatever the lines behind it say, and carries the whole file along.
pub parse_next_step-heading :
    (content : Text) (n : ℕ) (d : Text) (rest : List Text)
    → lines content ≡ heading n d ∷ rest
    → n ≤ max_u32
    → IsTrimmed d
    → parse_next_step content
      ≡ some (record { step_number = n; description = d; raw_content = content })
unfolding parse_next_step on_lines
parse_next_step-heading content n d rest e h good =
    rw (parse_next_step, e, on_lines, on_line-heading n d h good, on_lines-found rest n d) refl

-- ===== src/Monitor/Frontmatter/Extract.antt =====
-- What `extract_frontmatter` of src/monitor/frontmatter.rs takes out of a file.
use mathlib.Core.List.{append-nil, append_assoc}
use palingenesis.Prelude.{
  ◌≡◌, ◌↔◌, ◌∙◌, refl, sym, ap, true, false, List, [], ◌∷◌, ◌++◌, map, Result, ok, err, All, arith,
  inl, inr, Bool-cases,
}
use palingenesis.Prelude.Text.{Text}
use palingenesis.Monitor.Frontmatter.{IoError, delimiter, collect, extract_lines}

abbrev pub Lines : Type 0
Lines = List (Result Text IoError)

-- The lines, each with a newline at its end.
abbrev pub unlines : List Text → Text
unlines [] = []
unlines (line ∷ rest) = line ++ 10 ∷ [] ++ unlines rest

-- A line that is not a delimiter.
abbrev pub IsInner : Text → Type 0
IsInner line = delimiter line ≡ false

-- Lines that begin with a body of inner lines and a delimiter behind it.
pub record Closed (lines : Lines) (body : List Text) : Type 0 where
  pub close : Text
  pub rest : Lines
  pub shape : lines ≡ map ok body ++ ok close ∷ rest
  pub is_close : delimiter close ≡ true
  pub inner : All IsInner body

regroup : (acc line rest : Text) → acc ++ line ++ 10 ∷ [] ++ rest ≡ acc ++ (line ++ 10 ∷ [] ++ rest)
regroup acc line rest =
    append_assoc (acc ++ line) (10 ∷ []) rest
    ∙ append_assoc acc line (10 ∷ rest)
    ∙ ap (λ t. acc ++ t) (sym (append_assoc line (10 ∷ []) rest))

collect-body :
    (acc : Text) (body : List Text) (close : Text) (rest : Lines)
    → delimiter close ≡ true
    → All IsInner body
    → collect acc (map ok body ++ ok close ∷ rest) ≡ ok (acc ++ unlines body)
unfolding collect
collect-body acc [] close rest h _ = rw (h, append-nil acc) refl
collect-body acc (line ∷ body) close rest h (k, ks) = rw k (
    collect-body (acc ++ line ++ 10 ∷ []) body close rest h ks
    ∙ ap ok (regroup acc line (unlines body)))

collect-Closed :
    (acc t : Text) (lines : Lines)
    → collect acc lines ≡ ok t
    → (body : List Text) × Closed lines body × (t ≡ acc ++ unlines body)
unfolding collect
collect-Closed acc t [] e = absurd (ground arith)
collect-Closed acc t (err x ∷ lines) e = absurd (ground arith)
collect-Closed acc t (ok line ∷ lines) e = elim (Bool-cases (delimiter line)) [
  | inl close ↦ (
    [],
    record { close = line; rest = lines; shape = refl; is_close = close; inner = tt },
    ground (arith, append-nil acc),
  )
  | inr inner ↦
      let (body, c, h) = collect-Closed (acc ++ line ++ 10 ∷ []) t lines (ground arith) in
      (
        line ∷ body,
        record {
          close = c.close;
          rest = c.rest;
          shape = ap (λ ls. ok line ∷ ls) c.shape;
          is_close = c.is_close;
          inner = (inner, c.inner);
        },
        h ∙ regroup acc line (unlines body),
      )
]

extract_lines-fenced :
    (t first : Text) (rest : Lines) (body : List Text)
    → delimiter first ≡ true
    → Closed rest body
    → t ≡ unlines body
    → extract_lines (ok first ∷ rest) ≡ ok t
unfolding extract_lines
extract_lines-fenced t first rest body begins c h =
    rw (begins, c.shape, h) (collect-body [] body c.close c.rest c.is_close c.inner)

fences :
    (lines : Lines) (t : Text)
    → extract_lines lines ≡ ok t
    → (first : Text) × (rest : Lines) × (body : List Text) × (lines ≡ ok first ∷ rest)
      × (delimiter first ≡ true)
      × Closed rest body
      × (t ≡ unlines body)
unfolding extract_lines
fences [] t e = absurd (ground arith)
fences (err x ∷ lines) t e = absurd (ground arith)
fences (ok line ∷ lines) t e = elim (Bool-cases (delimiter line)) [
  | inr inner ↦ absurd (ground arith)
  | inl begins ↦
      let (body, c, h) = collect-Closed [] t lines (ground arith) in
      (line, lines, body, refl, begins, c, h)
]

-- A file has the frontmatter `t` exactly when its first line is a delimiter, its next ones are lines
-- that are none and together make up `t`, and the line behind them is a delimiter. What follows,
-- even a line that cannot be read, makes no difference.
pub extract_lines_iff :
    (lines : Lines) (t : Text)
    → (extract_lines lines ≡ ok t) ↔ (
        (first : Text) × (rest : Lines) × (body : List Text) × (lines ≡ ok first ∷ rest)
        × (delimiter first ≡ true)
        × Closed rest body
        × (t ≡ unlines body))
extract_lines_iff lines t = (
  fences lines t,
  λ (first, rest, body, e, begins, c, h). rw e (extract_lines-fenced t first rest body begins c h),
)

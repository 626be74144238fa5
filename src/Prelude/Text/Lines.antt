-- ===== src/Prelude/Text/Lines.antt =====
-- The lines of texts that are put together.
use Prim.Native.Nat.{ℕ}
use mathlib.Core.Path.{◌≡◌, refl, ap, ◌∙◌}
use mathlib.Core.Bool.{Bool, true, false, not, ◌&&◌}
use mathlib.Core.List.{List, [], ◌∷◌, ◌++◌}
use native.Mathlib.Omega.{arith}
use palingenesis.Prelude.Tests.{◌==◌, if◌then◌else◌}
use palingenesis.Prelude.Lists.{all}
use palingenesis.Prelude.Text.{Text, lines, push_front, next_is_newline, is_empty}

-- A text that is empty or ends with a newline.
abbrev pub ends_line : Text → Bool
ends_line [] = true
ends_line (c ∷ []) = c == 10
ends_line (c ∷ d ∷ s) = ends_line (d ∷ s)

-- A character that ends no line and is in no end of a line.
abbrev pub stays : ℕ → Bool
stays c = not (c == 10) && not (c == 13)

push_front-append :
    (c : ℕ) (parts more : List Text)
    → is_empty parts ≡ false
    → push_front c (parts ++ more) ≡ push_front c parts ++ more
push_front-append c [] more h = cc
push_front-append c (s ∷ parts) more h = refl

-- `lines` at one character: `ends` when a newline follows.
abbrev line_step : ℕ → Bool → List Text → List Text
line_step c ends rest =
    if c == 10 then [] ∷ rest else if c == 13 && ends then rest else push_front c rest

step_is_empty :
    (c : ℕ) (ends : Bool) (rest : List Text)
    → is_empty rest ≡ false
    → is_empty (line_step c ends rest) ≡ false
step_is_empty c ends [] h = cc
step_is_empty c ends (s ∷ parts) h = ground arith

step_append :
    (c : ℕ) (ends : Bool) (rest more : List Text)
    → is_empty rest ≡ false
    → line_step c ends (rest ++ more) ≡ line_step c ends rest ++ more
step_append c ends [] more h = cc
step_append c ends (s ∷ parts) more h = ground arith

lines-is_empty : (c : ℕ) (s : Text) → is_empty (lines (c ∷ s)) ≡ false
unfolding lines
lines-is_empty c [] = ground arith
lines-is_empty c (d ∷ s) = step_is_empty c (d == 10) (lines (d ∷ s)) (lines-is_empty d s)

pub lines-append : (s t : Text) → ends_line s ≡ true → lines (s ++ t) ≡ lines s ++ lines t
unfolding lines
lines-append [] t h = refl
lines-append (c ∷ []) t h = rw h refl
lines-append (c ∷ d ∷ s) t h =
    ap (line_step c (d == 10)) (lines-append (d ∷ s) t h)
    ∙ step_append c (d == 10) (lines (d ∷ s)) (lines t) (lines-is_empty d s)

stays_step :
    (c : ℕ) (ends : Bool) (s : Text) (parts : List Text)
    → stays c ≡ true
    → line_step c ends (s ∷ parts) ≡ (c ∷ s) ∷ parts
stays_step c ends s parts h = ground arith

-- A line and its newline are one line.
pub lines-line : (line : Text) → all stays line ≡ true → lines (line ++ 10 ∷ []) ≡ line ∷ []
unfolding lines
lines-line [] h = refl
lines-line (c ∷ line) h =
    let (first, others) = both (stays c) (all stays line) h in
    ap (line_step c (next_is_newline (line ++ 10 ∷ []))) (lines-line line others)
    ∙ stays_step c (next_is_newline (line ++ 10 ∷ [])) line [] first
  where
    both : (a b : Bool) → a && b ≡ true → (a ≡ true) × (b ≡ true)
    both true b h = (refl, h)
    both false b h = cc

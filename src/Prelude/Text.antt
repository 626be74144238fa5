-- ===== src/Prelude/Text.antt =====
-- Texts as lists of code points, with the operations of Rust's `str` that the program calls.
pub mod Lines
use Prim.Native.Nat.{ℕ, zero, suc, ◌+◌, ◌-◌}
use Prim.Native.Char.{code}
use Prim.Native.String.{String}
use mathlib.Core.Path.{◌≡◌, refl}
use mathlib.Core.Logic.{◌↔◌, inl, inr}
use mathlib.Core.Bool.{Bool, true, false, ◌&&◌, ◌||◌}
use mathlib.Core.List.{List, [], ◌∷◌, ◌++◌, map}
use native.Mathlib.Omega.{arith}
use palingenesis.Prelude.Tests.{Bool-cases, leb, ltb, ◌==◌, if◌then◌else◌}
use palingenesis.Prelude.Lists.{length}

abbrev pub Text : Type 0
Text = List ℕ

-- `str::len`: the bytes of the UTF-8 form.
abbrev pub utf8_len : Text → ℕ
utf8_len [] = 0
utf8_len (c ∷ s) =
    (if ltb c 0x80 then 1 else if ltb c 0x800 then 2 else if ltb c 0x10000 then 3 else 4)
    + utf8_len s

-- A literal of the source.
unfoldable pub codes : String → Text
codes String.[] = []
codes (String.◌∷◌ c s) = code c ∷ codes s

unfoldable pub text_eq : Text → Text → Bool
text_eq [] [] = true
text_eq [] (_ ∷ _) = false
text_eq (_ ∷ _) [] = false
text_eq (c ∷ s) (d ∷ t) = c == d && text_eq s t

pub text_eq_refl : (s : Text) → text_eq s s ≡ true
unfolding text_eq
text_eq_refl [] = refl
text_eq_refl (c ∷ s) = ground (arith, text_eq_refl s)

pub text_eq_sound : (s t : Text) → text_eq s t ≡ true → s ≡ t
unfolding text_eq
text_eq_sound [] [] h = refl
text_eq_sound [] (d ∷ t) h = cc
text_eq_sound (c ∷ s) [] h = cc
text_eq_sound (c ∷ s) (d ∷ t) h = ground (arith, text_eq_sound s t)

pub text_eq-false : (s t : Text) → text_eq s t ≡ false → text_eq t s ≡ false
text_eq-false s t h = elim (Bool-cases (text_eq t s)) [
  | inl same ↦ absurd (ground (arith, text_eq_sound t s same, text_eq_refl s))
  | inr other ↦ other
]

pub text_eq_iff : (s t : Text) → (text_eq s t ≡ true) ↔ (s ≡ t)
text_eq_iff s t = (text_eq_sound s t, λ e. rw e (text_eq_refl t))

abbrev pub is_empty {ℓ} : {A : Type ℓ} → List A → Bool
is_empty [] = true
is_empty (_ ∷ _) = false

-- `char::is_whitespace`: the code points with the property White_Space.
unfoldable pub is_whitespace : ℕ → Bool
is_whitespace c =
    leb 9 c && leb c 13
    || c == 32
    || c == 0x85
    || c == 0xa0
    || c == 0x1680
    || leb 0x2000 c && leb c 0x200a
    || c == 0x2028
    || c == 0x2029
    || c == 0x202f
    || c == 0x205f
    || c == 0x3000

-- `trim_start_matches` and `trim_start`.
unfoldable pub trim_start_by : (ℕ → Bool) → Text → Text
trim_start_by p [] = []
trim_start_by p (c ∷ s) = if p c then trim_start_by p s else c ∷ s

unfoldable pub trim_end : Text → Text
trim_end [] = []
trim_end (c ∷ s) =
    let rest = trim_end s in if is_empty rest && is_whitespace c then [] else c ∷ rest

unfoldable pub trim : Text → Text
unfolding trim_start_by trim_end is_whitespace
trim s = trim_end (trim_start_by is_whitespace s)

unfoldable pub ascii_lower : ℕ → ℕ
ascii_lower c = if leb b'A' c && leb c b'Z' then c + 32 else c

unfoldable pub ascii_upper : ℕ → ℕ
ascii_upper c = if leb b'a' c && leb c b'z' then c - 32 else c

abbrev pub to_ascii_lowercase : Text → Text
to_ascii_lowercase = map ascii_lower

abbrev pub to_ascii_uppercase : Text → Text
to_ascii_uppercase = map ascii_upper

unfoldable pub starts_with : Text → Text → Bool
starts_with s [] = true
starts_with [] (_ ∷ _) = false
starts_with (c ∷ s) (d ∷ t) = c == d && starts_with s t

unfoldable pub contains : Text → Text → Bool
unfolding starts_with
contains [] t = is_empty t
contains (c ∷ s) t = starts_with (c ∷ s) t || contains s t

abbrev pub push_front : ℕ → List Text → List Text
push_front c [] = (c ∷ []) ∷ []
push_front c (s ∷ parts) = (c ∷ s) ∷ parts

-- `str::split` by a text that is not empty; the number is how much of a separator is left to skip.
split_from : Text → ℕ → Text → List Text
unfolding starts_with
split_from sep skip [] = [] ∷ []
split_from sep (suc skip) (c ∷ s) = split_from sep skip s
split_from sep zero (c ∷ s) = elim (starts_with (c ∷ s) sep) [
  | true ↦ [] ∷ split_from sep (length sep - 1) s
  | false ↦ push_front c (split_from sep zero s)
]

unfoldable pub split : Text → Text → List Text
unfolding split_from
split s sep = split_from sep 0 s

-- `str::replace`.
replace_from : Text → Text → ℕ → Text → Text
unfolding starts_with
replace_from old new skip [] = []
replace_from old new (suc skip) (c ∷ s) = replace_from old new skip s
replace_from old new zero (c ∷ s) = elim (starts_with (c ∷ s) old) [
  | true ↦ new ++ replace_from old new (length old - 1) s
  | false ↦ c ∷ replace_from old new zero s
]

unfoldable pub replace : Text → Text → Text → Text
unfolding replace_from
replace s old new = replace_from old new 0 s

abbrev pub next_is_newline : Text → Bool
next_is_newline [] = false
next_is_newline (c ∷ _) = c == 10

-- `str::lines`: "\n" and "\r\n" end a line, and a last empty line does not count.
unfoldable pub lines : Text → List Text
lines [] = []
lines (c ∷ s) =
    let rest = lines s in
    if c == 10 then [] ∷ rest else if c == 13 && next_is_newline s then rest else push_front c rest

-- `str::split_whitespace`: the words; the head of the pair is the word that is being read.
words_from : Text → Text × List Text
unfolding is_whitespace
words_from [] = ([], [])
words_from (c ∷ s) =
    let (word, rest) = words_from s in
    if is_whitespace c then ([], if is_empty word then rest else word ∷ rest) else (c ∷ word, rest)

unfoldable pub split_whitespace : Text → List Text
unfolding words_from
split_whitespace s = let (word, rest) = words_from s in if is_empty word then rest else word ∷ rest

-- `[&str]::join`.
unfoldable pub join : Text → List Text → Text
join sep [] = []
join sep (s ∷ []) = s
join sep (s ∷ t ∷ parts) = s ++ sep ++ join sep (t ∷ parts)

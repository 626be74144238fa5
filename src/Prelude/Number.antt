-- ===== src/Prelude/Number.antt =====
-- Decimal numbers: how an unsigned integer is displayed, and `str::parse` into one.
use Prim.Native.Nat.{ℕ, zero, suc, ◌+◌, ◌-◌, ◌*◌, ◌/◌, ◌%◌, ◌≤◌, ◌<◌}
use mathlib.Core.Path.{◌≡◌, refl}
use mathlib.Core.Logic.{◌≢◌, inl, inr}
use mathlib.Core.Bool.{Bool, true, ◌&&◌}
use mathlib.Core.Option.{Option, none, some}
use mathlib.Core.List.{[], ◌∷◌, ◌++◌}
use native.Mathlib.Omega.{arith}
use palingenesis.Prelude.Tests.{ltb, leb, ◌==◌, if◌then◌else◌, Bool-cases}
use palingenesis.Prelude.Lists.{All, All-append}
use palingenesis.Prelude.Text.{Text, is_empty}

unfoldable pub is_digit : ℕ → Bool
is_digit c = leb b'0' c && leb c b'9'

abbrev pub IsDigit : ℕ → Type 0
IsDigit c = is_digit c ≡ true

-- `n / 10` is below `n`, so that `n + 1` rounds are enough.
unfoldable pub decimal_from : ℕ → ℕ → Text
decimal_from zero n = []
decimal_from (suc fuel) n =
    let front = decimal_from fuel (n / 10) in
    if ltb n 10 then (b'0' + n) ∷ [] else front ++ (b'0' + n % 10) ∷ []

unfoldable pub decimal : ℕ → Text
unfolding decimal_from
decimal n = decimal_from (suc n) n

-- The digits of a number of at most `most`, after those that make `acc`.
unfoldable pub scan : ℕ → ℕ → Text → Option ℕ
unfolding is_digit
scan most acc [] = some acc
scan most acc (c ∷ s) =
    let next = acc * 10 + (c - b'0') in
    let rest = scan most next s in if is_digit c then if leb next most then rest else none else none

abbrev unsigned : ℕ → Text → Option ℕ
unsigned most s = if is_empty s then none else scan most 0 s

-- `s.parse::<uN>().ok()`, where `most` is the type's greatest value: a "+" may stand in front.
unfoldable pub parse_uint : ℕ → Text → Option ℕ
unfolding scan
parse_uint most [] = none
parse_uint most (c ∷ s) = if c == b'+' then unsigned most s else scan most 0 (c ∷ s)

scan-append_one :
    (most acc d v : ℕ) (s : Text)
    → scan most acc s ≡ some v
    → d < 10
    → v * 10 + d ≤ most
    → scan most acc (s ++ (b'0' + d) ∷ []) ≡ some (v * 10 + d)
unfolding scan
scan-append_one most acc d v [] e h k = ground arith
scan-append_one most acc d v (c ∷ s) e h k =
    ground (arith, scan-append_one most (acc * 10 + (c - b'0')) d v s)

scan-decimal_from :
    (most fuel n : ℕ) → n < fuel → n ≤ most → scan most 0 (decimal_from fuel n) ≡ some n
unfolding decimal_from
scan-decimal_from most zero n h k = elim h [ ]
scan-decimal_from most (suc fuel) n h k = elim (Bool-cases (ltb n 10)) [
  | inl small ↦ rw small (unfold scan in ground arith)
  | inr large ↦ rw large (
      let whole : n / 10 * 10 + n % 10 ≡ n = omega arith in
      let e =
        scan-append_one most 0 (n % 10) (n / 10) (decimal_from fuel (n / 10))
          (scan-decimal_from most fuel (n / 10) (ground arith) (omega arith)) (omega arith)
          (omega arith) in
      rw whole at e)
]

pub scan-decimal : (most n : ℕ) → n ≤ most → scan most 0 (decimal n) ≡ some n
unfolding decimal
scan-decimal most n h = scan-decimal_from most (suc n) n (omega arith) h

decimal_from-IsDigit : (fuel n : ℕ) → All IsDigit (decimal_from fuel n)
unfolding decimal_from is_digit
decimal_from-IsDigit zero n = tt
decimal_from-IsDigit (suc fuel) n = elim (Bool-cases (ltb n 10)) [
  | inl small ↦ rw small (ground arith, tt)
  | inr large ↦ rw large (
      All-append IsDigit (decimal_from fuel (n / 10)) _ (decimal_from-IsDigit fuel (n / 10))
        (ground arith, tt))
]

pub decimal-IsDigit : (n : ℕ) → All IsDigit (decimal n)
unfolding decimal
decimal-IsDigit n = decimal_from-IsDigit (suc n) n

append_one-ne-nil : (s : Text) (c : ℕ) → s ++ c ∷ [] ≢ []
append_one-ne-nil [] c e = cc
append_one-ne-nil (d ∷ s) c e = cc

pub decimal-ne-nil : (n : ℕ) → decimal n ≢ []
unfolding decimal decimal_from
decimal-ne-nil n = elim (Bool-cases (ltb n 10)) [
  | inl small ↦ rw small (λ e. cc)
  | inr large ↦ rw large (append_one-ne-nil _ _)
]

parse_uint_of_digits :
    (most : ℕ) (s : Text) → s ≢ [] → All IsDigit s → parse_uint most s ≡ scan most 0 s
unfolding parse_uint is_digit
parse_uint_of_digits most [] h k = absurd (h refl)
parse_uint_of_digits most (c ∷ s) h k = ground (arith, k.0)

-- Printing a number and parsing it back gives the number.
pub parse_uint-decimal : (most n : ℕ) → n ≤ most → parse_uint most (decimal n) ≡ some n
parse_uint-decimal most n h =
    rw (parse_uint_of_digits most _ (decimal-ne-nil n) (decimal-IsDigit n)) (scan-decimal most n h)

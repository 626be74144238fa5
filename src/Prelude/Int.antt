-- ===== src/Prelude/Int.antt =====
-- Signed machine integers (`i32`, `i64`), as integers.
use Prim.Native.Nat.{ℕ, ◌+◌, ◌-◌, ◌^◌}
use mathlib.Core.Bool.{Bool, false}
use mathlib.Core.Option.{Option, none, some}
use mathlib.Core.List.{◌∷◌}
use palingenesis.Prelude.Tests.{leb, ◌==◌, if◌then◌else◌}
use palingenesis.Prelude.Text.{Text}
use palingenesis.Prelude.Number.{decimal}

-- `negsuc n` is -(n + 1).
pub data ℤ : Type 0 where
  pos : ℕ → ℤ
  negsuc : ℕ → ℤ

-- Equality with a literal that is not negative.
abbrev pub is_nat : ℤ → ℕ → Bool
is_nat (pos n) k = n == k
is_nat (negsuc n) k = false

-- `uN::try_from(x).ok()`, where `most` is the type's greatest value.
abbrev pub to_unsigned : ℕ → ℤ → Option ℕ
to_unsigned most (pos n) = if leb n most then some n else none
to_unsigned most (negsuc n) = none

-- The cast `x as usize` of an `i64`, on a 64-bit target.
abbrev pub as_usize : ℤ → ℕ
as_usize (pos n) = n
as_usize (negsuc n) = 2 ^ 64 - (n + 1)

-- `Display`.
unfoldable pub display_int : ℤ → Text
display_int (pos n) = decimal n
display_int (negsuc n) = b'-' ∷ decimal (n + 1)

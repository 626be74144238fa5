-- ===== src/Tests/Floats.antt =====
-- A model of the float operations for tests: thousandths, as integers.
use palingenesis.Prelude.{
  ℕ, zero, suc, ◌+◌, ◌-◌, ◌*◌, ◌/◌, ◌^◌, Bool, true, false, not, leb, if◌then◌else◌, Option, none,
  some,
}
use palingenesis.Prelude.Int.{ℤ, pos, negsuc}
use palingenesis.Prelude.Text.{codes}
use palingenesis.Prelude.Float.{FloatOps}

abbrev neg : ℤ → ℤ
neg (pos zero) = pos zero
neg (pos (suc n)) = negsuc n
neg (negsuc n) = pos (suc n)

abbrev minus : ℕ → ℕ → ℤ
minus a b = if leb b a then pos (a - b) else negsuc (b - a - 1)

abbrev add : ℤ → ℤ → ℤ
add (pos a) (pos b) = pos (a + b)
add (pos a) (negsuc b) = minus a (suc b)
add (negsuc a) (pos b) = minus b (suc a)
add (negsuc a) (negsuc b) = negsuc (a + b + 1)

abbrev mul : ℤ → ℤ → ℤ
mul (pos a) (pos b) = pos (a * b / 1000)
mul (pos a) (negsuc b) = neg (pos (a * suc b / 1000))
mul (negsuc a) (pos b) = neg (pos (suc a * b / 1000))
mul (negsuc a) (negsuc b) = pos (suc a * suc b / 1000)

abbrev div : ℤ → ℤ → ℤ
div (pos a) (pos b) = pos (a * 1000 / b)
div _ _ = pos 0

abbrev le : ℤ → ℤ → Bool
le (pos a) (pos b) = leb a b
le (pos a) (negsuc b) = false
le (negsuc a) (pos b) = true
le (negsuc a) (negsuc b) = leb b a

abbrev lt : ℤ → ℤ → Bool
lt a b = not (le b a)

abbrev to_u64 : ℤ → ℕ
to_u64 (pos n) = n / 1000
to_u64 (negsuc n) = 0

abbrev pub floats : FloatOps ℤ
floats = record {
  of_ℕ = λ n. pos (n * 1000);
  decimal = λ n k. pos (n * 1000 / 10 ^ k);
  neg = neg;
  add = add;
  mul = mul;
  div = div;
  max = λ a b. if le a b then b else a;
  min = λ a b. if le a b then a else b;
  le = le;
  lt = lt;
  fixed = λ k x. codes "?";
  to_u64 = to_u64;
}

-- A generator that gives the low end of the range, and panics on an empty range.
abbrev pub low_end : ℤ → ℤ → ℕ → Option (ℤ × ℕ)
low_end lo hi s = if lt lo hi then some (lo, suc s) else none

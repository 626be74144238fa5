-- ===== src/Prelude/Words.antt =====
-- Machine words: the bounds of Rust's unsigned integers and the saturating operations on them.
use Prim.Native.Nat.{ℕ, ◌+◌, ◌-◌, ◌*◌, ◌^◌, min}

abbrev pub max_u32 : ℕ
max_u32 = 2 ^ 32 - 1

abbrev pub max_u64 : ℕ
max_u64 = 2 ^ 64 - 1

abbrev pub max_u128 : ℕ
max_u128 = 2 ^ 128 - 1

-- `a.saturating_add(b)`, `saturating_mul`; `saturating_sub` is the truncated `-`.
abbrev pub add_u32 : ℕ → ℕ → ℕ
add_u32 a b = min (a + b) max_u32

abbrev pub add_u64 : ℕ → ℕ → ℕ
add_u64 a b = min (a + b) max_u64

abbrev pub mul_u128 : ℕ → ℕ → ℕ
mul_u128 a b = min (a * b) max_u128

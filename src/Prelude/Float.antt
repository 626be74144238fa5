-- ===== src/Prelude/Float.antt =====
-- `f64` and `f32`: the type and its operations are parameters of the definitions that compute with
-- floats. No law of them is assumed here; a theorem that needs one names it as a hypothesis.
use Prim.Native.Nat.{ℕ}
use mathlib.Core.Bool.{Bool}
use palingenesis.Prelude.Text.{Text}

pub record FloatOps (F : Type 0) : Type 0 where
  pub of_ℕ : ℕ → F
  -- A decimal literal: the first number, divided by ten to the second.
  pub decimal : ℕ → ℕ → F
  pub neg : F → F
  pub add : F → F → F
  pub mul : F → F → F
  pub div : F → F → F
  pub max : F → F → F
  pub min : F → F → F
  pub le : F → F → Bool
  pub lt : F → F → Bool
  -- `{:.N}`: a fixed number of decimal places.
  pub fixed : ℕ → F → Text
  -- The saturating cast `x as u64`.
  pub to_u64 : F → ℕ

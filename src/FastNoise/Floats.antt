-- ===== src/FastNoise/Floats.antt =====
-- The operations on floats that fastnoise/src/runtime.rs uses, on bit patterns: a parameter.
use braids_rs.Base.{ℕ}

pub record FloatOps : Type 0 where
  -- `f32::min`, `f32::max`
  pub min : ℕ → ℕ → ℕ
  pub max : ℕ → ℕ → ℕ
  -- `f64::from`, `+` and `/` on `f64`, `as f64` on a `usize`, `as f32`
  pub to_f64 : ℕ → ℕ
  pub add_f64 : ℕ → ℕ → ℕ
  pub div_f64 : ℕ → ℕ → ℕ
  pub usize_to_f64 : ℕ → ℕ
  pub to_f32 : ℕ → ℕ

-- ===== src/Scratch.antt =====
-- src/scratch.rs: the reusable scratch buffers of compile, encode and prepare.
-- The capacity of a vector is not modelled; an `f32` is its bit pattern.
pub mod Reset
mod Examples
use braids_rs.Base.{Bool, List, [], false, if◌then◌else◌, map, not, true, ℕ, ◌∷◌}

-- The head of the list is the end of the vector.
pub record SpareVecs {ℓ} (A : Type ℓ) : Type ℓ where
  pub buffers : List (List A)

abbrev pub is_nil {ℓ} : {A : Type ℓ} → List A → Bool
is_nil [] = true
is_nil (x ∷ xs) = false

-- `if !values.is_empty() { values.clear(); }`
abbrev pub clear_vec {ℓ} : {A : Type ℓ} → List A → List A
clear_vec xs = if not (is_nil xs) then [] else xs

module _ {ℓ} {A : Type ℓ} where
  checkout_from : List (List A) → SpareVecs A × List A
  checkout_from [] = (record { buffers = [] }, [])
  checkout_from (v ∷ vs) = (record { buffers = vs }, v)

  unfoldable pub checkout : SpareVecs A → SpareVecs A × List A
  unfolding checkout_from
  checkout s = checkout_from s.buffers

  unfoldable pub give_back : SpareVecs A → List A → SpareVecs A
  give_back s values = record { buffers = clear_vec values ∷ s.buffers }

  unfoldable pub reset_spares : SpareVecs A → SpareVecs A
  reset_spares s = record { buffers = map clear_vec s.buffers }

pub record PlannerScratch : Type 0 where
  pub bytes : List ℕ
  pub u32s : List ℕ
  pub u64s : List ℕ
  pub f32s : List ℕ
  pub spare_u32s : SpareVecs ℕ
  pub spare_u64s : SpareVecs ℕ
  pub spare_f32s : SpareVecs ℕ

unfoldable pub reset_planner_scratch : PlannerScratch → PlannerScratch
unfolding reset_spares
reset_planner_scratch s = record {
  bytes = clear_vec s.bytes;
  u32s = clear_vec s.u32s;
  u64s = clear_vec s.u64s;
  f32s = clear_vec s.f32s;
  spare_u32s = reset_spares s.spare_u32s;
  spare_u64s = reset_spares s.spare_u64s;
  spare_f32s = reset_spares s.spare_f32s;
}

pub record BatchScratch : Type 0 where
  pub u32s : List ℕ
  pub u64s : List ℕ
  pub f32s : List ℕ
  pub spare_u32s : SpareVecs ℕ
  pub spare_u64s : SpareVecs ℕ
  pub spare_f32s : SpareVecs ℕ

unfoldable pub reset_batch_scratch : BatchScratch → BatchScratch
unfolding reset_spares
reset_batch_scratch s = record {
  u32s = clear_vec s.u32s;
  u64s = clear_vec s.u64s;
  f32s = clear_vec s.f32s;
  spare_u32s = reset_spares s.spare_u32s;
  spare_u64s = reset_spares s.spare_u64s;
  spare_f32s = reset_spares s.spare_f32s;
}

pub record ComputeScratch : Type 0 where
  pub bytes : List ℕ
  pub u32s : List ℕ
  pub f32s : List ℕ
  pub spare_u32s : SpareVecs ℕ
  pub spare_f32s : SpareVecs ℕ

unfoldable pub reset_compute_scratch : ComputeScratch → ComputeScratch
unfolding reset_spares
reset_compute_scratch s = record {
  bytes = clear_vec s.bytes;
  u32s = clear_vec s.u32s;
  f32s = clear_vec s.f32s;
  spare_u32s = reset_spares s.spare_u32s;
  spare_f32s = reset_spares s.spare_f32s;
}

-- The derived defaults.
abbrev pub no_spares : SpareVecs ℕ
no_spares = record { buffers = [] }

abbrev pub new_batch_scratch : BatchScratch
new_batch_scratch = record {
  u32s = [];
  u64s = [];
  f32s = [];
  spare_u32s = no_spares;
  spare_u64s = no_spares;
  spare_f32s = no_spares;
}

abbrev pub new_planner_scratch : PlannerScratch
new_planner_scratch = record {
  bytes = [];
  u32s = [];
  u64s = [];
  f32s = [];
  spare_u32s = no_spares;
  spare_u64s = no_spares;
  spare_f32s = no_spares;
}

abbrev pub new_compute_scratch : ComputeScratch
new_compute_scratch = record {
  bytes = [];
  u32s = [];
  f32s = [];
  spare_u32s = no_spares;
  spare_f32s = no_spares;
}

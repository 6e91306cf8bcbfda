-- ===== src/Pipeline.antt =====
-- src/pipeline.rs: the compiled plan, and its validation.
-- Slots (`u16`) and kernel kinds (`u32`) are numbers; an `f32` is its bit pattern, a number too, and
-- its default `0.0` is the pattern 0. A `HashMap` is an association list.
pub mod Kinds
pub mod Validation
mod Examples
use braids_rs.Base.{
  ℕ, suc, ◌+◌, ◌*◌, ◌==◌, ltb, if◌then◌else◌, Bool, true, false, not, Option, none, some, List, [],
  ◌∷◌, length,
}
use braids_rs.Error.{
  BraidResult, ok, err, ◌>>=◌, ◌>>◌, invalid_spec, length_overflow, wrong_length, duplicate_static,
  undeclared_static, wrong_static_kind, undeclared_binding, duplicate_slot,
}
use Kinds.{
  ElementKind, u32, u64, f32, same_kind, BufferLayout, per_query_scalar, per_query_vector, dynamic,
  BufferAccess, DispatchHint,
}

pub record BufferSpec : Type 0 where
  pub slot : ℕ
  pub element_kind : ElementKind
  pub layout : BufferLayout

pub record BufferBinding : Type 0 where
  pub slot : ℕ
  pub access : BufferAccess

pub record KernelSpec : Type 0 where
  pub kind_id : ℕ
  pub payload : List ℕ
  pub bindings : List BufferBinding
  pub dispatch : DispatchHint

pub record StageSpec : Type 0 where
  pub kernels : List KernelSpec

pub record PipelineShape : Type 0 where
  pub buffers : List BufferSpec
  pub stages : List StageSpec

pub data BufferData : Type 0 where
  u32s u64s f32s : List ℕ → BufferData

pub record StaticBuffer : Type 0 where
  pub slot : ℕ
  pub contents : BufferData

pub record CompiledPlan (M : Type 0) : Type 0 where
  pub pipeline : PipelineShape
  pub static_buffers : List StaticBuffer
  pub planner_meta : M

-- `BufferData::empty`, `kind`, `clear` and `len`.
abbrev pub empty_data : ElementKind → BufferData
empty_data u32 = u32s []
empty_data u64 = u64s []
empty_data f32 = f32s []

abbrev pub data_kind : BufferData → ElementKind
data_kind (u32s vals) = u32
data_kind (u64s vals) = u64
data_kind (f32s vals) = f32

abbrev pub clear_data : BufferData → BufferData
clear_data (u32s vals) = u32s []
clear_data (u64s vals) = u64s []
clear_data (f32s vals) = f32s []

abbrev pub data_values : BufferData → List ℕ
data_values (u32s vals) = vals
data_values (u64s vals) = vals
data_values (f32s vals) = vals

abbrev pub data_len : BufferData → ℕ
data_len d = length (data_values d)

-- `usize` has 64 bits.
abbrev pub usize_mod : ℕ
usize_mod = 18446744073709551616

abbrev pub checked_mul : ℕ → ℕ → Option ℕ
checked_mul a b = if ltb (a * b) usize_mod then some (a * b) else none

check_len : BufferSpec → ℕ → Option ℕ → BraidResult (Unit {0})
check_len spec len none = err (invalid_spec (length_overflow spec.slot))
check_len spec len (some expected) =
    if len == expected then ok tt else err (invalid_spec (wrong_length spec.slot len expected))

layout_len : BufferSpec → BufferLayout → ℕ → ℕ → BraidResult (Unit {0})
unfolding check_len
layout_len spec per_query_scalar query_count len = check_len spec len (some query_count)
layout_len spec (per_query_vector width) query_count len =
    check_len spec len (checked_mul query_count width)
layout_len spec dynamic query_count len = ok tt

unfoldable pub validate_len : BufferSpec → ℕ → ℕ → BraidResult (Unit {0})
unfolding layout_len
validate_len spec query_count len = layout_len spec spec.layout query_count len

-- `HashMap::get`
abbrev pub lookup_spec : ℕ → List (ℕ × BufferSpec) → Option BufferSpec
lookup_spec k [] = none
lookup_spec k ((j, spec) ∷ m) = let rest = lookup_spec k m in if j == k then some spec else rest

-- The loop of `specs_by_slot`, over the map built so far.
unfoldable pub specs_from :
    List (ℕ × BufferSpec) → List BufferSpec → BraidResult (List (ℕ × BufferSpec))
specs_from m [] = ok m
specs_from m (spec ∷ specs) = elim (lookup_spec spec.slot m) [
  | some _ ↦ err (invalid_spec (duplicate_slot spec.slot))
  | none ↦ specs_from ((spec.slot, spec) ∷ m) specs
]

unfoldable pub specs_by_slot : List BufferSpec → BraidResult (List (ℕ × BufferSpec))
unfolding specs_from
specs_by_slot specs = specs_from [] specs

abbrev pub contains : ℕ → List ℕ → Bool
contains k [] = false
contains k (j ∷ js) = let rest = contains k js in if j == k then true else rest

abbrev pub check_static_spec : StaticBuffer → Option BufferSpec → BraidResult (Unit {0})
check_static_spec b none = err (invalid_spec (undeclared_static b.slot))
check_static_spec b (some spec) =
    if same_kind spec.element_kind (data_kind b.contents)
    then ok tt
    else err (invalid_spec (wrong_static_kind b.slot))

-- The loop over the static buffers; `seen` are the slots met so far.
unfoldable pub check_statics :
    List (ℕ × BufferSpec) → List ℕ → List StaticBuffer → BraidResult (Unit {0})
check_statics specs seen [] = ok tt
check_statics specs seen (b ∷ bs) =
    let rest = check_statics specs (b.slot ∷ seen) bs in
    if contains b.slot seen
    then err (invalid_spec (duplicate_static b.slot))
    else (check_static_spec b (lookup_spec b.slot specs) >> rest)

-- The three nested loops over the stages, the kernels and the bindings.
unfoldable pub check_bindings :
    List (ℕ × BufferSpec) → ℕ → ℕ → List BufferBinding → BraidResult (Unit {0})
check_bindings specs stage kernel [] = ok tt
check_bindings specs stage kernel (b ∷ bs) = elim (lookup_spec b.slot specs) [
  | none ↦ err (invalid_spec (undeclared_binding stage kernel b.slot))
  | some _ ↦ check_bindings specs stage kernel bs
]

unfoldable pub check_kernels :
    List (ℕ × BufferSpec) → ℕ → ℕ → List KernelSpec → BraidResult (Unit {0})
unfolding check_bindings
check_kernels specs stage kernel [] = ok tt
check_kernels specs stage kernel (k ∷ ks) =
    check_bindings specs stage kernel k.bindings >> check_kernels specs stage (suc kernel) ks

unfoldable pub check_stages : List (ℕ × BufferSpec) → ℕ → List StageSpec → BraidResult (Unit {0})
unfolding check_kernels
check_stages specs stage [] = ok tt
check_stages specs stage (s ∷ ss) =
    check_kernels specs stage 0 s.kernels >> check_stages specs (suc stage) ss

unfoldable pub validate : {M : Type 0} → CompiledPlan M → BraidResult (Unit {0})
unfolding specs_by_slot check_statics check_stages
validate plan = do
  specs ← specs_by_slot plan.pipeline.buffers
  check_statics specs [] plan.static_buffers
  check_stages specs 0 plan.pipeline.stages

-- `pipeline.buffers.iter().find(..)`: the first declaration of a slot.
abbrev pub find_spec : ℕ → List BufferSpec → Option BufferSpec
find_spec k [] = none
find_spec k (spec ∷ specs) =
    let rest = find_spec k specs in if spec.slot == k then some spec else rest

-- ===== src/Pipeline/Kinds.antt =====
-- src/pipeline.rs: the enumerations that plans and packets share.
use braids_rs.Base.{ℕ, Bool, true, false}

pub data ElementKind : Type 0 where
  u32 u64 f32 : ElementKind

-- The derived equality.
abbrev pub same_kind : ElementKind → ElementKind → Bool
same_kind u32 u32 = true
same_kind u64 u64 = true
same_kind f32 f32 = true
same_kind _ _ = false

pub data BufferLayout : Type 0 where
  per_query_scalar : BufferLayout
  per_query_vector : ℕ → BufferLayout
  dynamic : BufferLayout

pub data BufferAccess : Type 0 where
  read write read_write : BufferAccess

pub data DispatchHint : Type 0 where
  whole_batch query_sharded serial : DispatchHint

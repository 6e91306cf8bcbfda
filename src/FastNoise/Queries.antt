-- ===== src/FastNoise/Queries.antt =====
-- fastnoise/src/runtime.rs: queries into a packet. `checked` tells
-- whether the build checks for overflow: a `usize` that passes 2 ^ 64 then panics, and else it wraps.
pub mod Layout
pub mod Rows
pub mod Encoding
pub mod Single
mod Examples
use braids_rs.Base.{
  Bool, List, Option, Outcome, [], and_then, done, false, length, none, panic, set, some, suc, true,
  ℕ, ◌%◌, ◌*◌, ◌+◌, ◌^◌, ◌∷◌, if◌then◌else◌, ◌&&◌, leb,
}
use braids_rs.Call.{Call}
use braids_rs.Error.{BraidResult, ok, err, from_text}
use braids_rs.Pipeline.{CompiledPlan}
use braids_rs.Pipeline.Kinds.{u32, f32}
use braids_rs.Packet.{JobPacket, ensure, slice, and_try}
use braids_rs.Scratch.{BatchScratch, reset_batch_scratch}
use braids_rs.FastNoise.Floats.{FloatOps}
use braids_rs.FastNoise.Model.{
  GraphDimension, d2, d3, ChunkQuery, grid_2d, grid_3d, ChunkSummary, FastNoisePlannerMeta,
  slot_query_meta, slot_query_f32, slot_query_offsets,
}

abbrev pub usize_mod : ℕ
usize_mod = 2 ^ 64

abbrev pub u32_of : ℕ → ℕ
u32_of n = n % 2 ^ 32

-- `1.0f32`
abbrev pub one_f32 : ℕ
one_f32 = 0x3F800000

-- `a * b` and `a + b` of two `usize`
abbrev pub times : Bool → ℕ → ℕ → Outcome ℕ
times checked a b = if checked && leb usize_mod (a * b) then panic else done ((a * b) % usize_mod)

abbrev pub plus : Bool → ℕ → ℕ → Outcome ℕ
plus checked a b = if checked && leb usize_mod (a + b) then panic else done ((a + b) % usize_mod)

abbrev pub sample_count_2d : Bool → ℕ → ℕ → Outcome ℕ
sample_count_2d checked width height = times checked width height

abbrev pub sample_count_3d : Bool → ℕ → ℕ → ℕ → Outcome ℕ
sample_count_3d checked width height depth =
    and_then (times checked width height) λ area. times checked area depth

-- `ChunkQuery::samples`
unfoldable pub samples : Bool → ChunkQuery → Outcome (BraidResult ℕ)
samples checked (grid_2d width height origin step) =
    and_then (times checked width height) λ n. done (ok n)
samples checked (grid_3d width height depth origin step) =
    and_then (times checked width height)
      λ area. and_then (times checked area depth) λ n. done (ok n)

-- What a query writes: its meta values, its floats, and its count of samples.
pub record QueryRow : Type 0 where
  pub metas : List ℕ
  pub floats : List ℕ
  pub samples : Outcome ℕ

-- The `match` on the dimension of the plan and the query; `none` is `unreachable!`.
unfoldable pub query_row : Bool → GraphDimension → ChunkQuery → Option QueryRow
query_row checked d2 (grid_2d width height (x, y) (dx, dy)) = some (record {
  metas = u32_of width ∷ u32_of height ∷ 1 ∷ [];
  floats = x ∷ y ∷ 0 ∷ dx ∷ dy ∷ one_f32 ∷ [];
  samples = sample_count_2d checked width height;
})
query_row checked d3 (grid_3d width height depth (x, y, z) (dx, dy, dz)) = some (record {
  metas = u32_of width ∷ u32_of height ∷ u32_of depth ∷ [];
  floats = x ∷ y ∷ z ∷ dx ∷ dy ∷ dz ∷ [];
  samples = sample_count_3d checked width height depth;
})
query_row checked d2 (grid_3d width height depth origin step) = none
query_row checked d3 (grid_2d width height origin step) = none

-- `cursor += sample_count_2d(..)` and the like
abbrev pub advance : Bool → ℕ → QueryRow → Outcome ℕ
advance checked cursor r = and_then r.samples λ n. plus checked cursor n

-- `v[base] = ..; v[base + 1] = ..;` and so on.
abbrev pub set_row : List ℕ → ℕ → List ℕ → List ℕ
set_row v base [] = v
set_row v base (x ∷ xs) = set_row (set v base x) (suc base) xs

-- The loop of `encode_batch` over the queries, once for each of the three vectors that it writes, which
-- are lent together through raw pointers. It ends at the first query of the other dimension, and at the
-- first count of samples that overflows, after that query's row and before its offset.
unfoldable pub write_rows :
    Bool → ℕ → (QueryRow → List ℕ) → GraphDimension → ℕ → ℕ → List ChunkQuery → List ℕ → List ℕ
unfolding query_row
write_rows checked width part dim index cursor [] v = v
write_rows checked width part dim index cursor (q ∷ qs) v = elim (query_row checked dim q) [
  | none ↦ v
  | some r ↦ elim (advance checked cursor r) [
    | panic ↦ set_row v (index * width) (part r)
    | done cursor ↦
        write_rows checked width part dim (index + 1) cursor qs (set_row v (index * width) (part r))
  ]
]

unfoldable pub write_offsets : Bool → GraphDimension → ℕ → ℕ → List ChunkQuery → List ℕ → List ℕ
unfolding query_row
write_offsets checked dim index cursor [] v = v
write_offsets checked dim index cursor (q ∷ qs) v = elim (query_row checked dim q) [
  | none ↦ v
  | some r ↦ elim (advance checked cursor r) [
    | panic ↦ v
    | done cursor ↦
        write_offsets checked dim (index + 1) cursor qs (set v (index + 1) (u32_of cursor))
  ]
]

-- Whether the loop reaches its end.
unfoldable pub reaches_end : Bool → GraphDimension → ℕ → List ChunkQuery → Bool
unfolding query_row
reaches_end checked dim cursor [] = true
reaches_end checked dim cursor (q ∷ qs) = elim (query_row checked dim q) [
  | none ↦ false
  | some r ↦ elim (advance checked cursor r) [
    | panic ↦ false
    | done cursor ↦ reaches_end checked dim cursor qs
  ]
]

-- The packet with its three vectors written, and whether nothing panicked. A packet whose own
-- table of slots is wrong panics in `ensure`; it is then as it came.
abbrev pub written :
    Bool → JobPacket → BatchScratch → Outcome JobPacket → Call (Unit {0}) (JobPacket × BatchScratch)
written true p s (done q) = (done (ok tt), (q, s))
written false p s (done q) = (panic, (q, s))
written fine p s panic = (panic, (p, s))

unfoldable pub encode_batch :
    Bool
    → CompiledPlan FastNoisePlannerMeta
    → List ChunkQuery
    → JobPacket × BatchScratch
    → Call (Unit {0}) (JobPacket × BatchScratch)
unfolding reset_batch_scratch ensure write_rows write_offsets reaches_end
encode_batch checked plan queries (p, s) =
    let dim = plan.planner_meta.dimension in
    let n = length queries in
    let p = record p { query_count = n } in
    written (reaches_end checked dim 0 queries) p (reset_batch_scratch s) (
      and_then
        (ensure u32 p slot_query_meta (n * 3) (write_rows checked 3 (λ r. r.metas) dim 0 0 queries))
        λ p.
          and_then
            (ensure f32 p slot_query_f32 (n * 6)
              (write_rows checked 6 (λ r. r.floats) dim 0 0 queries))
            λ p.
              ensure u32 p slot_query_offsets (n + 1)
                (λ v. write_offsets checked dim 0 0 queries (set v 0 0)))

-- `encode_one`, with the vectors of one query.
abbrev pub write_one : Option QueryRow → (QueryRow → List ℕ → List ℕ) → List ℕ → List ℕ
write_one none f v = v
write_one (some r) f v = f r v

abbrev pub is_done : Outcome ℕ → Bool
is_done panic = false
is_done (done n) = true

abbrev pub is_complete : Option QueryRow → Bool
is_complete none = false
is_complete (some r) = is_done r.samples

abbrev pub write_count : Outcome ℕ → List ℕ → List ℕ
write_count panic v = v
write_count (done n) v = set v 1 (u32_of n)

unfoldable pub encode_one :
    Bool
    → CompiledPlan FastNoisePlannerMeta
    → ChunkQuery
    → JobPacket × BatchScratch
    → Call (Unit {0}) (JobPacket × BatchScratch)
unfolding reset_batch_scratch ensure query_row
encode_one checked plan query (p, s) =
    let row = query_row checked plan.planner_meta.dimension query in
    let p = record p { query_count = 1 } in
    written (is_complete row) p (reset_batch_scratch s) (
      and_then (ensure u32 p slot_query_meta 3 (write_one row λ r v. set_row v 0 r.metas)) λ p.
        and_then (ensure f32 p slot_query_f32 6 (write_one row λ r v. set_row v 0 r.floats)) λ p.
          ensure u32 p slot_query_offsets 2
            (write_one row λ r v. write_count r.samples (set v 0 0)))

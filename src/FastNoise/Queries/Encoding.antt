-- ===== src/FastNoise/Queries/Encoding.antt =====
-- fastnoise/src/runtime.rs: what `encode_batch` leaves in a packet.
use braids_rs.Base.{
  Bool, List, Option, [], ap, arith, done, false, if◌then◌else◌, length, refl, set, some, true, ℕ,
  ◌*◌, ◌+◌, ◌==◌, ◌∙◌, ◌∷◌, ◌≡◌, map, All,
}
use braids_rs.Error.{ok}
use braids_rs.Pipeline.{CompiledPlan, BufferData, u32s, f32s}
use braids_rs.Pipeline.Kinds.{u32, f32}
use braids_rs.Packet.{slot_index, JobPacket}
use braids_rs.Packet.Invariant.{IsValid, contents, length-resize}
use braids_rs.Packet.Contents.{ensure_lem}
use braids_rs.Scratch.{BatchScratch, reset_batch_scratch}
use braids_rs.FastNoise.Model.{
  GraphDimension, d2, d3, ChunkQuery, grid_2d, grid_3d, FastNoisePlannerMeta, slot_query_meta,
  slot_query_f32, slot_query_offsets,
}
use braids_rs.FastNoise.Queries.{QueryRow, query_row, write_rows, write_offsets, encode_batch}
use braids_rs.FastNoise.Queries.Layout.{
  IsOf, meta_values, float_values, sample_count, ends, parts, FitsUsize,
}
use braids_rs.FastNoise.Queries.Rows.{write_rows_lem, write_offsets_lem, reaches_end_lem}

metas_sized : (q : ChunkQuery) → length (meta_values q) ≡ 3
metas_sized (grid_2d w h o s) = refl
metas_sized (grid_3d w h d o s) = refl

floats_sized : (q : ChunkQuery) → length (float_values q) ≡ 6
floats_sized (grid_2d w h (x, y) (dx, dy)) = refl
floats_sized (grid_3d w h d (x, y, z) (dx, dy, dz)) = refl

row_metas :
    (checked : Bool) (dim : GraphDimension) (q : ChunkQuery) (r : QueryRow)
    → query_row checked dim q ≡ some r
    → r.metas ≡ meta_values q
unfolding query_row
row_metas checked d2 (grid_2d w h (x, y) (dx, dy)) r e = ground (arith, e)
row_metas checked d3 (grid_3d w h d (x, y, z) (dx, dy, dz)) r e = ground (arith, e)
row_metas checked d2 (grid_3d w h d o s) r e = ground (arith, e)
row_metas checked d3 (grid_2d w h o s) r e = ground (arith, e)

row_floats :
    (checked : Bool) (dim : GraphDimension) (q : ChunkQuery) (r : QueryRow)
    → query_row checked dim q ≡ some r
    → r.floats ≡ float_values q
unfolding query_row
row_floats checked d2 (grid_2d w h (x, y) (dx, dy)) r e = ground (arith, e)
row_floats checked d3 (grid_3d w h d (x, y, z) (dx, dy, dz)) r e = ground (arith, e)
row_floats checked d2 (grid_3d w h d o s) r e = ground (arith, e)
row_floats checked d3 (grid_2d w h o s) r e = ground (arith, e)

-- What the slots hold after the queries are encoded over `old`.
abbrev pub encoded_over : List ChunkQuery → (ℕ → Option BufferData) → ℕ → Option BufferData
encoded_over queries old slot =
    if slot_query_offsets == slot
    then some (u32s (0 ∷ ends 0 (map sample_count queries)))
    else if slot_query_f32 == slot
    then some (f32s (parts float_values queries))
    else if slot_query_meta == slot
    then some (u32s (parts meta_values queries))
    else old slot

module _ (checked : Bool) (dim : GraphDimension) (qs : List ChunkQuery) (h : All (IsOf dim) qs)
    (fits : FitsUsize checked 0 qs) where
  metas_written :
      (v : List ℕ)
      → length v ≡ length qs * 3
      → write_rows checked 3 (λ r. r.metas) dim 0 0 qs v ≡ parts meta_values qs
  metas_written v e =
      write_rows_lem checked dim 3 _ meta_values metas_sized (row_metas checked dim) [] v 0 0 qs h
        fits refl e

  floats_written :
      (v : List ℕ)
      → length v ≡ length qs * 6
      → write_rows checked 6 (λ r. r.floats) dim 0 0 qs v ≡ parts float_values qs
  floats_written v e =
      write_rows_lem checked dim 6 _ float_values floats_sized (row_floats checked dim) [] v 0 0 qs
        h fits refl e

  offsets_written :
      (v : List ℕ)
      → length v ≡ length qs + 1
      → write_offsets checked dim 0 0 qs (set v 0 0) ≡ 0 ∷ ends 0 (map sample_count qs)
  offsets_written [] e = ground arith
  offsets_written (x ∷ v) e =
      write_offsets_lem checked dim (0 ∷ []) v 0 0 qs h fits refl (omega arith)

recount-IsValid : (p : JobPacket) (n : ℕ) → IsValid p → IsValid (record p { query_count = n })
unfolding slot_index
recount-IsValid p n h = record {
  index_sound = h.index_sound;
  index_complete = h.index_complete;
  clean_empty = h.clean_empty;
}

contents-recount :
    (p : JobPacket) (n slot : ℕ) → contents (record p { query_count = n }) slot ≡ contents p slot
unfolding contents slot_index
contents-recount p n slot = refl

if_cong :
    {A : Type 0} (b : Bool) (x x' y y' : A)
    → x ≡ x'
    → y ≡ y'
    → (if b then x else y) ≡ (if b then x' else y')
if_cong true x x' y y' e f = e
if_cong false x x' y y' e f = f

-- Queries of the dimension of the plan, encoded into a valid packet, make no error, and no panic where
-- overflow is not checked or nothing overflows: neither width times height of a query nor the count of
-- all samples reaches 2 ^ 64. They leave a valid packet with their count; its meta values are the width,
-- height and depth of each query in order, each as a `u32`; its floats are the origin and the step of
-- each; its offsets are 0 and the running counts of samples, width times height times depth, each as a
-- `u32`. A flat query is 1 deep, at depth 0.0, with a step of 1.0 there. The other slots are as they
-- were.
pub encode_batch_lem :
    (checked : Bool) (plan : CompiledPlan FastNoisePlannerMeta) (queries : List ChunkQuery)
    (p : JobPacket) (s : BatchScratch)
    → IsValid p
    → All (IsOf plan.planner_meta.dimension) queries
    → FitsUsize checked 0 queries
    → (q : JobPacket) × (encode_batch checked plan queries (p, s)
        ≡ (done (ok tt), (q, reset_batch_scratch s)))
      × IsValid q
      × (q.query_count ≡ length queries)
      × ((slot : ℕ) → contents q slot ≡ encoded_over queries (contents p) slot)
unfolding encode_batch
encode_batch_lem checked plan queries p s h of fits =
    let dim = plan.planner_meta.dimension in
    let n = length queries in
    let start : JobPacket = record p { query_count = n } in
    let (p1, e1, h1, n1, c1) =
      ensure_lem u32 start slot_query_meta (n * 3)
        (write_rows checked 3 (λ r. r.metas) dim 0 0 queries) (recount-IsValid p n h) in
    let (p2, e2, h2, n2, c2) =
      ensure_lem f32 p1 slot_query_f32 (n * 6)
        (write_rows checked 6 (λ r. r.floats) dim 0 0 queries) h1 in
    let (p3, e3, h3, n3, c3) =
      ensure_lem u32 p2 slot_query_offsets (n + 1)
        (λ v. write_offsets checked dim 0 0 queries (set v 0 0)) h2 in
    (
      p3,
      rw (reaches_end_lem checked dim 0 queries of fits, e1, e2, e3) refl,
      h3,
      n3 ∙ n2 ∙ n1,
      λ slot.
          c3 slot
          ∙ if_cong (slot_query_offsets == slot) _ _ _ _
              (ap (λ v. some (u32s v))
                (offsets_written checked dim queries of fits _ (length-resize _ (n + 1) 0)))
              (c2 slot
                ∙ if_cong (slot_query_f32 == slot) _ _ _ _
                    (ap (λ v. some (f32s v))
                      (floats_written checked dim queries of fits _ (length-resize _ (n * 6) 0)))
                    (c1 slot
                      ∙ if_cong (slot_query_meta == slot) _ _ _ _
                          (ap (λ v. some (u32s v))
                            (metas_written checked dim queries of fits _
                              (length-resize _ (n * 3) 0)))
                          (contents-recount p n slot))),
    )

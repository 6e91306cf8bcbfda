-- ===== src/FastNoise/Queries/Single.antt =====
-- fastnoise/src/runtime.rs: a query alone is a batch of one.
use braids_rs.Base.{
  List, Outcome, [], and_then, ap, arith, fun_ext, inl, inr, refl, set, sym, true, ℕ, ◌*◌, ◌+◌, ◌∙◌,
  ◌∷◌, ◌≡◌, Bool, done, some, panic, Bool-cases, false, leb,
}
use braids_rs.Planner.{default_encode_one}
use braids_rs.Pipeline.{CompiledPlan}
use braids_rs.Pipeline.Kinds.{u32, f32}
use braids_rs.Packet.{JobPacket, ensure}
use braids_rs.Scratch.{BatchScratch, reset_batch_scratch}
use braids_rs.FastNoise.Model.{
  GraphDimension, d2, d3, ChunkQuery, grid_2d, grid_3d, FastNoisePlannerMeta, slot_query_meta,
  slot_query_f32, slot_query_offsets,
}
use braids_rs.FastNoise.Queries.{
  QueryRow, query_row, set_row, write_rows, write_offsets, reaches_end, written, write_one,
  write_count, is_done, is_complete, encode_batch, encode_one, u32_of, usize_mod, advance, times,
  plus, sample_count_2d, sample_count_3d,
}
use braids_rs.FastNoise.Queries.Layout.{IsOf}

-- The three vectors of a batch of `n`, written one after the other.
abbrev vectors :
    ℕ → JobPacket → (List ℕ → List ℕ) → (List ℕ → List ℕ) → (List ℕ → List ℕ) → Outcome JobPacket
vectors n p metas floats offsets = and_then (ensure u32 p slot_query_meta (n * 3) metas) λ p.
    and_then (ensure f32 p slot_query_f32 (n * 6) floats)
      λ p. ensure u32 p slot_query_offsets (n + 1) offsets

-- The count of one query begins at 0.
plus_first :
    (checked : Bool) (a b : ℕ)
    → and_then (times checked a b) (λ n. plus checked 0 n) ≡ times checked a b
plus_first false a b = ap (λ n. done n) (omega arith)
plus_first true a b = elim (Bool-cases (leb usize_mod (a * b))) [
  | inl e ↦ ground (arith, e)
  | inr e ↦ ground (arith, e)
]

plus_second :
    (checked : Bool) (o : Outcome ℕ) (d : ℕ)
    → and_then (and_then o λ a. times checked a d) (λ n. plus checked 0 n)
      ≡ and_then o (λ a. times checked a d)
plus_second checked panic d = refl
plus_second checked (done a) d = plus_first checked a d

advance_first :
    (checked : Bool) (dim : GraphDimension) (q : ChunkQuery) (r : QueryRow)
    → query_row checked dim q ≡ some r
    → advance checked 0 r ≡ r.samples
unfolding query_row
advance_first checked d2 (grid_2d w h (x, y) (dx, dy)) r e =
    let same : sample_count_2d checked w h ≡ r.samples = cc in
    ap (λ o. and_then o λ n. plus checked 0 n) (sym same) ∙ plus_first checked w h ∙ same
advance_first checked d3 (grid_3d w h d (x, y, z) (dx, dy, dz)) r e =
    let same : sample_count_3d checked w h d ≡ r.samples = cc in
    ap (λ o. and_then o λ n. plus checked 0 n) (sym same)
    ∙ plus_second checked (times checked w h) d
    ∙ same
advance_first checked d2 (grid_3d w h d o s) r e = cc
advance_first checked d3 (grid_2d w h o s) r e = cc

count_written :
    (checked : Bool) (dim : GraphDimension) (o : Outcome ℕ) (v : List ℕ)
    → write_count o v
      ≡ elim o [ panic ↦ v | done c ↦ write_offsets checked dim 1 c [] (set v 1 (u32_of c)) ]
unfolding write_offsets
count_written checked dim panic v = refl
count_written checked dim (done c) v = refl

one_offset :
    (checked : Bool) (dim : GraphDimension) (query : ChunkQuery) (r : QueryRow) (v : List ℕ)
    → query_row checked dim query ≡ some r
    → write_one (query_row checked dim query) (λ r v. write_count r.samples (set v 0 0)) v
      ≡ write_offsets checked dim 0 0 (query ∷ []) (set v 0 0)
unfolding write_offsets
one_offset checked dim query r v e =
    rw (write_offsets, e)
      (rw (write_offsets, advance_first checked dim query r e)
        (count_written checked dim r.samples (set v 0 0)))

row_written :
    (checked : Bool) (width : ℕ) (part : QueryRow → List ℕ) (dim : GraphDimension) (o : Outcome ℕ)
    (v : List ℕ)
    → v ≡ elim o [ panic ↦ v | done c ↦ write_rows checked width part dim 1 c [] v ]
unfolding write_rows
row_written checked width part dim panic v = refl
row_written checked width part dim (done c) v = refl

one_row :
    (checked : Bool) (width : ℕ) (part : QueryRow → List ℕ) (dim : GraphDimension)
    (query : ChunkQuery) (r : QueryRow) (v : List ℕ)
    → query_row checked dim query ≡ some r
    → write_one (query_row checked dim query) (λ r v. set_row v 0 (part r)) v
      ≡ write_rows checked width part dim 0 0 (query ∷ []) v
unfolding write_rows
one_row checked width part dim query r v e =
    let base : 0 ≡ 0 * width = omega arith in
    rw (write_rows, e)
      (ap (λ n. set_row v n (part r)) base
        ∙ row_written checked width part dim (advance checked 0 r) (set_row v (0 * width) (part r)))

one_end :
    (checked : Bool) (dim : GraphDimension) (o : Outcome ℕ)
    → is_done o ≡ elim o [ panic ↦ false | done c ↦ reaches_end checked dim c [] ]
unfolding reaches_end
one_end checked dim panic = refl
one_end checked dim (done c) = refl

one_complete :
    (checked : Bool) (dim : GraphDimension) (query : ChunkQuery) (r : QueryRow)
    → query_row checked dim query ≡ some r
    → is_complete (query_row checked dim query) ≡ reaches_end checked dim 0 (query ∷ [])
unfolding reaches_end
one_complete checked dim query r e =
    rw (reaches_end, e)
      (rw (reaches_end, advance_first checked dim query r e) (one_end checked dim r.samples))

shaped :
    (checked : Bool) (dim : GraphDimension) (q : ChunkQuery)
    → IsOf dim q
    → (r : QueryRow) × (query_row checked dim q ≡ some r)
unfolding query_row
shaped checked d2 (grid_2d w h (x, y) (dx, dy)) of = (_, refl)
shaped checked d3 (grid_3d w h d (x, y, z) (dx, dy, dz)) of = (_, refl)
shaped checked d2 (grid_3d w h d o s) of = elim of [ ]
shaped checked d3 (grid_2d w h o s) of = elim of [ ]

-- Where a query is of the dimension of the plan, `encode_one` does what the default method of the trait
-- does with it, which is to encode a batch of it alone, whatever the packet and the scratch; where
-- overflow is checked and its count of samples overflows, both panic and leave the same packet.
pub encode_one-default_encode_one :
    (checked : Bool) (plan : CompiledPlan FastNoisePlannerMeta) (query : ChunkQuery) (p : JobPacket)
    (s : BatchScratch)
    → IsOf plan.planner_meta.dimension query
    → encode_one checked plan query (p, s)
      ≡ default_encode_one (encode_batch checked) plan query (p, s)
unfolding encode_one encode_batch default_encode_one
encode_one-default_encode_one checked plan query p s h =
    let dim = plan.planner_meta.dimension in
    let row = query_row checked dim query in
    let (r, e) = shaped checked dim query h in
    let start : JobPacket = record p { query_count = 1 } in
    let s' = reset_batch_scratch s in
    let ends = reaches_end checked dim 0 (query ∷ []) in
    ap
      (λ b. written b start s' (
        vectors 1 start (write_one row λ r v. set_row v 0 r.metas)
          (write_one row λ r v. set_row v 0 r.floats)
          (write_one row λ r v. write_count r.samples (set v 0 0))))
      (one_complete checked dim query r e)
    ∙ ap
        (λ f. written ends start s' (
          vectors 1 start f (write_one row λ r v. set_row v 0 r.floats)
            (write_one row λ r v. write_count r.samples (set v 0 0))))
        (fun_ext λ v. one_row checked 3 (λ r. r.metas) dim query r v e)
    ∙ ap
        (λ f. written ends start s' (
          vectors 1 start (write_rows checked 3 (λ r. r.metas) dim 0 0 (query ∷ [])) f
            (write_one row λ r v. write_count r.samples (set v 0 0))))
        (fun_ext λ v. one_row checked 6 (λ r. r.floats) dim query r v e)
    ∙ ap
        (λ f. written ends start s' (
          vectors 1 start (write_rows checked 3 (λ r. r.metas) dim 0 0 (query ∷ []))
            (write_rows checked 6 (λ r. r.floats) dim 0 0 (query ∷ [])) f))
        (fun_ext λ v. one_offset checked dim query r v e)

-- ===== src/FastNoise/Samples/Single.antt =====
-- fastnoise/src/runtime.rs: `decode_one` and the default method of the trait.
use braids_rs.Base.{
  List, Outcome, [], and_then, ap, arith, done, drop, leb, length, some, sym, take, true, ℕ, ◌&&◌,
  ◌-◌, ◌∙◌, ◌∷◌, ◌≡◌, ◌≤◌,
}
use braids_rs.Error.{BraidResult, ok}
use braids_rs.Planner.{default_decode_one, map_result, one_value}
use braids_rs.Pipeline.{CompiledPlan, u32s, f32s}
use braids_rs.Pipeline.Kinds.{u32, f32}
use braids_rs.Packet.{JobPacket, slice, and_try}
use braids_rs.Packet.Invariant.{IsValid, contents}
use braids_rs.Packet.Views.{slice-view, view}
use braids_rs.FastNoise.Floats.{FloatOps}
use braids_rs.FastNoise.Model.{ChunkSummary, FastNoisePlannerMeta, slot_query_offsets}
use braids_rs.FastNoise.Samples.Summaries.{summarize_samples_lem}
use braids_rs.FastNoise.Samples.{range, decode_cuts, decode_batch, decode_one, decode_first}

-- The two slices that both decoders take.
abbrev pub sliced :
    {R : Type 0}
    → CompiledPlan FastNoisePlannerMeta
    → JobPacket
    → (List ℕ → List ℕ → Outcome (BraidResult R))
    → Outcome (BraidResult R)
sliced plan p f =
    and_try (slice f32 p plan.planner_meta.final_slot)
      λ values. and_try (slice u32 p slot_query_offsets) λ offsets. f values offsets

pub sliced_lem :
    {R : Type 0} (plan : CompiledPlan FastNoisePlannerMeta) (p : JobPacket)
    (f : List ℕ → List ℕ → Outcome (BraidResult R)) (values offsets : List ℕ)
    → IsValid p
    → contents p slot_query_offsets ≡ some (u32s offsets)
    → contents p plan.planner_meta.final_slot ≡ some (f32s values)
    → sliced plan p f ≡ f values offsets
sliced_lem plan p f values offsets h e g =
    let slot = plan.planner_meta.final_slot in
    ap
      (λ o.
        and_try o λ values. and_try (slice u32 p slot_query_offsets) λ offsets. f values offsets)
      (slice-view f32 p slot h ∙ ap (λ c. done (view f32 slot c)) g)
    ∙ ap (λ o. and_try o λ offsets. f values offsets)
        (slice-view u32 p slot_query_offsets h ∙ ap (λ c. done (view u32 slot_query_offsets c)) e)

range_inside :
    (n : ℕ) (values : List ℕ) → n ≤ length values → leb 0 n && leb n (length values) ≡ true
range_inside n values h = ground arith

module _ (F : FloatOps) where
  abbrev pub of_batch : List ℕ → List ℕ → Outcome (BraidResult (List ChunkSummary))
  of_batch values offsets =
      and_then (decode_cuts F values 0 (drop 1 offsets)) λ summaries. done (ok summaries)

  first_cut :
      (values : List ℕ) (n : ℕ)
      → n ≤ length values
      → decode_first F values (0 ∷ n ∷ []) ≡ map_result one_value (of_batch values (0 ∷ n ∷ []))
  unfolding decode_first decode_cuts
  first_cut values n h =
      let inside : range values 0 n ≡ done (take n values) =
        let whole : n - 0 ≡ n = omega arith in
        rw (range_inside n values h) (ap (λ k. done (take k values)) whole) in
      let (s, e, says) = summarize_samples_lem F (take n values) in ground (arith, inside, e)

  -- In a valid packet with the two offsets of one query, of no more samples than there are, `decode_one`
  -- does what the default method of the trait does, which is to decode the batch.
  pub decode_one-default_decode_one :
      (plan : CompiledPlan FastNoisePlannerMeta) (p : JobPacket) (values : List ℕ) (n : ℕ)
      → IsValid p
      → contents p slot_query_offsets ≡ some (u32s (0 ∷ n ∷ []))
      → contents p plan.planner_meta.final_slot ≡ some (f32s values)
      → n ≤ length values
      → decode_one F plan p ≡ default_decode_one (decode_batch F) plan p
  unfolding decode_one decode_batch default_decode_one
  decode_one-default_decode_one plan p values n h e g small =
      sliced_lem plan p (decode_first F) values (0 ∷ n ∷ []) h e g
      ∙ first_cut values n small
      ∙ ap (map_result one_value) (sym (sliced_lem plan p of_batch values (0 ∷ n ∷ []) h e g))

-- ===== src/FastNoise/Samples/Cuts.antt =====
-- fastnoise/src/runtime.rs: `decode_batch` cuts the samples as `encode_batch` counted them.
use braids_rs.Base.{
  List, [], and_then, ap, append_assoc, arith, done, drop, leb, length, length-append, refl, some,
  sym, take, true, ℕ, ◌%◌, ◌&&◌, ◌++◌, ◌+◌, ◌-◌, ◌<◌, ◌^◌, ◌∙◌, ◌∷◌, ◌≡◌, ◌≤◌,
}
use braids_rs.Error.{ok}
use braids_rs.Pipeline.{CompiledPlan, u32s, f32s}
use braids_rs.Packet.{JobPacket}
use braids_rs.Packet.Invariant.{IsValid, contents}
use braids_rs.FastNoise.Floats.{FloatOps}
use braids_rs.FastNoise.Model.{ChunkSummary, FastNoisePlannerMeta, slot_query_offsets}
use braids_rs.FastNoise.Queries.Layout.{ends, total}
use braids_rs.FastNoise.Queries.Rows.{length-drop, length-take, append-take}
use braids_rs.FastNoise.Samples.{range, summarize_samples, decode_cuts, decode_batch}
use braids_rs.FastNoise.Samples.Single.{sliced_lem, of_batch}
use braids_rs.FastNoise.Samples.Summaries.{Summarizes, summarize_samples_lem}

-- One summary for each size, of as many samples: the first ones of what those before it leave.
abbrev pub SummarizesEach : FloatOps → List ℕ → List ℕ → List ChunkSummary → Type 0
SummarizesEach F [] values [] = Unit
SummarizesEach F [] values (s ∷ ss) = ⊥
SummarizesEach F (n ∷ ns) values [] = ⊥
SummarizesEach F (n ∷ ns) values (s ∷ ss) =
    (summarize_samples F (take n values) ≡ done s)
    × Summarizes (take n values) s
    × (s.samples ≡ n)
    × SummarizesEach F ns (drop n values) ss

drop-append : (front back : List ℕ) → drop (length front) (front ++ back) ≡ back
drop-append [] back = refl
drop-append (x ∷ front) back = drop-append front back

range_lem :
    (front back : List ℕ) (c n : ℕ)
    → length front ≡ c
    → n ≤ length back
    → range (front ++ back) c (c + n) ≡ done (take n back)
range_lem front back c n at h =
    let inside : leb c (c + n) && leb (c + n) (length (front ++ back)) ≡ true =
      ground (arith, length-append front back) in
    let size : c + n - c ≡ n = omega arith in
    rw inside (
      ap (λ v. done v)
        (ap (λ k. take k (drop c (front ++ back))) size
          ∙ ap (λ k. take n (drop k (front ++ back))) (sym at)
          ∙ ap (take n) (drop-append front back)))

module _ (F : FloatOps) where
  cut_step :
      (all : List ℕ) (c n : ℕ) (after cut : List ℕ) (s : ChunkSummary) (rest : List ChunkSummary)
      → range all c n ≡ done cut
      → summarize_samples F cut ≡ done s
      → decode_cuts F all n after ≡ done rest
      → decode_cuts F all c (n ∷ after) ≡ done (s ∷ rest)
  unfolding decode_cuts
  cut_step all c n after cut s rest e f g =
      ap
        (λ o. and_then o λ cut.
          and_then (summarize_samples F cut)
            λ s. and_then (decode_cuts F all n after) λ rest. done (s ∷ rest))
        e
      ∙ ap (λ o. and_then o λ s. and_then (decode_cuts F all n after) λ rest. done (s ∷ rest)) f
      ∙ ap (λ o. and_then o λ rest. done (s ∷ rest)) g

  decode_cuts_lem :
      (sizes front back : List ℕ) (c : ℕ)
      → length front ≡ c
      → total sizes ≤ length back
      → c + total sizes < 2 ^ 32
      → (summaries : List ChunkSummary) × (decode_cuts F (front ++ back) c (ends c sizes)
          ≡ done summaries)
        × SummarizesEach F sizes back summaries
  unfolding decode_cuts
  decode_cuts_lem [] front back c at h small = ([], refl, tt)
  decode_cuts_lem (k ∷ sizes) front back c at h small =
      let n = c + k in
      let narrow : (c + k) % 2 ^ 32 ≡ n = omega arith in
      let cut = take k back in
      let (s, e, says) = summarize_samples_lem F cut in
      let size = length-take k back (omega arith) in
      let (rest, f, each) =
        decode_cuts_lem sizes (front ++ cut) (drop k back) n
          (omega (arith, length-append front cut, size)) (omega (arith, length-drop k back))
          (omega arith) in
      let all = front ++ back in
      let regrouped : (front ++ cut) ++ drop k back ≡ all =
        append_assoc front cut (drop k back) ∙ ap (λ l. front ++ l) (append-take k back) in
      let step : decode_cuts F all c (ends c (k ∷ sizes)) ≡ done (s ∷ rest) =
        ap (λ m. decode_cuts F all c (m ∷ ends n sizes)) narrow
        ∙ cut_step all c n (ends n sizes) cut s rest (range_lem front back c k at (omega arith)) e
            (ap (λ v. decode_cuts F v n (ends n sizes)) (sym regrouped) ∙ f) in
      (s ∷ rest, step, (e, says, says.0 ∙ size, each))

  -- In a valid packet that holds the offsets of grids of some sizes, 0 and their running counts, and, in
  -- the final slot, at least as many samples as the sizes add up to, fewer than 2 ^ 32 in all,
  -- `decode_batch` makes no error and no panic. It gives one summary for each size in order, of as many
  -- samples, cut from where those before it end.
  pub decode_batch_lem :
      (plan : CompiledPlan FastNoisePlannerMeta) (sizes : List ℕ) (p : JobPacket) (values : List ℕ)
      → IsValid p
      → contents p slot_query_offsets ≡ some (u32s (0 ∷ ends 0 sizes))
      → contents p plan.planner_meta.final_slot ≡ some (f32s values)
      → total sizes ≤ length values
      → total sizes < 2 ^ 32
      → (summaries : List ChunkSummary) × (decode_batch F plan p ≡ done (ok summaries))
        × SummarizesEach F sizes values summaries
  unfolding decode_batch
  decode_batch_lem plan sizes p values h offsets samples enough small =
      let (summaries, e, each) = decode_cuts_lem sizes [] values 0 refl enough (omega arith) in
      (
        summaries,
        sliced_lem plan p (of_batch F) values (0 ∷ ends 0 sizes) h offsets samples
            ∙ ap (λ o. and_then o λ ss. done (ok ss)) e,
        each,
      )

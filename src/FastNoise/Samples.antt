-- ===== src/FastNoise/Samples.antt =====
-- fastnoise/src/runtime.rs: the samples of a packet into summaries.
pub mod Summaries
pub mod Cuts
pub mod Single
mod Examples
use braids_rs.Base.{
  List, Outcome, [], and_then, done, drop, get_elem?, if◌then◌else◌, leb, length, ltb, or_panic,
  panic, replicate, suc, take, zero, ℕ, ◌%◌, ◌&&◌, ◌*◌, ◌+◌, ◌-◌, ◌/◌, ◌==◌, ◌^◌, ◌||◌, ◌∷◌,
}
use braids_rs.Error.{BraidResult, ok, err, from_text}
use braids_rs.Pipeline.{CompiledPlan}
use braids_rs.Pipeline.Kinds.{u32, f32}
use braids_rs.Packet.{JobPacket, slice, and_try}
use braids_rs.FastNoise.Floats.{FloatOps}
use braids_rs.FastNoise.Model.{ChunkSummary, FastNoisePlannerMeta, slot_query_offsets}

-- `^` on numbers of `w` bits
unfoldable pub xor : ℕ → ℕ → ℕ → ℕ
xor zero a b = 0
xor (suc w) a b = (a + b) % 2 + 2 * xor w (a / 2) (b / 2)

-- One round of the checksum; the sum of a `u32` and the constant fits in a `u64`.
unfoldable pub mix : ℕ → ℕ → ℕ
unfolding xor
mix checksum bits = xor 64 checksum (bits + 0x9E3779B9) * 0x1000000001B3 % 2 ^ 64

abbrev pub tap_count : ℕ
tap_count = 8

abbrev pub tap_index : ℕ → ℕ → ℕ
tap_index n index = if n == 1 then 0 else index * (n - 1) / (tap_count - 1)

-- The loop that fills the taps from `index` on.
unfoldable pub taps_from : ℕ → ℕ → List ℕ → Outcome (List ℕ)
taps_from zero index values = done []
taps_from (suc k) index values =
    and_then (or_panic (get_elem? values (tap_index (length values) index)))
      λ tap. and_then (taps_from k (index + 1) values) λ rest. done (tap ∷ rest)

-- `&values[start..end]`
abbrev pub range : List ℕ → ℕ → ℕ → Outcome (List ℕ)
range values start end =
    if leb start end && leb end (length values)
    then done (take (end - start) (drop start values))
    else panic

module _ (F : FloatOps) where
  pub record Running : Type 0 where
    pub min : ℕ
    pub max : ℕ
    pub sum : ℕ
    pub checksum : ℕ

  unfoldable pub scan : Running → List ℕ → Running
  unfolding mix
  scan r [] = r
  scan r (value ∷ values) =
      scan
        (record {
          min = F.min r.min value;
          max = F.max r.max value;
          sum = F.add_f64 r.sum (F.to_f64 value);
          checksum = mix r.checksum value;
        })
        values

  abbrev pub summary_of : List ℕ → Running → List ℕ → ChunkSummary
  summary_of all r taps = record {
    samples = length all;
    min = r.min;
    max = r.max;
    mean = F.to_f32 (F.div_f64 r.sum (F.usize_to_f64 (length all)));
    checksum = r.checksum;
    taps = taps;
  }

  abbrev pub first_running : ℕ → Running
  first_running first = record { min = first; max = first; sum = 0; checksum = 0xCBF29CE484222325 }

  unfoldable pub summarize_samples : List ℕ → Outcome ChunkSummary
  unfolding scan taps_from
  summarize_samples [] = done (record {
    samples = 0;
    min = 0;
    max = 0;
    mean = 0;
    checksum = 0;
    taps = replicate tap_count 0;
  })
  summarize_samples (first ∷ values) =
      let all = first ∷ values in
      and_then (taps_from tap_count 0 all)
        λ taps. done (summary_of all (scan (first_running first) all) taps)

  -- The loop of `decode_batch`.
  unfoldable pub decode_cuts : List ℕ → ℕ → List ℕ → Outcome (List ChunkSummary)
  unfolding summarize_samples
  decode_cuts values start [] = done []
  decode_cuts values start (end ∷ ends) = and_then (range values start end) λ cut.
      and_then (summarize_samples cut)
        λ summary. and_then (decode_cuts values end ends) λ rest. done (summary ∷ rest)

  unfoldable pub decode_batch :
      CompiledPlan FastNoisePlannerMeta → JobPacket → Outcome (BraidResult (List ChunkSummary))
  unfolding slice decode_cuts
  decode_batch plan p = and_try (slice f32 p plan.planner_meta.final_slot) λ values.
      and_try (slice u32 p slot_query_offsets)
        λ offsets. and_then (decode_cuts values 0 (drop 1 offsets)) λ summaries. done (ok summaries)

  -- The checks of `decode_one` on the first two offsets.
  unfoldable pub decode_first : List ℕ → List ℕ → Outcome (BraidResult ChunkSummary)
  unfolding summarize_samples
  decode_first values (start ∷ end ∷ ends) =
      if ltb (length values) end || ltb (length values) start || ltb end start
      then done (err (from_text "invalid fastnoise offsets"))
      else and_then (range values start end)
          λ cut. and_then (summarize_samples cut) λ summary. done (ok summary)
  decode_first values offsets = done (err (from_text "missing fastnoise offsets"))

  unfoldable pub decode_one :
      CompiledPlan FastNoisePlannerMeta → JobPacket → Outcome (BraidResult ChunkSummary)
  unfolding slice decode_first
  decode_one plan p =
      and_try (slice f32 p plan.planner_meta.final_slot)
        λ values. and_try (slice u32 p slot_query_offsets) λ offsets. decode_first values offsets

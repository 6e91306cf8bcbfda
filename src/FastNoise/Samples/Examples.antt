-- ===== src/FastNoise/Samples/Examples.antt =====
-- fastnoise/src/runtime.rs: a packet with the offsets of one grid and its two samples.
use braids_rs.Base.{List, [], arith, done, refl, some, ◌+◌, ◌/◌, ◌∷◌, ◌≡◌}
use braids_rs.Error.{ok}
use braids_rs.Pipeline.{CompiledPlan, u32s, f32s}
use braids_rs.Packet.{JobPacket, new_packet, slot_index, record_slot_index}
use braids_rs.Packet.Invariant.{IsValid, contents, new_packet-IsValid, put, put-IsValid}
use braids_rs.FastNoise.Floats.{FloatOps}
use braids_rs.FastNoise.Model.{ChunkSummary, d2, FastNoisePlannerMeta}
use braids_rs.FastNoise.Queries.Layout.{ends}
use braids_rs.FastNoise.Samples.{decode_batch}
use braids_rs.FastNoise.Samples.Cuts.{SummarizesEach, decode_batch_lem}

-- Operations that only count.
abbrev counting : FloatOps
counting = record {
  min = λ a b. a;
  max = λ a b. b;
  to_f64 = λ a. a;
  add_f64 = λ a b. a + b;
  div_f64 = λ a b. a / b;
  usize_to_f64 = λ n. n;
  to_f32 = λ a. a;
}

abbrev flat_plan : CompiledPlan FastNoisePlannerMeta
flat_plan = record {
  pipeline = record { buffers = []; stages = [] };
  static_buffers = [];
  planner_meta = record { dimension = d2; final_slot = 32 };
}

sampled : JobPacket
sampled = put (put new_packet 2 (u32s (0 ∷ 2 ∷ []))) 32 (f32s (40 ∷ 50 ∷ []))

sampled-IsValid : IsValid sampled
unfolding sampled
sampled-IsValid =
    put-IsValid _ 32 (f32s (40 ∷ 50 ∷ []))
      (put-IsValid new_packet 2 (u32s (0 ∷ 2 ∷ [])) new_packet-IsValid)

sampled_offsets : contents sampled 2 ≡ some (u32s (0 ∷ ends 0 (2 ∷ [])))
unfolding sampled put contents new_packet slot_index record_slot_index
sampled_offsets = refl

sampled_values : contents sampled 32 ≡ some (f32s (40 ∷ 50 ∷ []))
unfolding sampled put contents new_packet slot_index record_slot_index
sampled_values = refl

decode_batch_lem_example :
    (summaries : List ChunkSummary) × (decode_batch counting flat_plan sampled
      ≡ done (ok summaries))
    × SummarizesEach counting (2 ∷ []) (40 ∷ 50 ∷ []) summaries
decode_batch_lem_example =
    decode_batch_lem counting flat_plan (2 ∷ []) sampled (40 ∷ 50 ∷ []) sampled-IsValid
      sampled_offsets sampled_values (omega arith) (omega arith)

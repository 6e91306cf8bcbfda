-- ===== src/FastNoise/Queries/Examples.antt =====
-- fastnoise/src/runtime.rs: one flat grid of two samples.
use braids_rs.Base.{[], done, true, ℕ, ◌∷◌, ◌≡◌, inr, arith}
use braids_rs.Error.{ok}
use braids_rs.Planner.{default_encode_one}
use braids_rs.Pipeline.{CompiledPlan}
use braids_rs.Packet.{JobPacket, new_packet}
use braids_rs.Packet.Invariant.{IsValid, contents, new_packet-IsValid}
use braids_rs.Scratch.{new_batch_scratch, reset_batch_scratch}
use braids_rs.FastNoise.Model.{ChunkQuery, grid_2d, d2, FastNoisePlannerMeta}
use braids_rs.FastNoise.Queries.{encode_batch, encode_one}
use braids_rs.FastNoise.Queries.Encoding.{encoded_over, encode_batch_lem}
use braids_rs.FastNoise.Queries.Single.{encode_one-default_encode_one}

abbrev flat_plan : CompiledPlan FastNoisePlannerMeta
flat_plan = record {
  pipeline = record { buffers = []; stages = [] };
  static_buffers = [];
  planner_meta = record { dimension = d2; final_slot = 32 };
}

abbrev two_samples : ChunkQuery
two_samples = grid_2d 2 1 (5, 6) (7, 8)

encode_batch_lem_example :
    (q : JobPacket) × (encode_batch true flat_plan
        (two_samples ∷ [])
        (new_packet, new_batch_scratch)
      ≡ (done (ok tt), (q, reset_batch_scratch new_batch_scratch)))
    × IsValid q
    × (q.query_count ≡ 1)
    × ((slot : ℕ) → contents q slot ≡ encoded_over (two_samples ∷ []) (contents new_packet) slot)
encode_batch_lem_example =
    encode_batch_lem true flat_plan (two_samples ∷ []) new_packet new_batch_scratch
      new_packet-IsValid (tt, tt) (inr ((omega arith, tt), omega arith))

encode_one-default_encode_one_example :
    encode_one true flat_plan two_samples (new_packet, new_batch_scratch)
    ≡ default_encode_one (encode_batch true) flat_plan two_samples (new_packet, new_batch_scratch)
encode_one-default_encode_one_example =
    encode_one-default_encode_one true flat_plan two_samples new_packet new_batch_scratch tt

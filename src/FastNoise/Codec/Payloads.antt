-- ===== src/FastNoise/Codec/Payloads.antt =====
-- fastnoise/src/runtime.rs: the payloads of the kernels, and `KernelPayload`. An array of `N` slots is a
-- list, and `N` an argument; the two instances of a payload with `N` differ in the kind alone.
use braids_rs.Base.{List, [], length, ℕ, ◌%◌, ◌^◌}
use mathlib.Core.List.{foldl}
use braids_rs.Error.{BraidResult, ok, err}
use braids_rs.Pipeline.{KernelSpec}
use braids_rs.Pipeline.Kinds.{whole_batch}
use braids_rs.Scratch.{PlannerScratch, reset_planner_scratch}
use braids_rs.FastNoise.Model.{
  FastNoiseKernel, warp_2d, warp_3d, sample_2d, sample_3d, combine, kind, CombineOp,
}
use braids_rs.FastNoise.Library.{NoiseLibrary}
use braids_rs.FastNoise.Codec.{
  PayloadWriter, write_u16, write_u32, write_noise, Read, ◌>>=◌, return, lift, read_u16, read_u32,
  read_times, read_noise,
}
use braids_rs.FastNoise.Codec.Tags.{encode_combine_op, decode_combine_op}

abbrev pub PositionSlots : Type 0
PositionSlots = List ℕ

pub record WarpPayload (Noise : Type 0) : Type 0 where
  pub source : PositionSlots
  pub output : PositionSlots
  pub noise : Noise

pub record SamplePayload (Noise : Type 0) : Type 0 where
  pub source : PositionSlots
  pub output : ℕ
  pub noise : Noise

pub record CombinePayload : Type 0 where
  pub op : CombineOp
  pub inputs : List ℕ
  pub output : ℕ
  pub params : List ℕ

-- The trait: what an implementation provides.
pub record KernelPayload (A : Type 0) : Type 0 where
  pub payload_kind : FastNoiseKernel
  pub encode_into : A → PayloadWriter → BraidResult PayloadWriter
  pub decode_from : FastNoiseKernel → Read A

module _ {A : Type 0} (K : KernelPayload A) where
  abbrev pub encoded :
      BraidResult PayloadWriter → PlannerScratch → BraidResult KernelSpec × PlannerScratch
  encoded (err e) s = (err e, s)
  encoded (ok bytes) s = (
    ok (record {
      kind_id = kind K.payload_kind;
      payload = bytes;
      bindings = [];
      dispatch = whole_batch;
    }),
    record s { bytes = [] },
  )

  -- `KernelPayload::encode`
  unfoldable pub encode : A → PlannerScratch → BraidResult KernelSpec × PlannerScratch
  unfolding kind reset_planner_scratch
  encode p s = let s' = reset_planner_scratch s in encoded (K.encode_into p s'.bytes) s'

  -- `KernelPayload::decode`
  unfoldable pub decode : FastNoiseKernel → List ℕ → BraidResult A
  decode k bytes = elim (K.decode_from k (record { bytes = bytes; offset = 0 })) [
    | err e ↦ err e
    | ok (p, r) ↦ ok p
  ]

abbrev pub write_slots : PayloadWriter → List ℕ → PayloadWriter
write_slots w slots = foldl write_u16 w slots

abbrev pub write_u32s : PayloadWriter → List ℕ → PayloadWriter
write_u32s w vals = foldl write_u32 w vals

unfoldable pub read_position_slots : ℕ → Read PositionSlots
unfolding read_times read_u16
read_position_slots n = read_times n read_u16

module _ (L : NoiseLibrary) where
  unfoldable pub write_warp : WarpPayload L.Noise → PayloadWriter → PayloadWriter
  unfolding write_noise
  write_warp p w =
      let w = write_slots w p.source in
      let w = write_slots w p.output in write_noise w (L.fields p.noise)

  unfoldable pub read_warp : ℕ → Read (WarpPayload L.Noise)
  unfolding read_position_slots read_noise
  read_warp n = do
    source ← read_position_slots n
    output ← read_position_slots n
    noise ← read_noise L
    return (record { source = source; output = output; noise = noise })

  unfoldable pub write_sample : SamplePayload L.Noise → PayloadWriter → PayloadWriter
  unfolding write_noise
  write_sample p w =
      let w = write_slots w p.source in
      let w = write_u16 w p.output in write_noise w (L.fields p.noise)

  unfoldable pub read_sample : ℕ → Read (SamplePayload L.Noise)
  unfolding read_position_slots read_u16 read_noise
  read_sample n = do
    source ← read_position_slots n
    output ← read_u16
    noise ← read_noise L
    return (record { source = source; output = output; noise = noise })

  abbrev pub warp_2d_payload : KernelPayload (WarpPayload L.Noise)
  warp_2d_payload = record {
    payload_kind = warp_2d;
    encode_into = λ p w. ok (write_warp p w);
    decode_from = λ k. read_warp 2;
  }

  abbrev pub warp_3d_payload : KernelPayload (WarpPayload L.Noise)
  warp_3d_payload = record {
    payload_kind = warp_3d;
    encode_into = λ p w. ok (write_warp p w);
    decode_from = λ k. read_warp 3;
  }

  abbrev pub sample_2d_payload : KernelPayload (SamplePayload L.Noise)
  sample_2d_payload = record {
    payload_kind = sample_2d;
    encode_into = λ p w. ok (write_sample p w);
    decode_from = λ k. read_sample 2;
  }

  abbrev pub sample_3d_payload : KernelPayload (SamplePayload L.Noise)
  sample_3d_payload = record {
    payload_kind = sample_3d;
    encode_into = λ p w. ok (write_sample p w);
    decode_from = λ k. read_sample 3;
  }

-- A count is written `as u32`.
unfoldable pub write_combine : CombinePayload → PayloadWriter → PayloadWriter
unfolding encode_combine_op
write_combine p w =
    let w = write_u32 w (encode_combine_op p.op) in
    let w = write_u32 w (length p.inputs % 2 ^ 32) in
    let w = write_slots w p.inputs in
    let w = write_u16 w p.output in
    let w = write_u32 w (length p.params % 2 ^ 32) in write_u32s w p.params

unfoldable pub read_combine : Read CombinePayload
unfolding read_times read_u16 read_u32
read_combine = do
  op ← read_u32 >>= λ v. lift (decode_combine_op v)
  input_count ← read_u32
  inputs ← read_times input_count read_u16
  output ← read_u16
  param_count ← read_u32
  params ← read_times param_count read_u32
  return (record { op = op; inputs = inputs; output = output; params = params })

abbrev pub combine_payload : KernelPayload CombinePayload
combine_payload = record {
  payload_kind = combine;
  encode_into = λ p w. ok (write_combine p w);
  decode_from = λ k. read_combine;
}

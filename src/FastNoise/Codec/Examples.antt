-- ===== src/FastNoise/Codec/Examples.antt =====
-- fastnoise/src/runtime.rs: payloads over a noise that is its fields.
use braids_rs.Base.{[], arith, refl, ◌∷◌, ◌≡◌}
use braids_rs.FastNoise.Model.{add, d2}
use braids_rs.FastNoise.Library.{
  NoiseFields, NoiseLibrary, perlin, no_rotation, fbm, euclidean, distance, basic_grid,
}
use braids_rs.FastNoise.Codec.Payloads.{WarpPayload, SamplePayload, CombinePayload, combine_payload}
use braids_rs.FastNoise.Codec.NoiseReads.{IsEncodable}
use braids_rs.FastNoise.Codec.NoiseTrip.{warp_payload, SameWarp}
use braids_rs.FastNoise.Factory.{warp_kernel, combine_kernel}
use braids_rs.FastNoise.Factory.Prepared.{
  PreparesBack, prepare_kernel-encode_warp, prepare_kernel-encode_combine,
}
use braids_rs.FastNoise.Codec.Cut.{RefusesCut, decode_truncated_warp}

abbrev some_fields : NoiseFields
some_fields = record {
  seed = 1337;
  frequency = 1008981770;
  noise_type = perlin;
  rotation_type_3d = no_rotation;
  fractal_type = fbm;
  octaves = 3;
  lacunarity = 0;
  gain = 0;
  weighted_strength = 0;
  ping_pong_strength = 0;
  cellular_distance_function = euclidean;
  cellular_return_type = distance;
  cellular_jitter_modifier = 0;
  domain_warp_type = basic_grid;
  domain_warp_amp = 0;
}

abbrev pub plain_library : NoiseLibrary
plain_library = record {
  Noise = NoiseFields;
  fields = λ n. n;
  with_seed = λ v. record some_fields { seed = v };
  set_frequency = λ v n. record n { frequency = v };
  set_noise_type = λ v n. record n { noise_type = v };
  set_rotation_type_3d = λ v n. record n { rotation_type_3d = v };
  set_fractal_type = λ v n. record n { fractal_type = v };
  set_fractal_octaves = λ v n. record n { octaves = v };
  set_fractal_lacunarity = λ v n. record n { lacunarity = v };
  set_fractal_gain = λ v n. record n { gain = v };
  set_fractal_weighted_strength = λ v n. record n { weighted_strength = v };
  set_fractal_ping_pong_strength = λ v n. record n { ping_pong_strength = v };
  set_cellular_distance_function = λ v n. record n { cellular_distance_function = v };
  set_cellular_return_type = λ v n. record n { cellular_return_type = v };
  set_cellular_jitter = λ v n. record n { cellular_jitter_modifier = v };
  set_domain_warp_type = λ v n. record n { domain_warp_type = v };
  set_domain_warp_amp = λ v n. record n { domain_warp_amp = v };
  seed_lem = λ v. refl;
  frequency_lem = λ v n. refl;
  noise_type_lem = λ v n. refl;
  rotation_type_3d_lem = λ v n. refl;
  fractal_type_lem = λ v n. refl;
  fractal_octaves_lem = λ v n. refl;
  fractal_lacunarity_lem = λ v n. refl;
  fractal_gain_lem = λ v n. refl;
  fractal_weighted_strength_lem = λ v n. refl;
  fractal_ping_pong_strength_lem = λ v n. refl;
  cellular_distance_function_lem = λ v n. refl;
  cellular_return_type_lem = λ v n. refl;
  cellular_jitter_lem = λ v n. refl;
  domain_warp_type_lem = λ v n. refl;
  domain_warp_amp_lem = λ v n. refl;
}

abbrev two_inputs : CombinePayload
two_inputs = record { op = add; inputs = 32 ∷ 33 ∷ []; output = 34; params = [] }

some_fields-IsEncodable : IsEncodable some_fields
some_fields-IsEncodable = omega arith

abbrev flat_warp : WarpPayload NoiseFields
flat_warp = record { source = 10 ∷ 11 ∷ []; output = 32 ∷ 33 ∷ []; noise = some_fields }

abbrev deep_sample : SamplePayload NoiseFields
deep_sample = record { source = 10 ∷ 11 ∷ 12 ∷ []; output = 32; noise = some_fields }

decode_truncated_warp_example : RefusesCut (warp_payload plain_library d2) flat_warp
decode_truncated_warp_example =
    decode_truncated_warp plain_library d2 flat_warp refl refl (omega arith) (omega arith)
      some_fields-IsEncodable

prepare_kernel-encode_warp_example :
    PreparesBack plain_library
      (warp_payload plain_library d2)
      flat_warp
      (warp_kernel d2)
      (SameWarp plain_library flat_warp)
prepare_kernel-encode_warp_example =
    prepare_kernel-encode_warp plain_library d2 flat_warp refl refl (omega arith) (omega arith)
      some_fields-IsEncodable

prepare_kernel-encode_combine_example :
    PreparesBack plain_library combine_payload two_inputs combine_kernel (λ q. q ≡ two_inputs)
prepare_kernel-encode_combine_example =
    prepare_kernel-encode_combine plain_library two_inputs (omega arith) (omega arith) (omega arith)
      (omega arith) tt

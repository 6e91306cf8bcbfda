-- ===== src/FastNoise/Codec/TagReads.antt =====
-- fastnoise/src/runtime.rs: every tag decodes to what it was made from, and no other number decodes.
use braids_rs.Base.{arith, refl, ◌<◌, ◌^◌, ◌≡◌}
use braids_rs.Error.{ok}
use braids_rs.FastNoise.Model.{CombineOp, add, sub, mul, min, max, clamp, remap, y_gradient}
use braids_rs.FastNoise.Library.{
  NoiseType, open_simplex_2, open_simplex_2s, cellular, perlin, value_cubic, value, RotationType,
  no_rotation, improve_xy_planes, improve_xz_planes, FractalType, no_fractal, fbm, ridged,
  ping_pong, domain_warp_progressive, domain_warp_independent, CellularDistanceFunction, euclidean,
  euclidean_sq, manhattan, hybrid, CellularReturnType, cell_value, distance, distance_2,
  distance_2_add, distance_2_sub, distance_2_mul, distance_2_div, DomainWarpType,
  warp_open_simplex_2, warp_open_simplex_2_reduced, basic_grid,
}
use braids_rs.FastNoise.Codec.{to_le_bytes, ◌>>=◌, lift, read_u32}
use braids_rs.FastNoise.Codec.Reads.{Reads}
use braids_rs.FastNoise.Codec.Tags.{
  encode_noise_type, decode_noise_type, encode_rotation_type, decode_rotation_type,
  encode_fractal_type, decode_fractal_type, encode_cellular_distance_function,
  decode_cellular_distance_function, encode_cellular_return_type, decode_cellular_return_type,
  encode_domain_warp_type, decode_domain_warp_type, encode_combine_op, decode_combine_op,
}
use braids_rs.FastNoise.Codec.Reads.{Reads-tag}

decode_noise_type_lem :
    (t : NoiseType)
    → (decode_noise_type (encode_noise_type t) ≡ ok t) × (encode_noise_type t < 2 ^ 32)
unfolding encode_noise_type decode_noise_type
decode_noise_type_lem open_simplex_2 = (refl, omega arith)
decode_noise_type_lem open_simplex_2s = (refl, omega arith)
decode_noise_type_lem cellular = (refl, omega arith)
decode_noise_type_lem perlin = (refl, omega arith)
decode_noise_type_lem value_cubic = (refl, omega arith)
decode_noise_type_lem value = (refl, omega arith)

pub Reads-noise_type :
    (t : NoiseType)
    → Reads (read_u32 >>= λ v. lift (decode_noise_type v)) (to_le_bytes 4 (encode_noise_type t)) t
Reads-noise_type t =
    Reads-tag decode_noise_type (encode_noise_type t) t (decode_noise_type_lem t).0
      (decode_noise_type_lem t).1

decode_rotation_type_lem :
    (t : RotationType)
    → (decode_rotation_type (encode_rotation_type t) ≡ ok t) × (encode_rotation_type t < 2 ^ 32)
unfolding encode_rotation_type decode_rotation_type
decode_rotation_type_lem no_rotation = (refl, omega arith)
decode_rotation_type_lem improve_xy_planes = (refl, omega arith)
decode_rotation_type_lem improve_xz_planes = (refl, omega arith)

pub Reads-rotation_type :
    (t : RotationType)
    → Reads
        (read_u32 >>= λ v. lift (decode_rotation_type v))
        (to_le_bytes 4 (encode_rotation_type t))
        t
Reads-rotation_type t =
    Reads-tag decode_rotation_type (encode_rotation_type t) t (decode_rotation_type_lem t).0
      (decode_rotation_type_lem t).1

decode_fractal_type_lem :
    (t : FractalType)
    → (decode_fractal_type (encode_fractal_type t) ≡ ok t) × (encode_fractal_type t < 2 ^ 32)
unfolding encode_fractal_type decode_fractal_type
decode_fractal_type_lem no_fractal = (refl, omega arith)
decode_fractal_type_lem fbm = (refl, omega arith)
decode_fractal_type_lem ridged = (refl, omega arith)
decode_fractal_type_lem ping_pong = (refl, omega arith)
decode_fractal_type_lem domain_warp_progressive = (refl, omega arith)
decode_fractal_type_lem domain_warp_independent = (refl, omega arith)

pub Reads-fractal_type :
    (t : FractalType)
    → Reads
        (read_u32 >>= λ v. lift (decode_fractal_type v))
        (to_le_bytes 4 (encode_fractal_type t))
        t
Reads-fractal_type t =
    Reads-tag decode_fractal_type (encode_fractal_type t) t (decode_fractal_type_lem t).0
      (decode_fractal_type_lem t).1

decode_cellular_distance_function_lem :
    (t : CellularDistanceFunction)
    → (decode_cellular_distance_function (encode_cellular_distance_function t) ≡ ok t)
      × (encode_cellular_distance_function t < 2 ^ 32)
unfolding encode_cellular_distance_function decode_cellular_distance_function
decode_cellular_distance_function_lem euclidean = (refl, omega arith)
decode_cellular_distance_function_lem euclidean_sq = (refl, omega arith)
decode_cellular_distance_function_lem manhattan = (refl, omega arith)
decode_cellular_distance_function_lem hybrid = (refl, omega arith)

pub Reads-cellular_distance_function :
    (t : CellularDistanceFunction)
    → Reads
        (read_u32 >>= λ v. lift (decode_cellular_distance_function v))
        (to_le_bytes 4 (encode_cellular_distance_function t))
        t
Reads-cellular_distance_function t =
    Reads-tag decode_cellular_distance_function (encode_cellular_distance_function t) t
      (decode_cellular_distance_function_lem t).0 (decode_cellular_distance_function_lem t).1

decode_cellular_return_type_lem :
    (t : CellularReturnType)
    → (decode_cellular_return_type (encode_cellular_return_type t) ≡ ok t)
      × (encode_cellular_return_type t < 2 ^ 32)
unfolding encode_cellular_return_type decode_cellular_return_type
decode_cellular_return_type_lem cell_value = (refl, omega arith)
decode_cellular_return_type_lem distance = (refl, omega arith)
decode_cellular_return_type_lem distance_2 = (refl, omega arith)
decode_cellular_return_type_lem distance_2_add = (refl, omega arith)
decode_cellular_return_type_lem distance_2_sub = (refl, omega arith)
decode_cellular_return_type_lem distance_2_mul = (refl, omega arith)
decode_cellular_return_type_lem distance_2_div = (refl, omega arith)

pub Reads-cellular_return_type :
    (t : CellularReturnType)
    → Reads
        (read_u32 >>= λ v. lift (decode_cellular_return_type v))
        (to_le_bytes 4 (encode_cellular_return_type t))
        t
Reads-cellular_return_type t =
    Reads-tag decode_cellular_return_type (encode_cellular_return_type t) t
      (decode_cellular_return_type_lem t).0 (decode_cellular_return_type_lem t).1

decode_domain_warp_type_lem :
    (t : DomainWarpType)
    → (decode_domain_warp_type (encode_domain_warp_type t) ≡ ok t)
      × (encode_domain_warp_type t < 2 ^ 32)
unfolding encode_domain_warp_type decode_domain_warp_type
decode_domain_warp_type_lem warp_open_simplex_2 = (refl, omega arith)
decode_domain_warp_type_lem warp_open_simplex_2_reduced = (refl, omega arith)
decode_domain_warp_type_lem basic_grid = (refl, omega arith)

pub Reads-domain_warp_type :
    (t : DomainWarpType)
    → Reads
        (read_u32 >>= λ v. lift (decode_domain_warp_type v))
        (to_le_bytes 4 (encode_domain_warp_type t))
        t
Reads-domain_warp_type t =
    Reads-tag decode_domain_warp_type (encode_domain_warp_type t) t
      (decode_domain_warp_type_lem t).0 (decode_domain_warp_type_lem t).1

decode_combine_op_lem :
    (t : CombineOp)
    → (decode_combine_op (encode_combine_op t) ≡ ok t) × (encode_combine_op t < 2 ^ 32)
unfolding encode_combine_op decode_combine_op
decode_combine_op_lem add = (refl, omega arith)
decode_combine_op_lem sub = (refl, omega arith)
decode_combine_op_lem mul = (refl, omega arith)
decode_combine_op_lem min = (refl, omega arith)
decode_combine_op_lem max = (refl, omega arith)
decode_combine_op_lem clamp = (refl, omega arith)
decode_combine_op_lem remap = (refl, omega arith)
decode_combine_op_lem y_gradient = (refl, omega arith)

pub Reads-combine_op :
    (t : CombineOp)
    → Reads (read_u32 >>= λ v. lift (decode_combine_op v)) (to_le_bytes 4 (encode_combine_op t)) t
Reads-combine_op t =
    Reads-tag decode_combine_op (encode_combine_op t) t (decode_combine_op_lem t).0
      (decode_combine_op_lem t).1

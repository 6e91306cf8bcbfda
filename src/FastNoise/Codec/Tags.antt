-- ===== src/FastNoise/Codec/Tags.antt =====
-- fastnoise/src/runtime.rs: the tags of the enumerations (`enum_codec!`).
use braids_rs.Base.{List, String, [], suc, zero, ℕ, ◌∷◌}
use braids_rs.Error.{BraidResult, ok, err, invalid_spec, unknown_tag}
use braids_rs.FastNoise.Model.{CombineOp, add, sub, mul, min, max, clamp, remap, y_gradient}
use braids_rs.FastNoise.Library.{
  NoiseType, open_simplex_2, open_simplex_2s, cellular, perlin, value_cubic, value, RotationType,
  no_rotation, improve_xy_planes, improve_xz_planes, FractalType, no_fractal, fbm, ridged,
  ping_pong, domain_warp_progressive, domain_warp_independent, CellularDistanceFunction, euclidean,
  euclidean_sq, manhattan, hybrid, CellularReturnType, cell_value, distance, distance_2,
  distance_2_add, distance_2_sub, distance_2_mul, distance_2_div, DomainWarpType,
  warp_open_simplex_2, warp_open_simplex_2_reduced, basic_grid,
}

-- The two functions that `enum_codec!` declares, from its list of variants: the tag is the place.
abbrev pub variant_at {ℓ} : {A : Type ℓ} → String → ℕ → List A → ℕ → BraidResult A
variant_at label tag [] i = err (invalid_spec (unknown_tag label tag))
variant_at label tag (v ∷ vs) zero = ok v
variant_at label tag (v ∷ vs) (suc i) = variant_at label tag vs i

abbrev pub decode_tag {ℓ} : {A : Type ℓ} → String → List A → ℕ → BraidResult A
decode_tag label vs tag = variant_at label tag vs tag

unfoldable pub encode_noise_type : NoiseType → ℕ
encode_noise_type open_simplex_2 = 0
encode_noise_type open_simplex_2s = 1
encode_noise_type cellular = 2
encode_noise_type perlin = 3
encode_noise_type value_cubic = 4
encode_noise_type value = 5

unfoldable pub decode_noise_type : ℕ → BraidResult NoiseType
decode_noise_type =
    decode_tag "noise type tag"
      (open_simplex_2 ∷ open_simplex_2s ∷ cellular ∷ perlin ∷ value_cubic ∷ value ∷ [])

unfoldable pub encode_rotation_type : RotationType → ℕ
encode_rotation_type no_rotation = 0
encode_rotation_type improve_xy_planes = 1
encode_rotation_type improve_xz_planes = 2

unfoldable pub decode_rotation_type : ℕ → BraidResult RotationType
decode_rotation_type =
    decode_tag "rotation type tag" (no_rotation ∷ improve_xy_planes ∷ improve_xz_planes ∷ [])

unfoldable pub encode_fractal_type : FractalType → ℕ
encode_fractal_type no_fractal = 0
encode_fractal_type fbm = 1
encode_fractal_type ridged = 2
encode_fractal_type ping_pong = 3
encode_fractal_type domain_warp_progressive = 4
encode_fractal_type domain_warp_independent = 5

unfoldable pub decode_fractal_type : ℕ → BraidResult FractalType
decode_fractal_type =
    decode_tag "fractal type tag" (
      no_fractal ∷ fbm ∷ ridged ∷ ping_pong ∷ domain_warp_progressive ∷ domain_warp_independent
      ∷ [])

unfoldable pub encode_cellular_distance_function : CellularDistanceFunction → ℕ
encode_cellular_distance_function euclidean = 0
encode_cellular_distance_function euclidean_sq = 1
encode_cellular_distance_function manhattan = 2
encode_cellular_distance_function hybrid = 3

unfoldable pub decode_cellular_distance_function : ℕ → BraidResult CellularDistanceFunction
decode_cellular_distance_function =
    decode_tag "cellular distance tag" (euclidean ∷ euclidean_sq ∷ manhattan ∷ hybrid ∷ [])

unfoldable pub encode_cellular_return_type : CellularReturnType → ℕ
encode_cellular_return_type cell_value = 0
encode_cellular_return_type distance = 1
encode_cellular_return_type distance_2 = 2
encode_cellular_return_type distance_2_add = 3
encode_cellular_return_type distance_2_sub = 4
encode_cellular_return_type distance_2_mul = 5
encode_cellular_return_type distance_2_div = 6

unfoldable pub decode_cellular_return_type : ℕ → BraidResult CellularReturnType
decode_cellular_return_type = decode_tag "cellular return tag" (
    cell_value ∷ distance ∷ distance_2 ∷ distance_2_add ∷ distance_2_sub ∷ distance_2_mul
    ∷ distance_2_div ∷ [])

unfoldable pub encode_domain_warp_type : DomainWarpType → ℕ
encode_domain_warp_type warp_open_simplex_2 = 0
encode_domain_warp_type warp_open_simplex_2_reduced = 1
encode_domain_warp_type basic_grid = 2

unfoldable pub decode_domain_warp_type : ℕ → BraidResult DomainWarpType
decode_domain_warp_type =
    decode_tag "domain warp tag"
      (warp_open_simplex_2 ∷ warp_open_simplex_2_reduced ∷ basic_grid ∷ [])

unfoldable pub encode_combine_op : CombineOp → ℕ
encode_combine_op add = 0
encode_combine_op sub = 1
encode_combine_op mul = 2
encode_combine_op min = 3
encode_combine_op max = 4
encode_combine_op clamp = 5
encode_combine_op remap = 6
encode_combine_op y_gradient = 7

unfoldable pub decode_combine_op : ℕ → BraidResult CombineOp
decode_combine_op =
    decode_tag "combine op tag" (add ∷ sub ∷ mul ∷ min ∷ max ∷ clamp ∷ remap ∷ y_gradient ∷ [])

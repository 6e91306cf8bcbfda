-- ===== src/FastNoise/Library.antt =====
-- The crate `fastnoise-lite`, as far as fastnoise/src/runtime.rs uses it: its enumerations, and the
-- fields of a noise, which the crate's setters write. The crate itself is a parameter.
use braids_rs.Base.{ℕ, ◌≡◌}

pub data NoiseType : Type 0 where
  open_simplex_2 open_simplex_2s cellular perlin value_cubic value : NoiseType

pub data RotationType : Type 0 where
  no_rotation improve_xy_planes improve_xz_planes : RotationType

pub data FractalType : Type 0 where
  no_fractal fbm ridged ping_pong domain_warp_progressive domain_warp_independent : FractalType

pub data CellularDistanceFunction : Type 0 where
  euclidean euclidean_sq manhattan hybrid : CellularDistanceFunction

pub data CellularReturnType : Type 0 where
  cell_value distance distance_2 distance_2_add distance_2_sub distance_2_mul distance_2_div :
      CellularReturnType

pub data DomainWarpType : Type 0 where
  warp_open_simplex_2 warp_open_simplex_2_reduced basic_grid : DomainWarpType

-- The public fields that a payload carries; an `i32` and an `f32` are their bit patterns.
pub record NoiseFields : Type 0 where
  pub seed : ℕ
  pub frequency : ℕ
  pub noise_type : NoiseType
  pub rotation_type_3d : RotationType
  pub fractal_type : FractalType
  pub octaves : ℕ
  pub lacunarity : ℕ
  pub gain : ℕ
  pub weighted_strength : ℕ
  pub ping_pong_strength : ℕ
  pub cellular_distance_function : CellularDistanceFunction
  pub cellular_return_type : CellularReturnType
  pub cellular_jitter_modifier : ℕ
  pub domain_warp_type : DomainWarpType
  pub domain_warp_amp : ℕ

-- A noise, its fields, `with_seed`, and the setters, at the `Some(v)` with which they are called. What
-- the source relies on: each setter writes its field and no other.
pub record NoiseLibrary : Type 1 where
  pub Noise : Type 0
  pub fields : Noise → NoiseFields
  pub with_seed : ℕ → Noise
  pub set_frequency : ℕ → Noise → Noise
  pub set_noise_type : NoiseType → Noise → Noise
  pub set_rotation_type_3d : RotationType → Noise → Noise
  pub set_fractal_type : FractalType → Noise → Noise
  pub set_fractal_octaves : ℕ → Noise → Noise
  pub set_fractal_lacunarity : ℕ → Noise → Noise
  pub set_fractal_gain : ℕ → Noise → Noise
  pub set_fractal_weighted_strength : ℕ → Noise → Noise
  pub set_fractal_ping_pong_strength : ℕ → Noise → Noise
  pub set_cellular_distance_function : CellularDistanceFunction → Noise → Noise
  pub set_cellular_return_type : CellularReturnType → Noise → Noise
  pub set_cellular_jitter : ℕ → Noise → Noise
  pub set_domain_warp_type : DomainWarpType → Noise → Noise
  pub set_domain_warp_amp : ℕ → Noise → Noise
  pub seed_lem : (v : ℕ) → (fields (with_seed v)).seed ≡ v
  pub frequency_lem :
      (v : ℕ) (n : Noise) → fields (set_frequency v n) ≡ record (fields n) { frequency = v }
  pub noise_type_lem :
      (v : NoiseType) (n : Noise)
      → fields (set_noise_type v n) ≡ record (fields n) { noise_type = v }
  pub rotation_type_3d_lem :
      (v : RotationType) (n : Noise)
      → fields (set_rotation_type_3d v n) ≡ record (fields n) { rotation_type_3d = v }
  pub fractal_type_lem :
      (v : FractalType) (n : Noise)
      → fields (set_fractal_type v n) ≡ record (fields n) { fractal_type = v }
  pub fractal_octaves_lem :
      (v : ℕ) (n : Noise) → fields (set_fractal_octaves v n) ≡ record (fields n) { octaves = v }
  pub fractal_lacunarity_lem :
      (v : ℕ) (n : Noise)
      → fields (set_fractal_lacunarity v n) ≡ record (fields n) { lacunarity = v }
  pub fractal_gain_lem :
      (v : ℕ) (n : Noise) → fields (set_fractal_gain v n) ≡ record (fields n) { gain = v }
  pub fractal_weighted_strength_lem :
      (v : ℕ) (n : Noise)
      → fields (set_fractal_weighted_strength v n) ≡ record (fields n) { weighted_strength = v }
  pub fractal_ping_pong_strength_lem :
      (v : ℕ) (n : Noise)
      → fields (set_fractal_ping_pong_strength v n) ≡ record (fields n) { ping_pong_strength = v }
  pub cellular_distance_function_lem :
      (v : CellularDistanceFunction) (n : Noise)
      → fields (set_cellular_distance_function v n)
        ≡ record (fields n) { cellular_distance_function = v }
  pub cellular_return_type_lem :
      (v : CellularReturnType) (n : Noise)
      → fields (set_cellular_return_type v n) ≡ record (fields n) { cellular_return_type = v }
  pub cellular_jitter_lem :
      (v : ℕ) (n : Noise)
      → fields (set_cellular_jitter v n) ≡ record (fields n) { cellular_jitter_modifier = v }
  pub domain_warp_type_lem :
      (v : DomainWarpType) (n : Noise)
      → fields (set_domain_warp_type v n) ≡ record (fields n) { domain_warp_type = v }
  pub domain_warp_amp_lem :
      (v : ℕ) (n : Noise)
      → fields (set_domain_warp_amp v n) ≡ record (fields n) { domain_warp_amp = v }

-- ===== src/FastNoise/Codec.antt =====
-- fastnoise/src/runtime.rs: the payloads of kernels as bytes, little end first. A slot is a `u16`, a
-- byte is a number below 256, and an `i32` or an `f32` is its bit pattern.
pub mod Tags
pub mod Payloads
pub mod Reads
pub mod TagReads
pub mod NoiseReads
pub mod RoundTrip
pub mod NoiseTrip
pub mod Truncation
pub mod Cut
mod Examples
use braids_rs.Base.{
  List, [], drop, if◌then◌else◌, length, ltb, suc, take, zero, ℕ, ◌%◌, ◌*◌, ◌++◌, ◌+◌, ◌/◌, ◌∷◌,
}
use braids_rs.Error.{BraidResult, ok, err, invalid_spec, text}
use braids_rs.FastNoise.Library.{NoiseFields, NoiseLibrary}
use braids_rs.FastNoise.Codec.Tags.{
  encode_noise_type, decode_noise_type, encode_rotation_type, decode_rotation_type,
  encode_fractal_type, decode_fractal_type, encode_cellular_distance_function,
  decode_cellular_distance_function, encode_cellular_return_type, decode_cellular_return_type,
  encode_domain_warp_type, decode_domain_warp_type,
}

-- `to_le_bytes` and `from_le_bytes`
abbrev pub to_le_bytes : ℕ → ℕ → List ℕ
to_le_bytes zero v = []
to_le_bytes (suc w) v = v % 256 ∷ to_le_bytes w (v / 256)

abbrev pub from_le_bytes : List ℕ → ℕ
from_le_bytes [] = 0
from_le_bytes (b ∷ bs) = b + 256 * from_le_bytes bs

-- `PayloadWriter`: the vector so far, to which each method appends.
abbrev pub PayloadWriter : Type 0
PayloadWriter = List ℕ

abbrev pub write_u16 : PayloadWriter → ℕ → PayloadWriter
write_u16 w v = w ++ to_le_bytes 2 v

abbrev pub write_u32 : PayloadWriter → ℕ → PayloadWriter
write_u32 w v = w ++ to_le_bytes 4 v

unfoldable pub write_noise : PayloadWriter → NoiseFields → PayloadWriter
write_noise w n =
    let w = write_u32 w n.seed in
    let w = write_u32 w n.frequency in
    let w = write_u32 w (encode_noise_type n.noise_type) in
    let w = write_u32 w (encode_rotation_type n.rotation_type_3d) in
    let w = write_u32 w (encode_fractal_type n.fractal_type) in
    let w = write_u32 w n.octaves in
    let w = write_u32 w n.lacunarity in
    let w = write_u32 w n.gain in
    let w = write_u32 w n.weighted_strength in
    let w = write_u32 w n.ping_pong_strength in
    let w = write_u32 w (encode_cellular_distance_function n.cellular_distance_function) in
    let w = write_u32 w (encode_cellular_return_type n.cellular_return_type) in
    let w = write_u32 w n.cellular_jitter_modifier in
    let w = write_u32 w (encode_domain_warp_type n.domain_warp_type) in
    write_u32 w n.domain_warp_amp

pub record PayloadReader : Type 0 where
  pub bytes : List ℕ
  pub offset : ℕ

-- A read that can fail and moves the offset; `?` is `>>=`.
abbrev pub Read : Type 0 → Type 0
Read A = PayloadReader → BraidResult (A × PayloadReader)

abbrev pub continue :
    {A B : Type 0}
    → BraidResult (A × PayloadReader)
    → (A → Read B)
    → BraidResult (B × PayloadReader)
continue (err e) f = err e
continue (ok (a, r)) f = f a r

infixl 5 ◌>>=◌
abbrev pub ◌>>=◌ : {A B : Type 0} → Read A → (A → Read B) → Read B
◌>>=◌ m f r = continue (m r) f

abbrev pub return : {A : Type 0} → A → Read A
return a r = ok (a, r)

abbrev pub lift : {A : Type 0} → BraidResult A → Read A
lift (ok a) r = ok (a, r)
lift (err e) r = err e

-- `offset + N` cannot overflow: the offset is at most the length of a slice.
unfoldable pub read_exact : ℕ → Read (List ℕ)
read_exact n r =
    if ltb (length r.bytes) (r.offset + n)
    then err (invalid_spec (text "kernel payload truncated"))
    else ok (take n (drop r.offset r.bytes), record r { offset = r.offset + n })

unfoldable pub read_u16 : Read ℕ
unfolding read_exact
read_u16 = do bs ← read_exact 2; return (from_le_bytes bs)

unfoldable pub read_u32 : Read ℕ
unfolding read_exact
read_u32 = do bs ← read_exact 4; return (from_le_bytes bs)

-- `for _ in 0..n { .. push(read?) }`
unfoldable pub read_times : {A : Type 0} → ℕ → Read A → Read (List A)
read_times zero m = return []
read_times (suc n) m = do a ← m; as' ← read_times n m; return (a ∷ as')

module _ (L : NoiseLibrary) where
  -- The end of `PayloadReader::noise`: a noise is made, and its setters are called.
  unfoldable pub noise_of : NoiseFields → L.Noise
  noise_of n =
      let noise = L.with_seed n.seed in
      let noise = L.set_frequency n.frequency noise in
      let noise = L.set_noise_type n.noise_type noise in
      let noise = L.set_rotation_type_3d n.rotation_type_3d noise in
      let noise = L.set_fractal_type n.fractal_type noise in
      let noise = L.set_fractal_octaves n.octaves noise in
      let noise = L.set_fractal_lacunarity n.lacunarity noise in
      let noise = L.set_fractal_gain n.gain noise in
      let noise = L.set_fractal_weighted_strength n.weighted_strength noise in
      let noise = L.set_fractal_ping_pong_strength n.ping_pong_strength noise in
      let noise = L.set_cellular_distance_function n.cellular_distance_function noise in
      let noise = L.set_cellular_return_type n.cellular_return_type noise in
      let noise = L.set_cellular_jitter n.cellular_jitter_modifier noise in
      let noise = L.set_domain_warp_type n.domain_warp_type noise in
      L.set_domain_warp_amp n.domain_warp_amp noise

  unfoldable pub read_noise : Read L.Noise
  unfolding read_u32 noise_of
  read_noise = do
    seed ← read_u32
    frequency ← read_u32
    noise_type ← read_u32 >>= λ v. lift (decode_noise_type v)
    rotation_type ← read_u32 >>= λ v. lift (decode_rotation_type v)
    fractal_type ← read_u32 >>= λ v. lift (decode_fractal_type v)
    octaves ← read_u32
    lacunarity ← read_u32
    gain ← read_u32
    weighted_strength ← read_u32
    ping_pong_strength ← read_u32
    cellular_distance ← read_u32 >>= λ v. lift (decode_cellular_distance_function v)
    cellular_return ← read_u32 >>= λ v. lift (decode_cellular_return_type v)
    cellular_jitter ← read_u32
    domain_warp_type ← read_u32 >>= λ v. lift (decode_domain_warp_type v)
    domain_warp_amp ← read_u32
    return (
        noise_of (record {
          seed = seed;
          frequency = frequency;
          noise_type = noise_type;
          rotation_type_3d = rotation_type;
          fractal_type = fractal_type;
          octaves = octaves;
          lacunarity = lacunarity;
          gain = gain;
          weighted_strength = weighted_strength;
          ping_pong_strength = ping_pong_strength;
          cellular_distance_function = cellular_distance;
          cellular_return_type = cellular_return;
          cellular_jitter_modifier = cellular_jitter;
          domain_warp_type = domain_warp_type;
          domain_warp_amp = domain_warp_amp;
        }))

-- ===== src/FastNoise/Codec/NoiseReads.antt =====
-- fastnoise/src/runtime.rs: `PayloadReader::noise` reads what `PayloadWriter::noise` wrote.
use braids_rs.Base.{List, ℕ, ◌++◌, ◌<◌, ◌^◌, ◌≡◌}
use braids_rs.FastNoise.Library.{NoiseFields, NoiseLibrary}
use braids_rs.FastNoise.Codec.{to_le_bytes, noise_of, read_noise, read_u32, Read, ◌>>=◌}
use braids_rs.FastNoise.Codec.Tags.{
  encode_noise_type, encode_rotation_type, encode_fractal_type, encode_cellular_distance_function,
  encode_cellular_return_type, encode_domain_warp_type,
}
use braids_rs.FastNoise.Codec.Reads.{Reads, Reads-bind, Reads-map, Reads-read_u32}
use braids_rs.FastNoise.Codec.TagReads.{
  Reads-noise_type, Reads-rotation_type, Reads-fractal_type, Reads-cellular_distance_function,
  Reads-cellular_return_type, Reads-domain_warp_type,
}

abbrev word : ℕ → List ℕ
word v = to_le_bytes 4 v

abbrev pub noise_bytes : NoiseFields → List ℕ
noise_bytes n =
    word n.seed
    ++ (word n.frequency
        ++ (word (encode_noise_type n.noise_type)
            ++ (word (encode_rotation_type n.rotation_type_3d)
                ++ (word (encode_fractal_type n.fractal_type)
                    ++ (word n.octaves
                        ++ (word n.lacunarity
                            ++ (word n.gain
                                ++ (word n.weighted_strength
                                    ++ (word n.ping_pong_strength
                                        ++ (word (
                                              encode_cellular_distance_function
                                                n.cellular_distance_function)
                                            ++ (word (
                                                  encode_cellular_return_type
                                                    n.cellular_return_type)
                                                ++ (word n.cellular_jitter_modifier
                                                    ++ (word (
                                                          encode_domain_warp_type
                                                            n.domain_warp_type)
                                                        ++ word n.domain_warp_amp)))))))))))))

-- The numbers fit in the 32 bits of an `i32` or `f32`.
pub record IsEncodable (n : NoiseFields) : Type 0 where
  pub seed : n.seed < 2 ^ 32
  pub frequency : n.frequency < 2 ^ 32
  pub octaves : n.octaves < 2 ^ 32
  pub lacunarity : n.lacunarity < 2 ^ 32
  pub gain : n.gain < 2 ^ 32
  pub weighted_strength : n.weighted_strength < 2 ^ 32
  pub ping_pong_strength : n.ping_pong_strength < 2 ^ 32
  pub cellular_jitter_modifier : n.cellular_jitter_modifier < 2 ^ 32
  pub domain_warp_amp : n.domain_warp_amp < 2 ^ 32

then_word :
    {B : Type 0} (v : ℕ)
    → v < 2 ^ 32
    → (f : ℕ → Read B) (cs : List ℕ) (b : B) → Reads (f v) cs b
    → Reads (read_u32 >>= f) (word v ++ cs) b
then_word v h f cs b r = Reads-bind read_u32 f (word v) cs v b (Reads-read_u32 v h) r

then_tag :
    {A B : Type 0} (tag : ℕ) (a : A) (m : Read A) (f : A → Read B) (cs : List ℕ) (b : B)
    → Reads m (word tag) a
    → Reads (f a) cs b
    → Reads (m >>= f) (word tag ++ cs) b
then_tag tag a m f cs b h r = Reads-bind m f (word tag) cs a b h r

module _ (L : NoiseLibrary) where
  pub fields-noise_of : (n : NoiseFields) → L.fields (noise_of L n) ≡ n
  unfolding noise_of
  fields-noise_of n = simp (
    L.frequency_lem, L.noise_type_lem, L.rotation_type_3d_lem, L.fractal_type_lem,
    L.fractal_octaves_lem, L.fractal_lacunarity_lem, L.fractal_gain_lem,
    L.fractal_weighted_strength_lem, L.fractal_ping_pong_strength_lem,
    L.cellular_distance_function_lem, L.cellular_return_type_lem, L.cellular_jitter_lem,
    L.domain_warp_type_lem, L.domain_warp_amp_lem, L.seed_lem,
  )

  pub Reads-read_noise :
      (n : NoiseFields) → IsEncodable n → Reads (read_noise L) (noise_bytes n) (noise_of L n)
  unfolding read_noise
  Reads-read_noise n h = then_word n.seed h.seed _ _ _ (
      then_word n.frequency h.frequency _ _ _ (
        then_tag (encode_noise_type n.noise_type) n.noise_type _ _ _ _
          (Reads-noise_type n.noise_type)
          (then_tag (encode_rotation_type n.rotation_type_3d) n.rotation_type_3d _ _ _ _
            (Reads-rotation_type n.rotation_type_3d)
            (then_tag (encode_fractal_type n.fractal_type) n.fractal_type _ _ _ _
              (Reads-fractal_type n.fractal_type)
              (then_word n.octaves h.octaves _ _ _ (
                then_word n.lacunarity h.lacunarity _ _ _ (
                  then_word n.gain h.gain _ _ _ (
                    then_word n.weighted_strength h.weighted_strength _ _ _ (
                      then_word n.ping_pong_strength h.ping_pong_strength _ _ _ (
                        then_tag (encode_cellular_distance_function n.cellular_distance_function)
                          n.cellular_distance_function _ _ _ _
                          (Reads-cellular_distance_function n.cellular_distance_function)
                          (then_tag (encode_cellular_return_type n.cellular_return_type)
                            n.cellular_return_type _ _ _ _
                            (Reads-cellular_return_type n.cellular_return_type)
                            (then_word n.cellular_jitter_modifier h.cellular_jitter_modifier _ _ _ (
                              then_tag (encode_domain_warp_type n.domain_warp_type)
                                n.domain_warp_type _ _ _ _
                                (Reads-domain_warp_type n.domain_warp_type)
                                (Reads-map read_u32 _ (word n.domain_warp_amp) n.domain_warp_amp
                                  (Reads-read_u32 n.domain_warp_amp h.domain_warp_amp)))))))))))))))

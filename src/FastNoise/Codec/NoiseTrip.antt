-- ===== src/FastNoise/Codec/NoiseTrip.antt =====
-- fastnoise/src/runtime.rs: a warp or sample payload that is encoded decodes to itself.
use braids_rs.Base.{All, List, ap, append_assoc, length, refl, ℕ, ◌++◌, ◌≡◌}
use braids_rs.Error.{ok}
use braids_rs.FastNoise.Model.{GraphDimension, d2, d3}
use braids_rs.FastNoise.Library.{NoiseLibrary}
use braids_rs.FastNoise.Codec.{to_le_bytes, read_u16, noise_of}
use braids_rs.FastNoise.Codec.Payloads.{
  WarpPayload, SamplePayload, KernelPayload, write_warp, read_warp, write_sample, read_sample,
  warp_2d_payload, warp_3d_payload, sample_2d_payload, sample_3d_payload,
}
use braids_rs.FastNoise.Codec.Reads.{Reads, Reads-bind, Reads-map, Reads-read_u16}
use braids_rs.FastNoise.Codec.NoiseReads.{
  noise_bytes, IsEncodable, Reads-read_noise, fields-noise_of,
}
use braids_rs.FastNoise.Codec.RoundTrip.{
  IsSlot, axes, slot_bytes, DecodesBack, decodes_back, write_slots_lem, Reads-slots,
}

module _ (L : NoiseLibrary) where
  abbrev pub warp_payload : GraphDimension → KernelPayload (WarpPayload L.Noise)
  warp_payload d2 = warp_2d_payload L
  warp_payload d3 = warp_3d_payload L

  abbrev pub sample_payload : GraphDimension → KernelPayload (SamplePayload L.Noise)
  sample_payload d2 = sample_2d_payload L
  sample_payload d3 = sample_3d_payload L

  pub Reads-read_warp :
      (p : WarpPayload L.Noise) (n : ℕ)
      → length p.source ≡ n
      → length p.output ≡ n
      → All IsSlot p.source
      → All IsSlot p.output
      → IsEncodable (L.fields p.noise)
      → Reads
          (read_warp L n)
          (slot_bytes p.source ++ (slot_bytes p.output ++ noise_bytes (L.fields p.noise)))
          (record p { noise = noise_of L (L.fields p.noise) })
  unfolding read_warp
  Reads-read_warp p n hs ho source output noise =
      Reads-bind _ _ (slot_bytes p.source) _ p.source _ (Reads-slots p.source n hs source) (
        Reads-bind _ _ (slot_bytes p.output) _ p.output _ (Reads-slots p.output n ho output) (
          Reads-map _ _ (noise_bytes (L.fields p.noise)) _
            (Reads-read_noise L (L.fields p.noise) noise)))

  pub Reads-read_sample :
      (p : SamplePayload L.Noise) (n : ℕ)
      → length p.source ≡ n
      → All IsSlot p.source
      → IsSlot p.output
      → IsEncodable (L.fields p.noise)
      → Reads
          (read_sample L n)
          (slot_bytes p.source ++ (to_le_bytes 2 p.output ++ noise_bytes (L.fields p.noise)))
          (record p { noise = noise_of L (L.fields p.noise) })
  unfolding read_sample
  Reads-read_sample p n hs source output noise =
      Reads-bind _ _ (slot_bytes p.source) _ p.source _ (Reads-slots p.source n hs source) (
        Reads-bind read_u16 _ (to_le_bytes 2 p.output) _ p.output _ (Reads-read_u16 p.output output)
          (Reads-map _ _ (noise_bytes (L.fields p.noise)) _
            (Reads-read_noise L (L.fields p.noise) noise)))

  pub write_warp_lem :
      (p : WarpPayload L.Noise) (w : List ℕ)
      → write_warp L p w
        ≡ w ++ (slot_bytes p.source ++ (slot_bytes p.output ++ noise_bytes (L.fields p.noise)))
  unfolding write_warp
  write_warp_lem p w = simp (write_slots_lem, append_assoc)

  pub write_sample_lem :
      (p : SamplePayload L.Noise) (w : List ℕ)
      → write_sample L p w
        ≡ w ++ (slot_bytes p.source ++ (to_le_bytes 2 p.output ++ noise_bytes (L.fields p.noise)))
  unfolding write_sample
  write_sample_lem p w = simp (write_slots_lem, append_assoc)

  abbrev pub SameWarp : WarpPayload L.Noise → WarpPayload L.Noise → Type 0
  SameWarp p q =
      (q.source ≡ p.source) × (q.output ≡ p.output) × (L.fields q.noise ≡ L.fields p.noise)

  abbrev pub SameSample : SamplePayload L.Noise → SamplePayload L.Noise → Type 0
  SameSample p q =
      (q.source ≡ p.source) × (q.output ≡ p.output) × (L.fields q.noise ≡ L.fields p.noise)

  -- A warp payload with as many slots as the dimension has axes, in range, decodes to the same slots
  -- and to a noise with the same fields, under the kind of the dimension.
  pub decode-encode_warp :
      (d : GraphDimension) (p : WarpPayload L.Noise)
      → length p.source ≡ axes d
      → length p.output ≡ axes d
      → All IsSlot p.source
      → All IsSlot p.output
      → IsEncodable (L.fields p.noise)
      → DecodesBack (warp_payload d) p (SameWarp p)
  decode-encode_warp d2 p hs ho source output noise =
      decodes_back (warp_2d_payload L) p _ _ (SameWarp p) (λ w. ap ok (write_warp_lem p w))
        (λ k. Reads-read_warp p 2 hs ho source output noise)
        (refl, refl, fields-noise_of L (L.fields p.noise))
  decode-encode_warp d3 p hs ho source output noise =
      decodes_back (warp_3d_payload L) p _ _ (SameWarp p) (λ w. ap ok (write_warp_lem p w))
        (λ k. Reads-read_warp p 3 hs ho source output noise)
        (refl, refl, fields-noise_of L (L.fields p.noise))

  -- The same for a sample payload, with one output slot.
  pub decode-encode_sample :
      (d : GraphDimension) (p : SamplePayload L.Noise)
      → length p.source ≡ axes d
      → All IsSlot p.source
      → IsSlot p.output
      → IsEncodable (L.fields p.noise)
      → DecodesBack (sample_payload d) p (SameSample p)
  decode-encode_sample d2 p hs source output noise =
      decodes_back (sample_2d_payload L) p _ _ (SameSample p) (λ w. ap ok (write_sample_lem p w))
        (λ k. Reads-read_sample p 2 hs source output noise)
        (refl, refl, fields-noise_of L (L.fields p.noise))
  decode-encode_sample d3 p hs source output noise =
      decodes_back (sample_3d_payload L) p _ _ (SameSample p) (λ w. ap ok (write_sample_lem p w))
        (λ k. Reads-read_sample p 3 hs source output noise)
        (refl, refl, fields-noise_of L (L.fields p.noise))

-- ===== src/FastNoise/Factory/Prepared.antt =====
-- fastnoise/src/runtime.rs: the kernel that the factory makes of an encoded payload.
use braids_rs.Base.{All, List, ap, arith, length, refl, ℕ, ◌<◌, ◌^◌, ◌∙◌, ◌≡◌}
use braids_rs.Error.{ok}
use braids_rs.Pipeline.{KernelSpec}
use braids_rs.Scratch.{PlannerScratch}
use braids_rs.FastNoise.Model.{FastNoiseKernel, from_kind, kind, GraphDimension, d2, d3}
use braids_rs.FastNoise.Library.{NoiseLibrary}
use braids_rs.FastNoise.Codec.Payloads.{
  WarpPayload, SamplePayload, CombinePayload, KernelPayload, encode, decode, combine_payload,
}
use braids_rs.FastNoise.Codec.NoiseReads.{IsEncodable}
use braids_rs.FastNoise.Codec.RoundTrip.{IsSlot, IsWord, axes, DecodesBack, decode-encode_combine}
use braids_rs.FastNoise.Codec.NoiseTrip.{
  warp_payload, sample_payload, SameWarp, SameSample, decode-encode_warp, decode-encode_sample,
}
use braids_rs.FastNoise.Factory.{
  PreparedKernel, warp_kernel, sample_kernel, combine_kernel, map_result, kernel_of, prepare_kernel,
}
use braids_rs.FastNoise.Factory.Kinds.{from_kind-kind}

module _ (L : NoiseLibrary) where
  -- A payload is encoded, and the factory makes of the spec the kernel of a payload that is the same.
  abbrev pub PreparesBack :
      {A : Type 0} → KernelPayload A → A → (A → PreparedKernel L.Noise) → (A → Type 0) → Type 0
  PreparesBack {A} K p kernel Same =
      (s : PlannerScratch)
      → (spec : KernelSpec) × ((encode K p s).0 ≡ ok spec)
        × ((q : A) × (prepare_kernel L spec ≡ ok (kernel q)) × Same q)

  prepare_known :
      (spec : KernelSpec) (k : FastNoiseKernel)
      → spec.kind_id ≡ kind k
      → prepare_kernel L spec ≡ kernel_of L k spec.payload
  unfolding prepare_kernel
  prepare_known spec k e = ground (arith, ap from_kind e ∙ from_kind-kind k)

  prepares_back :
      {A : Type 0} (K : KernelPayload A) (p : A) (kernel : A → PreparedKernel L.Noise)
      (Same : A → Type 0)
      → ((bytes : List ℕ)
          → kernel_of L K.payload_kind bytes ≡ map_result kernel (decode K K.payload_kind bytes))
      → DecodesBack K p Same
      → PreparesBack K p kernel Same
  prepares_back K p kernel Same is_kernel back s =
      let (spec, e, named, (q, decoded, same)) = back K.payload_kind s in
      (
        spec,
        e,
        (
          q,
          prepare_known spec K.payload_kind named
              ∙ is_kernel spec.payload
              ∙ ap (map_result kernel) decoded,
          same,
        ),
      )

  -- The factory makes of a warp payload in range that is encoded the warp kernel of its dimension, with
  -- its slots and a noise with the fields of its noise.
  pub prepare_kernel-encode_warp :
      (d : GraphDimension) (p : WarpPayload L.Noise)
      → length p.source ≡ axes d
      → length p.output ≡ axes d
      → All IsSlot p.source
      → All IsSlot p.output
      → IsEncodable (L.fields p.noise)
      → PreparesBack (warp_payload L d) p (warp_kernel d) (SameWarp L p)
  unfolding kernel_of
  prepare_kernel-encode_warp d2 p hs ho source output noise =
      prepares_back (warp_payload L d2) p (warp_kernel d2) (SameWarp L p) (λ bytes. refl)
        (decode-encode_warp L d2 p hs ho source output noise)
  prepare_kernel-encode_warp d3 p hs ho source output noise =
      prepares_back (warp_payload L d3) p (warp_kernel d3) (SameWarp L p) (λ bytes. refl)
        (decode-encode_warp L d3 p hs ho source output noise)

  -- The factory makes of a sample payload in range that is encoded the sample kernel of its dimension,
  -- with its slots and a noise with the fields of its noise.
  pub prepare_kernel-encode_sample :
      (d : GraphDimension) (p : SamplePayload L.Noise)
      → length p.source ≡ axes d
      → All IsSlot p.source
      → IsSlot p.output
      → IsEncodable (L.fields p.noise)
      → PreparesBack (sample_payload L d) p (sample_kernel d) (SameSample L p)
  unfolding kernel_of
  prepare_kernel-encode_sample d2 p hs source output noise =
      prepares_back (sample_payload L d2) p (sample_kernel d2) (SameSample L p) (λ bytes. refl)
        (decode-encode_sample L d2 p hs source output noise)
  prepare_kernel-encode_sample d3 p hs source output noise =
      prepares_back (sample_payload L d3) p (sample_kernel d3) (SameSample L p) (λ bytes. refl)
        (decode-encode_sample L d3 p hs source output noise)

  -- The factory makes of a combine payload in range that is encoded the combine kernel of that payload.
  pub prepare_kernel-encode_combine :
      (p : CombinePayload)
      → length p.inputs < 2 ^ 32
      → All IsSlot p.inputs
      → IsSlot p.output
      → length p.params < 2 ^ 32
      → All IsWord p.params
      → PreparesBack combine_payload p combine_kernel (λ q. q ≡ p)
  unfolding kernel_of
  prepare_kernel-encode_combine p hi inputs output hp params =
      prepares_back combine_payload p combine_kernel (λ q. q ≡ p) (λ bytes. refl)
        (decode-encode_combine p hi inputs output hp params)

-- ===== src/FastNoise/Codec/Cut.antt =====
-- fastnoise/src/runtime.rs: every proper prefix of an encoded payload is refused.
use braids_rs.Base.{All, List, [], ap, length, sym, ℕ, ◌++◌, ◌<◌, ◌^◌, ◌∙◌, ◌∷◌, ◌≡◌}
use mathlib.Core.Path.{subst}
use braids_rs.Error.{BraidResult, ok, err}
use braids_rs.Pipeline.{KernelSpec}
use braids_rs.Scratch.{PlannerScratch}
use braids_rs.FastNoise.Model.{FastNoiseKernel, GraphDimension, d2, d3}
use braids_rs.FastNoise.Library.{NoiseLibrary}
use braids_rs.FastNoise.Codec.{PayloadReader}
use braids_rs.FastNoise.Codec.Payloads.{
  WarpPayload, CombinePayload, KernelPayload, encode, decode, warp_2d_payload, warp_3d_payload,
  combine_payload,
}
use braids_rs.FastNoise.Codec.Reads.{Reads}
use braids_rs.FastNoise.Codec.NoiseReads.{IsEncodable}
use braids_rs.FastNoise.Codec.RoundTrip.{
  IsSlot, IsWord, axes, combine_bytes, write_combine_lem, Reads-read_combine, encode_written,
}
use braids_rs.FastNoise.Codec.NoiseTrip.{warp_payload, write_warp_lem, Reads-read_warp}
use braids_rs.FastNoise.Codec.Truncation.{
  truncated, IsForward, truncated_prefix, IsForward-read_warp, IsForward-read_combine,
}

-- Of the bytes that encoding a payload makes, no proper prefix decodes.
abbrev pub RefusesCut : {A : Type 0} → KernelPayload A → A → Type 0
RefusesCut K p =
    (k : FastNoiseKernel) (s : PlannerScratch) (spec : KernelSpec) (front back : List ℕ) (x : ℕ)
    → (encode K p s).0 ≡ ok spec
    → spec.payload ≡ front ++ (x ∷ back)
    → decode K k front ≡ err truncated

module _ {A : Type 0} (K : KernelPayload A) (p q : A) (bytes : List ℕ) where
  refuses_cut :
      ((w : List ℕ) → K.encode_into p w ≡ ok (w ++ bytes))
      → ((k : FastNoiseKernel) → Reads (K.decode_from k) bytes q)
      → ((k : FastNoiseKernel) → IsForward (K.decode_from k))
      → RefusesCut K p
  unfolding decode
  refuses_cut written reads forward k s spec front back x e split = ap decoded_as (
      truncated_prefix (K.decode_from k) front back x q (forward k)
        (subst (λ bs. Reads (K.decode_from k) bs q) (payload_bytes ∙ split) (reads k)))
    where
      decoded_as : BraidResult (A × PayloadReader) → BraidResult A
      decoded_as r = elim r [ err e ↦ err e | ok (a, after) ↦ ok a ]

      payload_of : BraidResult KernelSpec → List ℕ
      payload_of r = elim r [ err e ↦ [] | ok spec ↦ spec.payload ]

      payload_bytes : bytes ≡ spec.payload
      payload_bytes = ap payload_of (sym (encode_written K p bytes written s) ∙ e)

-- A combine payload of slots and parameters in range that is cut short is refused as truncated.
pub decode_truncated_combine :
    (p : CombinePayload)
    → length p.inputs < 2 ^ 32
    → All IsSlot p.inputs
    → IsSlot p.output
    → length p.params < 2 ^ 32
    → All IsWord p.params
    → RefusesCut combine_payload p
decode_truncated_combine p hi inputs output hp params =
    refuses_cut combine_payload p p (combine_bytes p) (λ w. ap ok (write_combine_lem p hi hp w))
      (λ k. Reads-read_combine p hi inputs output hp params) (λ k. IsForward-read_combine)

-- A warp payload in range, with as many slots as the dimension has axes, that is cut short is refused
-- as truncated.
pub decode_truncated_warp :
    (L : NoiseLibrary) (d : GraphDimension) (p : WarpPayload L.Noise)
    → length p.source ≡ axes d
    → length p.output ≡ axes d
    → All IsSlot p.source
    → All IsSlot p.output
    → IsEncodable (L.fields p.noise)
    → RefusesCut (warp_payload L d) p
decode_truncated_warp L d2 p hs ho source output noise =
    refuses_cut (warp_2d_payload L) p _ _ (λ w. ap ok (write_warp_lem L p w))
      (λ k. Reads-read_warp L p 2 hs ho source output noise) (λ k. IsForward-read_warp L 2)
decode_truncated_warp L d3 p hs ho source output noise =
    refuses_cut (warp_3d_payload L) p _ _ (λ w. ap ok (write_warp_lem L p w))
      (λ k. Reads-read_warp L p 3 hs ho source output noise) (λ k. IsForward-read_warp L 3)

-- ===== src/FastNoise/Factory.antt =====
-- fastnoise/src/runtime.rs: the factory of kernels, and the CPU backend that it is registered with.
-- How a prepared kernel runs is a parameter.
pub mod Kinds
pub mod Prepared
use braids_rs.Base.{List, [], done, none, some, ℕ, ◌∷◌}
use braids_rs.Error.{BraidResult, ok, err, backend_rejected_kernel}
use braids_rs.Call.{Call}
use braids_rs.Pipeline.{KernelSpec}
use braids_rs.Scratch.{ComputeScratch}
use braids_rs.Cpu.{CpuKernel, CpuKernelFactory, CpuComputeBackend, new_backend, register_factory}
use braids_rs.FastNoise.Model.{
  FastNoiseKernel, init_grid_2d, init_grid_3d, warp_2d, warp_3d, sample_2d, sample_3d, combine,
  from_kind, kind, GraphDimension, d2, d3,
}
use braids_rs.FastNoise.Library.{NoiseLibrary}
use braids_rs.FastNoise.Codec.Payloads.{
  WarpPayload, SamplePayload, CombinePayload, decode, warp_2d_payload, warp_3d_payload,
  sample_2d_payload, sample_3d_payload, combine_payload,
}

-- `GridInitKernel`, `WarpKernel`, `SampleKernel` and `CombineKernel`, which hold what their payloads do.
pub data PreparedKernel (Noise : Type 0) : Type 0 where
  grid_init_kernel : GraphDimension → PreparedKernel Noise
  warp_kernel : GraphDimension → WarpPayload Noise → PreparedKernel Noise
  sample_kernel : GraphDimension → SamplePayload Noise → PreparedKernel Noise
  combine_kernel : CombinePayload → PreparedKernel Noise

abbrev pub map_result : {A B : Type 0} → (A → B) → BraidResult A → BraidResult B
map_result f (ok a) = ok (f a)
map_result f (err e) = err e

module _ (L : NoiseLibrary) where
  -- The `match` on the kind.
  unfoldable pub kernel_of : FastNoiseKernel → List ℕ → BraidResult (PreparedKernel L.Noise)
  unfolding decode
  kernel_of init_grid_2d payload = ok (grid_init_kernel d2)
  kernel_of init_grid_3d payload = ok (grid_init_kernel d3)
  kernel_of warp_2d payload =
      map_result (warp_kernel d2) (decode (warp_2d_payload L) warp_2d payload)
  kernel_of warp_3d payload =
      map_result (warp_kernel d3) (decode (warp_3d_payload L) warp_3d payload)
  kernel_of sample_2d payload =
      map_result (sample_kernel d2) (decode (sample_2d_payload L) sample_2d payload)
  kernel_of sample_3d payload =
      map_result (sample_kernel d3) (decode (sample_3d_payload L) sample_3d payload)
  kernel_of combine payload = map_result combine_kernel (decode combine_payload combine payload)

  unfoldable pub prepare_kernel : KernelSpec → BraidResult (PreparedKernel L.Noise)
  unfolding from_kind kernel_of
  prepare_kernel spec = elim (from_kind spec.kind_id) [
    | none ↦ err (backend_rejected_kernel spec.kind_id)
    | some k ↦ kernel_of k spec.payload
  ]

  module _ (run : PreparedKernel L.Noise → CpuKernel) where
    -- `FastNoiseKernelFactory::prepare`, which does not use its scratch.
    unfoldable pub noise_factory : CpuKernelFactory
    unfolding prepare_kernel
    noise_factory spec s = (done (map_result run (prepare_kernel spec)), s)

    -- The loop of `make_cpu_backend`.
    unfoldable pub register_kinds : List FastNoiseKernel → CpuComputeBackend → CpuComputeBackend
    unfolding register_factory noise_factory kind
    register_kinds [] b = b
    register_kinds (k ∷ ks) b = register_kinds ks (register_factory b (kind k) noise_factory)

    unfoldable pub make_cpu_backend : CpuComputeBackend
    unfolding register_kinds new_backend
    make_cpu_backend =
        register_kinds
          (init_grid_2d ∷ init_grid_3d ∷ warp_2d ∷ warp_3d ∷ sample_2d ∷ sample_3d ∷ combine ∷ [])
          new_backend

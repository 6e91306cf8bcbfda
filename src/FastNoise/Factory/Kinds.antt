-- ===== src/FastNoise/Factory/Kinds.antt =====
-- fastnoise/src/runtime.rs, fastnoise/src/model.rs: the kinds that the backend knows, and what it makes of
-- an encoded payload.
use braids_rs.Base.{Option, arith, none, refl, some, ℕ, ◌≡◌}
use braids_rs.Cpu.{CpuKernel, find_factory, register_factory, insert_factory, new_backend}
use braids_rs.FastNoise.Model.{
  FastNoiseKernel, init_grid_2d, init_grid_3d, warp_2d, warp_3d, sample_2d, sample_3d, combine,
  from_kind, kind,
}
use braids_rs.FastNoise.Library.{NoiseLibrary}
use braids_rs.FastNoise.Factory.{PreparedKernel, noise_factory, make_cpu_backend, register_kinds}

pub from_kind-kind : (k : FastNoiseKernel) → from_kind (kind k) ≡ some k
unfolding from_kind kind
from_kind-kind init_grid_2d = refl
from_kind-kind init_grid_3d = refl
from_kind-kind warp_2d = refl
from_kind-kind warp_3d = refl
from_kind-kind sample_2d = refl
from_kind-kind sample_3d = refl
from_kind-kind combine = refl

-- A test on whether a number is the kind of a kernel.
abbrev pub known : {A : Type 0} → Option FastNoiseKernel → A → Option A
known none a = none
known (some k) a = some a

module _ (L : NoiseLibrary) (run : PreparedKernel L.Noise → CpuKernel) where
  -- The backend has the factory for the kinds of the seven kernels and for no other number.
  pub find_factory-make_cpu_backend :
      (n : ℕ)
      → find_factory n (make_cpu_backend L run).factories
        ≡ known (from_kind n) (noise_factory L run)
  unfolding make_cpu_backend register_kinds register_factory insert_factory new_backend kind
      from_kind
  find_factory-make_cpu_backend n = ground arith

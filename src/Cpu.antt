-- ===== src/Cpu.antt =====
-- src/cpu.rs: the CPU backend, a registry of kernel factories.
-- Kernels and factories are trait objects of the planner's own: functions here.
pub mod Kernels
pub mod Prepares
mod Examples
use braids_rs.Base.{
  Bool, List, Option, [], done, false, get_elem?, if◌then◌else◌, none, some, suc, true, ℕ, ◌==◌,
  ◌∷◌,
}
use braids_rs.Error.{BraidResult, ok, err, from_text, cancelled, backend_rejected_kernel}
use braids_rs.Call.{Call, and_call}
use braids_rs.Pipeline.{CompiledPlan, StageSpec, KernelSpec}
use braids_rs.Packet.{JobPacket}
use braids_rs.Scratch.{ComputeScratch, reset_compute_scratch}

-- `CpuKernel::run`
abbrev pub CpuKernel : Type 0
CpuKernel = JobPacket → (ℕ → Bool) → Call (Unit {0}) JobPacket

-- `CpuKernelFactory::prepare`
abbrev pub CpuKernelFactory : Type 0
CpuKernelFactory = KernelSpec → ComputeScratch → Call CpuKernel ComputeScratch

pub record CpuComputeBackend : Type 0 where
  pub factories : List (ℕ × CpuKernelFactory)

pub record PreparedStage : Type 0 where
  pub kernels : List CpuKernel

pub record CpuPrepared : Type 0 where
  pub stages : List PreparedStage

unfoldable pub new_backend : CpuComputeBackend
new_backend = record { factories = [] }

abbrev pub find_factory : ℕ → List (ℕ × CpuKernelFactory) → Option CpuKernelFactory
find_factory kind [] = none
find_factory kind ((k, f) ∷ fs) =
    let rest = find_factory kind fs in if k == kind then some f else rest

-- `HashMap::insert`: a factory of the same kind is replaced.
unfoldable pub insert_factory :
    ℕ → CpuKernelFactory → List (ℕ × CpuKernelFactory) → List (ℕ × CpuKernelFactory)
insert_factory kind f [] = (kind, f) ∷ []
insert_factory kind f ((k, g) ∷ fs) =
    let rest = insert_factory kind f fs in if k == kind then (kind, f) ∷ fs else (k, g) ∷ rest

unfoldable pub register_factory : CpuComputeBackend → ℕ → CpuKernelFactory → CpuComputeBackend
unfolding insert_factory
register_factory b kind f = record { factories = insert_factory kind f b.factories }

-- The inner loop of `prepare`.
unfoldable pub prepare_kernels :
    CpuComputeBackend → List KernelSpec → ComputeScratch → Call (List CpuKernel) ComputeScratch
prepare_kernels b [] s = (done (ok []), s)
prepare_kernels b (k ∷ ks) s = elim (find_factory k.kind_id b.factories) [
  | none ↦ (done (err (backend_rejected_kernel k.kind_id)), s)
  | some f ↦ and_call (f k s) λ kernel s'.
      and_call (prepare_kernels b ks s') λ kernels s''. (done (ok (kernel ∷ kernels)), s'')
]

unfoldable pub prepare_stages :
    CpuComputeBackend → List StageSpec → ComputeScratch → Call (List PreparedStage) ComputeScratch
unfolding prepare_kernels
prepare_stages b [] s = (done (ok []), s)
prepare_stages b (stage ∷ stages) s = and_call (prepare_kernels b stage.kernels s) λ kernels s'.
    and_call (prepare_stages b stages s')
      λ rest s''. (done (ok (record { kernels = kernels } ∷ rest)), s'')

unfoldable pub prepare :
    {M : Type 0}
    → CpuComputeBackend
    → CompiledPlan M
    → Option CpuPrepared
    → ComputeScratch
    → Call CpuPrepared ComputeScratch
unfolding prepare_stages
prepare b plan reuse s =
    and_call (prepare_stages b plan.pipeline.stages (reset_compute_scratch s))
      λ stages s'. (done (ok (record { stages = stages })), s')

-- The loop over the kernels of a stage; `looks` counts the looks at the flag that the loop has made.
unfoldable pub run_kernels : List CpuKernel → ℕ → JobPacket → (ℕ → Bool) → Call (Unit {0}) JobPacket
run_kernels [] looks p cancel = (done (ok tt), p)
run_kernels (k ∷ ks) looks p cancel = elim (cancel looks) [
  | true ↦ (done (err cancelled), p)
  | false ↦ and_call (k p cancel) λ _ p'. run_kernels ks (suc looks) p' cancel
]

unfoldable pub run_stage :
    CpuPrepared → ℕ → StageSpec → JobPacket → (ℕ → Bool) → Call (Unit {0}) JobPacket
unfolding run_kernels
run_stage prepared index stage p cancel = elim (get_elem? prepared.stages index) [
  | none ↦ (done (err (from_text "prepared stage missing")), p)
  | some s ↦ run_kernels s.kernels 0 p cancel
]

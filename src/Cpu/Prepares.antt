-- ===== src/Cpu/Prepares.antt =====
-- src/cpu.rs: what `prepare` makes of a plan.
use braids_rs.Base.{List, Option, [], done, none, panic, refl, some, ◌∷◌, ◌≡◌}
use braids_rs.Error.{ok, err, backend_rejected_kernel}
use braids_rs.Call.{Call, and_call, Settles}
use braids_rs.Pipeline.{CompiledPlan, StageSpec, KernelSpec}
use braids_rs.Scratch.{ComputeScratch, reset_compute_scratch}
use braids_rs.Cpu.{
  CpuKernel, CpuKernelFactory, CpuComputeBackend, PreparedStage, CpuPrepared, find_factory,
  prepare_kernels, prepare_stages, prepare,
}

-- The kernels are what the factories registered for the specs make of them, in order, where the scratch
-- goes from one factory to the next, from s at first to t at last.
abbrev pub Makes :
    CpuComputeBackend → List KernelSpec → List CpuKernel → ComputeScratch → ComputeScratch → Type 0
Makes b [] [] s t = t ≡ s
Makes b [] (q ∷ qs) s t = ⊥
Makes b (k ∷ ks) [] s t = ⊥
Makes b (k ∷ ks) (q ∷ qs) s t =
    (f : CpuKernelFactory) × (u : ComputeScratch) × (find_factory k.kind_id b.factories ≡ some f)
    × (f k s ≡ (done (ok q), u))
    × Makes b ks qs u t

-- A prepared stage for each stage of the plan, with what the factories make of the kernels of that stage.
abbrev pub Matches :
    CpuComputeBackend
    → List StageSpec
    → List PreparedStage
    → ComputeScratch
    → ComputeScratch
    → Type 0
Matches b [] [] s t = t ≡ s
Matches b [] (q ∷ qs) s t = ⊥
Matches b (stage ∷ stages) [] s t = ⊥
Matches b (stage ∷ stages) (q ∷ qs) s t =
    (u : ComputeScratch) × Makes b stage.kernels q.kernels s u × Matches b stages qs u t

module _ (b : CpuComputeBackend) where
  kernel_added :
      (k : KernelSpec) (ks : List KernelSpec) (q : CpuKernel) (f : CpuKernelFactory)
      (s u : ComputeScratch) (c : Call (List CpuKernel) ComputeScratch)
      → find_factory k.kind_id b.factories ≡ some f
      → f k s ≡ (done (ok q), u)
      → Settles (λ kernels t. Makes b ks kernels u t) (λ _. Unit {0}) c
      → Settles
          (λ kernels t. Makes b (k ∷ ks) kernels s t)
          (λ _. Unit {0})
          (and_call c λ kernels t. (done (ok (q ∷ kernels)), t))
  kernel_added k ks q f s u (done (ok kernels), t) found made h = (f, u, found, made, h)
  kernel_added k ks q f s u (done (err _), t) found made h = tt
  kernel_added k ks q f s u (panic, t) found made h = tt

  kernel_made :
      (k : KernelSpec) (ks : List KernelSpec) (f : CpuKernelFactory) (s : ComputeScratch)
      (rest : ComputeScratch → Call (List CpuKernel) ComputeScratch)
      (c : Call CpuKernel ComputeScratch)
      → find_factory k.kind_id b.factories ≡ some f
      → f k s ≡ c
      → ((u : ComputeScratch)
          → Settles (λ kernels t. Makes b ks kernels u t) (λ _. Unit {0}) (rest u))
      → Settles
          (λ kernels t. Makes b (k ∷ ks) kernels s t)
          (λ _. Unit {0})
          (and_call c λ q u. and_call (rest u) λ kernels t. (done (ok (q ∷ kernels)), t))
  kernel_made k ks f s rest (done (ok q), u) found made h =
      kernel_added k ks q f s u (rest u) found made (h u)
  kernel_made k ks f s rest (done (err _), u) found made h = tt
  kernel_made k ks f s rest (panic, u) found made h = tt

  kernel_with :
      (k : KernelSpec) (ks : List KernelSpec) (s : ComputeScratch)
      (rest : ComputeScratch → Call (List CpuKernel) ComputeScratch) (o : Option CpuKernelFactory)
      → find_factory k.kind_id b.factories ≡ o
      → ((u : ComputeScratch)
          → Settles (λ kernels t. Makes b ks kernels u t) (λ _. Unit {0}) (rest u))
      → Settles
          (λ kernels t. Makes b (k ∷ ks) kernels s t)
          (λ _. Unit {0})
          (elim o [
            | none ↦ (done (err (backend_rejected_kernel k.kind_id)), s)
            | some f ↦
                and_call (f k s) λ q u. and_call (rest u) λ kernels t. (done (ok (q ∷ kernels)), t)
          ])
  kernel_with k ks s rest none found h = tt
  kernel_with k ks s rest (some f) found h = kernel_made k ks f s rest (f k s) found refl h

  prepare_kernels-Makes :
      (ks : List KernelSpec) (s : ComputeScratch)
      → Settles (λ kernels t. Makes b ks kernels s t) (λ _. Unit {0}) (prepare_kernels b ks s)
  unfolding prepare_kernels
  prepare_kernels-Makes [] s = refl
  prepare_kernels-Makes (k ∷ ks) s =
      kernel_with k ks s (prepare_kernels b ks) (find_factory k.kind_id b.factories) refl
        (prepare_kernels-Makes ks)

  stage_added :
      (stage : StageSpec) (stages : List StageSpec) (kernels : List CpuKernel)
      (s u : ComputeScratch) (c : Call (List PreparedStage) ComputeScratch)
      → Makes b stage.kernels kernels s u
      → Settles (λ qs t. Matches b stages qs u t) (λ _. Unit {0}) c
      → Settles
          (λ qs t. Matches b (stage ∷ stages) qs s t)
          (λ _. Unit {0})
          (and_call c λ rest t. (done (ok (record { kernels = kernels } ∷ rest)), t))
  stage_added stage stages kernels s u (done (ok qs), t) r h = (u, r, h)
  stage_added stage stages kernels s u (done (err _), t) r h = tt
  stage_added stage stages kernels s u (panic, t) r h = tt

  stage_after :
      (stage : StageSpec) (stages : List StageSpec) (s : ComputeScratch)
      (c : Call (List CpuKernel) ComputeScratch)
      (rest : ComputeScratch → Call (List PreparedStage) ComputeScratch)
      → Settles (λ kernels u. Makes b stage.kernels kernels s u) (λ _. Unit {0}) c
      → ((u : ComputeScratch) → Settles (λ qs t. Matches b stages qs u t) (λ _. Unit {0}) (rest u))
      → Settles
          (λ qs t. Matches b (stage ∷ stages) qs s t)
          (λ _. Unit {0})
          (and_call c λ kernels u.
            and_call (rest u) λ qs t. (done (ok (record { kernels = kernels } ∷ qs)), t))
  stage_after stage stages s (done (ok kernels), u) rest h k =
      stage_added stage stages kernels s u (rest u) h (k u)
  stage_after stage stages s (done (err _), u) rest h k = tt
  stage_after stage stages s (panic, u) rest h k = tt

  prepare_stages-Matches :
      (stages : List StageSpec) (s : ComputeScratch)
      → Settles (λ qs t. Matches b stages qs s t) (λ _. Unit {0}) (prepare_stages b stages s)
  unfolding prepare_stages
  prepare_stages-Matches [] s = refl
  prepare_stages-Matches (stage ∷ stages) s =
      stage_after stage stages s (prepare_kernels b stage.kernels s) (prepare_stages b stages)
        (prepare_kernels-Makes stage.kernels s) (prepare_stages-Matches stages)

  prepared-Matches :
      (stages : List StageSpec) (s : ComputeScratch) (c : Call (List PreparedStage) ComputeScratch)
      → Settles (λ qs t. Matches b stages qs s t) (λ _. Unit {0}) c
      → Settles
          (λ (q : CpuPrepared) t. Matches b stages q.stages s t)
          (λ _. Unit {0})
          (and_call c λ qs t. (done (ok (record { stages = qs })), t))
  prepared-Matches stages s (done (ok qs), t) h = h
  prepared-Matches stages s (done (err _), t) h = tt
  prepared-Matches stages s (panic, t) h = tt

-- A plan that the CPU backend prepares has only kernels of registered kinds. The prepared state has a
-- stage for each stage of the plan, in order, and a stage has for each kernel of the plan's stage, in
-- order, exactly the kernel that the factory registered for its kind made of its spec; the factories ran
-- one after the other on the scratch, which was cleared at first.
pub prepare-Matches :
    {M : Type 0} (b : CpuComputeBackend) (plan : CompiledPlan M) (reuse : Option CpuPrepared)
    (s : ComputeScratch)
    → Settles
        (λ (q : CpuPrepared) t. Matches b plan.pipeline.stages q.stages (reset_compute_scratch s) t)
        (λ _. Unit {0})
        (prepare b plan reuse s)
unfolding prepare
prepare-Matches b plan reuse s =
    prepared-Matches b plan.pipeline.stages (reset_compute_scratch s)
      (prepare_stages b plan.pipeline.stages (reset_compute_scratch s))
      (prepare_stages-Matches b plan.pipeline.stages (reset_compute_scratch s))

-- ===== src/Cpu/Kernels.antt =====
-- src/cpu.rs: which kernels a stage runs.
use braids_rs.Base.{
  Bool, List, [], ap, arith, done, false, if◌then◌else◌, length, panic, refl, some, suc, true, ℕ,
  ◌++◌, ◌+◌, ◌∷◌, ◌≡◌, get_elem?, ◌∙◌,
}
use braids_rs.Error.{ok, err}
use braids_rs.Call.{Call, and_call}
use braids_rs.Pipeline.{StageSpec}
use braids_rs.Packet.{JobPacket}
use braids_rs.Cpu.{CpuKernel, PreparedStage, CpuPrepared, run_kernels, run_stage, cancelled}

run_kernels_cons :
    (k : CpuKernel) (ks ls : List CpuKernel) (n : ℕ) (p q : JobPacket) (c : ℕ → Bool) (b : Bool)
    (r : Call (Unit {0}) JobPacket)
    → c n ≡ b
    → k p c ≡ r
    → run_kernels (k ∷ ks) n p c ≡ (done (ok tt), q)
    → ((p' : JobPacket)
        → run_kernels ks (suc n) p' c ≡ (done (ok tt), q)
        → run_kernels (ks ++ ls) (suc n) p' c ≡ run_kernels ls (suc n + length ks) q c)
    → run_kernels (k ∷ (ks ++ ls)) n p c ≡ run_kernels ls (n + suc (length ks)) q c
unfolding run_kernels
run_kernels_cons k ks ls n p q c true r f g e h = ground (arith, f, g, e)
run_kernels_cons k ks ls n p q c false (done (ok _), p') f g e h =
    ground (arith, f, g, h p' (ground (arith, f, g, e)))
run_kernels_cons k ks ls n p q c false (done (err _), p') f g e h = ground (arith, f, g, e)
run_kernels_cons k ks ls n p q c false (panic, p') f g e h = ground (arith, f, g, e)

run_kernels_from :
    (ks ls : List CpuKernel) (n : ℕ) (p q : JobPacket) (c : ℕ → Bool)
    → run_kernels ks n p c ≡ (done (ok tt), q)
    → run_kernels (ks ++ ls) n p c ≡ run_kernels ls (n + length ks) q c
unfolding run_kernels
run_kernels_from [] ls n p q c e = ground arith
run_kernels_from (k ∷ ks) ls n p q c e =
    run_kernels_cons k ks ls n p q c (c n) (k p c) refl refl e
      (λ p' e'. run_kernels_from ks ls (suc n) p' q c e')

-- A stage runs its kernels in order, with one look at the cancel flag before each: once the kernels `ks`
-- have run and left the packet as `q`, a look that finds the job cancelled ends the stage with the error
-- `cancelled` and `q` as it is, and otherwise the next kernel runs on `q`, and the rest follow unless it
-- fails.
pub run_stage_step :
    (prepared : CpuPrepared) (index : ℕ) (stage : StageSpec) (p q : JobPacket) (c : ℕ → Bool)
    (s : PreparedStage) (ks ls : List CpuKernel) (k : CpuKernel)
    → get_elem? prepared.stages index ≡ some s
    → s.kernels ≡ ks ++ (k ∷ ls)
    → run_kernels ks 0 p c ≡ (done (ok tt), q)
    → run_stage prepared index stage p c ≡ (
        if c (length ks)
        then (done (err cancelled), q)
        else and_call (k q c) (λ _ q'. run_kernels ls (suc (length ks)) q' c))
unfolding run_stage
run_stage_step prepared index stage p q c s ks ls k found split ran =
    stage_found
    ∙ ap (λ kernels. run_kernels kernels 0 p c) split
    ∙ run_kernels_from ks (k ∷ ls) 0 p q c ran
    ∙ ap (λ n. run_kernels (k ∷ ls) n q c) zero_first
    ∙ next_kernel (c (length ks)) refl
  where
    zero_first : 0 + length ks ≡ length ks
    zero_first = omega arith

    stage_found : run_stage prepared index stage p c ≡ run_kernels s.kernels 0 p c
    stage_found = ground (arith, found)

    next_kernel :
        (b : Bool)
        → c (length ks) ≡ b
        → run_kernels (k ∷ ls) (length ks) q c ≡ (
            if c (length ks)
            then (done (err cancelled), q)
            else and_call (k q c) (λ _ q'. run_kernels ls (suc (length ks)) q' c))
    next_kernel true e = ground (arith, e)
    next_kernel false e = ground (arith, e)

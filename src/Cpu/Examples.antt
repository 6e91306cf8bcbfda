-- ===== src/Cpu/Examples.antt =====
-- src/cpu.rs: a backend with one kernel, which counts the times it runs as queries of the packet.
use braids_rs.Base.{Bool, [], done, false, if◌then◌else◌, none, refl, suc, ℕ, ◌==◌, ◌∷◌, ◌≡◌}
use braids_rs.Error.{ok, err, cancelled}
use braids_rs.Call.{and_call, Settles}
use braids_rs.Pipeline.{CompiledPlan}
use braids_rs.Pipeline.Kinds.{serial}
use braids_rs.Packet.{JobPacket, new_packet}
use braids_rs.Scratch.{new_compute_scratch}
use braids_rs.Cpu.{
  CpuKernel, CpuComputeBackend, CpuPrepared, new_backend, register_factory, prepare, run_kernels,
  run_stage,
}
use braids_rs.Scratch.{reset_compute_scratch}
use braids_rs.Cpu.Kernels.{run_stage_step}
use braids_rs.Cpu.Prepares.{Matches, prepare-Matches}

abbrev tick : CpuKernel
tick = λ p c. (done (ok tt), record p { query_count = suc p.query_count })

abbrev ticking : CpuComputeBackend
ticking = register_factory new_backend 4 (λ k s. (done (ok tick), s))

abbrev ticking_plan : CompiledPlan (Unit {0})
ticking_plan = record {
  pipeline = record {
    buffers = [];
    stages =
        record {
          kernels = record { kind_id = 4; payload = []; bindings = []; dispatch = serial } ∷ [];
        }
        ∷ [];
  };
  static_buffers = [];
  planner_meta = tt;
}

prepare-Matches_example :
    Settles
      (λ (q : CpuPrepared) t.
        Matches ticking ticking_plan.pipeline.stages q.stages
          (reset_compute_scratch new_compute_scratch)
          t)
      (λ _. Unit {0})
      (prepare ticking ticking_plan none new_compute_scratch)
prepare-Matches_example = prepare-Matches ticking ticking_plan none new_compute_scratch

abbrev two_ticks : CpuPrepared
two_ticks = record { stages = record { kernels = tick ∷ tick ∷ [] } ∷ [] }

abbrev ticked : JobPacket
ticked = record { query_count = 1; buffers = []; slot_indices = []; is_dirty = false }

abbrev second_look : ℕ → Bool
second_look n = n == 1

one_tick : run_kernels (tick ∷ []) 0 new_packet second_look ≡ (done (ok tt), ticked)
unfolding run_kernels new_packet
one_tick = refl

run_stage_step_example : run_stage two_ticks 0 (record { kernels = [] }) new_packet second_look ≡ (
    if second_look 1
    then (done (err cancelled), ticked)
    else and_call (tick ticked second_look) (λ _ q. run_kernels [] 2 q second_look))
run_stage_step_example =
    run_stage_step two_ticks 0 (record { kernels = [] }) new_packet ticked second_look
      (record { kernels = tick ∷ tick ∷ [] }) (tick ∷ []) [] tick refl refl one_tick

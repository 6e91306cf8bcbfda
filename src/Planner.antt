-- ===== src/Planner.antt =====
-- src/planner.rs and src/compute.rs: the two interfaces that the stack is generic in, with the default
-- methods. What a planner or a backend does is not in this repository's core: it is a parameter.
use braids_rs.Base.{Bool, List, Option, Outcome, [], done, none, panic, ℕ, ◌∷◌}
use braids_rs.Error.{BraidResult, ok, err, from_text}
use braids_rs.Call.{Call}
use braids_rs.Pipeline.{CompiledPlan, StageSpec}
use braids_rs.Packet.{JobPacket}
use braids_rs.Scratch.{PlannerScratch, BatchScratch, ComputeScratch}

pub record PlannerBackend : Type 1 where
  pub Spec : Type 0
  pub State : Type 0
  pub Change : Type 0
  pub Query : Type 0
  pub Resolution : Type 0
  pub PlannerMeta : Type 0
  pub prefer_direct_one_query_inline : Bool
  pub prefer_one_query_inline : Bool
  pub init_state : Spec → Outcome (BraidResult State)
  pub reset_state : Spec → State → Call (Unit {0}) State
  pub apply : List Change → State → Call (Unit {0}) State
  pub updated_state : State → List Change → Outcome (BraidResult State)
  pub compile : State → PlannerScratch → Call (CompiledPlan PlannerMeta) PlannerScratch
  pub encode_batch :
      CompiledPlan PlannerMeta
      → List Query
      → JobPacket × BatchScratch
      → Call (Unit {0}) (JobPacket × BatchScratch)
  pub encode_one :
      CompiledPlan PlannerMeta
      → Query
      → JobPacket × BatchScratch
      → Call (Unit {0}) (JobPacket × BatchScratch)
  pub decode_batch : CompiledPlan PlannerMeta → JobPacket → Outcome (BraidResult (List Resolution))
  pub decode_one : CompiledPlan PlannerMeta → JobPacket → Outcome (BraidResult Resolution)
  pub resolve_one_direct :
      CompiledPlan PlannerMeta → Query → Outcome (Option (BraidResult Resolution))

-- The last argument of `run_stage` is what the stage sees at its successive looks at the cancel flag.
pub record ComputeBackend (M : Type 0) : Type 1 where
  pub Prepared : Type 0
  pub prepare : CompiledPlan M → Option Prepared → ComputeScratch → Call Prepared ComputeScratch
  pub run_stage : Prepared → ℕ → StageSpec → JobPacket → (ℕ → Bool) → Call (Unit {0}) JobPacket
  pub run_one_stage : Prepared → ℕ → StageSpec → JobPacket → (ℕ → Bool) → Call (Unit {0}) JobPacket

-- `encode_one`, unless it is overridden.
unfoldable pub default_encode_one :
    {M Q : Type 0}
    → (CompiledPlan M
        → List Q
        → JobPacket × BatchScratch
        → Call (Unit {0}) (JobPacket × BatchScratch))
    → CompiledPlan M
    → Q
    → JobPacket × BatchScratch
    → Call (Unit {0}) (JobPacket × BatchScratch)
default_encode_one encode_batch plan query s = encode_batch plan (query ∷ []) s

abbrev pub one_value {ℓ} : {R : Type ℓ} → List R → BraidResult R
one_value (v ∷ []) = ok v
one_value _ = err (from_text "single-query decode returned unexpected batch size")

abbrev pub map_result {ℓ} :
    {A B : Type ℓ} → (A → BraidResult B) → Outcome (BraidResult A) → Outcome (BraidResult B)
map_result f (done (ok a)) = done (f a)
map_result f (done (err e)) = done (err e)
map_result f panic = panic

-- `decode_one`, unless it is overridden.
unfoldable pub default_decode_one :
    {M R : Type 0}
    → (CompiledPlan M → JobPacket → Outcome (BraidResult (List R)))
    → CompiledPlan M
    → JobPacket
    → Outcome (BraidResult R)
default_decode_one decode_batch plan packet = map_result one_value (decode_batch plan packet)

-- `resolve_one_direct`, unless it is overridden.
unfoldable pub default_resolve_one_direct :
    {M Q R : Type 0} → CompiledPlan M → Q → Outcome (Option (BraidResult R))
default_resolve_one_direct plan query = done none

-- `run_one_stage`, unless it is overridden.
unfoldable pub default_run_one_stage :
    {S : Type 0}
    → (S → ℕ → StageSpec → JobPacket → (ℕ → Bool) → Call (Unit {0}) JobPacket)
    → S
    → ℕ
    → StageSpec
    → JobPacket
    → (ℕ → Bool)
    → Call (Unit {0}) JobPacket
default_run_one_stage run_stage prepared index stage packet cancel =
    run_stage prepared index stage packet cancel

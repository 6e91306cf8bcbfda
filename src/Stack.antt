-- ===== src/Stack.antt =====
-- src/stack.rs and src/version.rs: the types of a stack that its parts share.
pub mod Packets
pub mod Jobs
pub mod Ends
pub mod Turns
pub mod Results
pub mod Direct
pub mod Versions
pub mod Swaps
pub mod Updates
pub mod Numbers
pub mod Inline
pub mod Contexts
pub mod InlineRuns
pub mod Table
pub mod Dispatches
pub mod Moves
pub mod Collects
mod Examples
mod TableExamples
use braids_rs.Base.{Bool, List, Option, ℕ}
use braids_rs.Error.{BraidError, BraidResult, ok, err}
use braids_rs.Pipeline.{CompiledPlan}
use braids_rs.Planner.{PlannerBackend, ComputeBackend}

-- `FrozenStackVersion`, without its way back to the pool of prepared states.
pub record FrozenStackVersion (P : PlannerBackend) (C : ComputeBackend P.PlannerMeta) : Type 0 where
  pub id : ℕ
  pub compiled : CompiledPlan P.PlannerMeta
  pub prepared : Option C.Prepared

-- What a run sees of the cancel flag: at the look before each task or stage, and at each look that a
-- stage makes itself. Other threads set the flag at any time.
pub record Looks : Type 0 where
  pub before : ℕ → Bool
  pub during : ℕ → ℕ → Bool

pub data JobRecordState (R : Type 0) : Type 0 where
  queued running cancelled_job : JobRecordState R
  completed : Option (List R) → JobRecordState R
  failed : Option BraidError → JobRecordState R

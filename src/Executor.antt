-- ===== src/Executor.antt =====
-- src/executor.rs: the executor's task queue and the lanes of one backend.
-- A task is a closure that the code only moves about; here it is a number. Each function below is one
-- critical section, or one access of the shutdown flag; `Executor/Steps` lets threads interleave them.
-- No user code runs under these locks, so they are never poisoned.
pub mod Steps
pub mod Lanes
pub mod Tasks
pub mod Workers
mod Examples
use braids_rs.Base.{
  ℕ, suc, ◌+◌, ◌-◌, Bool, true, false, not, ◌&&◌, List, [], ◌∷◌, ◌++◌, ltb, if◌then◌else◌, Option,
  none, some,
}
use braids_rs.Error.{BraidResult, ok, err, executor_shutdown}
use Prim.Native.Nat.{min, max}

-- A plain task, or one wrapped so that its end gives a lane back (`BackendWrappedTask`).
pub data Queued : Type 0 where
  plain wrapped : ℕ → Queued

pub record BackendConfig : Type 0 where
  pub lane_count : ℕ

unfoldable pub default_config : BackendConfig
default_config = record { lane_count = 1 }

pub record BackendQueueState : Type 0 where
  pub lane_count : ℕ
  pub prepare_lane_count : ℕ
  pub lanes_in_use : ℕ
  pub prepares_in_use : ℕ
  pub waiting : List ℕ

-- One executor with one backend. `ready` are tasks that hold a lane and are on their way to
-- `submit_boxed`; `cleared` have passed its test of the shutdown flag and are not yet in the queue;
-- `running` are in the hands of workers; `releasing` counts calls of `finish_lane` that are due, and
-- `preparing` the permits that are held. `ran` and `rejected` record what became of the tasks.
pub record Executor : Type 0 where
  pub runtime : BackendQueueState
  pub open runtime use *
  pub shutdown : Bool
  pub queue : List Queued
  pub ready : List ℕ
  pub cleared : List Queued
  pub running : List Queued
  pub releasing : ℕ
  pub preparing : ℕ
  pub ran : List ℕ
  pub rejected : List ℕ

-- `register_backend_with_prepare_lanes`
unfoldable pub register_lanes : ℕ → ℕ → BackendQueueState
register_lanes lane_count prepare_lane_count = record {
  lane_count = max lane_count 1;
  prepare_lane_count = min (max prepare_lane_count 1) (max lane_count 1);
  lanes_in_use = 0;
  prepares_in_use = 0;
  waiting = [];
}

-- `register_backend`
unfoldable pub register_backend : BackendConfig → BackendQueueState
unfolding register_lanes
register_backend config = register_lanes config.lane_count config.lane_count

-- `BraidExecutor::new`, with its one backend registered.
unfoldable pub new_executor : BackendQueueState → Executor
new_executor runtime = record {
  runtime = runtime;
  shutdown = false;
  queue = [];
  ready = [];
  cleared = [];
  running = [];
  releasing = 0;
  preparing = 0;
  ran = [];
  rejected = [];
}

-- `BackendRuntime::schedule`: a free lane is taken, or the task waits.
unfoldable pub schedule : Executor → ℕ → Executor
schedule x t =
    if ltb x.lanes_in_use x.lane_count
    then record x {
      runtime = record (x.runtime) { lanes_in_use = x.lanes_in_use + 1 };
      ready = t ∷ x.ready;
    }
    else record x { runtime = record (x.runtime) { waiting = x.waiting ++ t ∷ [] } }

-- `submit_boxed`: the test of the flag, for a plain task; a refused one is dropped by its caller.
unfoldable pub submit : Executor → ℕ → Executor × BraidResult (Unit {0})
submit x t =
    if x.shutdown
    then (record x { rejected = t ∷ x.rejected }, err executor_shutdown)
    else (record x { cleared = plain t ∷ x.cleared }, ok tt)

-- `submit_ready` with `reject_on_failure`, for a task that has left `ready` (those left are `rest`): the
-- same test; a refused task is rejected, and then its lane is given back.
unfoldable pub submit_ready : Executor → ℕ → List ℕ → Executor × BraidResult (Unit {0})
submit_ready x t rest =
    if x.shutdown
    then (
      record x { ready = rest; rejected = t ∷ x.rejected; releasing = x.releasing + 1 },
      err executor_shutdown,
    )
    else (record x { ready = rest; cleared = wrapped t ∷ x.cleared }, ok tt)

-- `submit_boxed`: the push.
unfoldable pub push_task : Executor → Queued → List Queued → Executor
push_task x q rest = record x { cleared = rest; queue = x.queue ++ q ∷ [] }

-- `worker_loop`: a worker takes the task at the front.
unfoldable pub take_task : Executor → Queued → List Queued → Executor
take_task x q rest = record x { queue = rest; running = q ∷ x.running }

-- `RunnableTask::run`, once the closure has returned or its panic was caught.
unfoldable pub finish_task : Executor → Queued → List Queued → Executor
finish_task x (plain t) rest = record x { running = rest; ran = t ∷ x.ran }
finish_task x (wrapped t) rest = record x {
  running = rest;
  ran = t ∷ x.ran;
  releasing = x.releasing + 1;
}

finish_lane_from : Executor → List ℕ → Executor
finish_lane_from x [] = record x {
  runtime = record (x.runtime) { lanes_in_use = x.lanes_in_use - 1 };
  releasing = x.releasing - 1;
}
finish_lane_from x (t ∷ rest) = record x {
  runtime = record (x.runtime) { waiting = rest };
  ready = t ∷ x.ready;
  releasing = x.releasing - 1;
}

-- `finish_lane`: the lane goes to the task that has waited longest, or it is free.
unfoldable pub finish_lane : Executor → Executor
unfolding finish_lane_from
finish_lane x = finish_lane_from x x.waiting

-- One round of the loop in `acquire_prepare`: shut down, a permit, or back to sleep.
pub data Acquired : Type 0 where
  refused : BraidResult (Unit {0}) → Acquired
  granted : Executor → Acquired
  asleep : Acquired

abbrev none_waiting : List ℕ → Bool
none_waiting [] = true
none_waiting (t ∷ ts) = false

unfoldable pub acquire_prepare : Executor → Acquired
acquire_prepare x =
    if x.shutdown
    then refused (err executor_shutdown)
    else if none_waiting x.waiting
        && (ltb x.lanes_in_use x.lane_count && ltb x.prepares_in_use x.prepare_lane_count)
    then granted (record x {
      runtime = record (x.runtime) {
        lanes_in_use = x.lanes_in_use + 1;
        prepares_in_use = x.prepares_in_use + 1;
      };
      preparing = x.preparing + 1;
    })
    else asleep

finish_prepare_from : Executor → List ℕ → Executor
finish_prepare_from x [] = record x {
  runtime = record (x.runtime) {
    prepares_in_use = x.prepares_in_use - 1;
    lanes_in_use = x.lanes_in_use - 1;
  };
  preparing = x.preparing - 1;
}
finish_prepare_from x (t ∷ rest) = record x {
  runtime = record (x.runtime) {
    prepares_in_use = x.prepares_in_use - 1;
    lanes_in_use = x.lanes_in_use - 1 + 1;
    waiting = rest;
  };
  ready = t ∷ x.ready;
  preparing = x.preparing - 1;
}

-- `finish_prepare`, on the drop of a permit.
unfoldable pub finish_prepare : Executor → Executor
unfolding finish_prepare_from
finish_prepare x = finish_prepare_from x x.waiting

-- `BraidExecutor::shutdown`: the swap of the flag.
unfoldable pub set_shutdown : Executor → Executor
set_shutdown x = record x { shutdown = true }

-- `BackendRuntime::shutdown`: those that wait are rejected; they hold no lane.
unfoldable pub drain_waiting : Executor → Executor
drain_waiting x = record x {
  runtime = record (x.runtime) { waiting = [] };
  rejected = x.waiting ++ x.rejected;
}

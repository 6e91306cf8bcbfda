-- ===== src/Stack/Examples.antt =====
-- src/stack.rs: a planner that counts its queries, with a plan of one stage, and runs of it.
use braids_rs.Base.{
  List, [], arith, done, false, length, none, refl, some, true, ℕ, ◌+◌, ◌∷◌, map, Bool, ◌≡◌,
}
use braids_rs.Error.{ok, err, executor_shutdown}
use braids_rs.Call.{Settles}
use braids_rs.Pipeline.{CompiledPlan, validate}
use braids_rs.Scratch.{new_planner_scratch}
use braids_rs.Planner.{PlannerBackend, ComputeBackend}
use braids_rs.Stack.{FrozenStackVersion}
use braids_rs.Stack.Jobs.{Turn, run_job, new_job}
use braids_rs.Stack.Ends.{IsEnded}
use braids_rs.Stack.Turns.{run_job_ends}
use braids_rs.Stack.Results.{state_of, calm_turn}
use braids_rs.Stack.Direct.{run_job_direct, direct_run}
use braids_rs.Stack.Versions.{StackInner, update}
use braids_rs.Stack.Swaps.{IsKept}
use braids_rs.Stack.Updates.{IsUpdated, update_lem}
use braids_rs.Stack.Packets.{Pools}
use braids_rs.Stack.Inline.{InlineLooks, execute_inline}
use braids_rs.Stack.InlineRuns.{IsCalm, context_of, run_job-execute_inline}
use braids_rs.Stack.Numbers.{IsConsistent, Op, run_ops, run_ops-IsConsistent}

abbrev one_stage : CompiledPlan (Unit {0})
one_stage = record {
  pipeline = record { buffers = []; stages = record { kernels = [] } ∷ [] };
  static_buffers = [];
  planner_meta = tt;
}

abbrev counter : PlannerBackend
counter = record {
  Spec = ℕ;
  State = ℕ;
  Change = ℕ;
  Query = ℕ;
  Resolution = ℕ;
  PlannerMeta = Unit {0};
  prefer_direct_one_query_inline = false;
  prefer_one_query_inline = false;
  init_state = λ spec. done (ok spec);
  reset_state = λ spec state. (done (ok tt), spec);
  apply = λ changes state. (done (ok tt), state + length changes);
  updated_state = λ state changes. done (ok (state + length changes));
  compile = λ state scratch. (done (ok one_stage), scratch);
  encode_batch =
      λ plan queries s. (done (ok tt), (record (s.0) { query_count = length queries }, s.1));
  encode_one = λ plan query s. (done (ok tt), (record (s.0) { query_count = 1 }, s.1));
  decode_batch = λ plan p. done (ok (p.query_count ∷ []));
  decode_one = λ plan p. done (ok p.query_count);
  resolve_one_direct = λ plan query. done none;
}

abbrev idle_backend : ComputeBackend (Unit {0})
idle_backend = record {
  Prepared = Unit {0};
  prepare = λ plan reuse scratch. (done (ok tt), scratch);
  run_stage = λ prepared i stage p cancel. (done (ok tt), p);
  run_one_stage = λ prepared i stage p cancel. (done (ok tt), p);
}

abbrev first_version : FrozenStackVersion counter idle_backend
first_version = record { id = 1; compiled = one_stage; prepared = some tt }

abbrev no_pools : Pools
no_pools = record {
  packets = record { items = []; locked_up = false };
  scratches = record { items = []; locked_up = false };
}

abbrev plain_turn : Turn
plain_turn = record { is_cancelled = false; looks = λ k. false; answer = ok tt; rejected = none }

abbrev three_turns : List Turn
three_turns = plain_turn ∷ plain_turn ∷ plain_turn ∷ []

run_job_ends_example :
    IsEnded
      (run_job counter idle_backend true first_version (7 ∷ 8 ∷ []) three_turns (new_job no_pools))
run_job_ends_example =
    run_job_ends counter idle_backend true first_version (7 ∷ 8 ∷ []) three_turns no_pools
      (omega arith)

abbrev first_inner : StackInner counter idle_backend
first_inner = record {
  state = 5;
  state_poisoned = false;
  current_version = first_version;
  planner_scratch = new_planner_scratch;
  scratch_poisoned = false;
  compute_scratch_pool = record { items = []; locked_up = false };
  prepared_pool = [];
  retired = [];
  next_version_id = 2;
  current_version_id = 1;
}

update_lem_example :
    Settles
      (IsUpdated counter idle_backend (3 ∷ []) first_inner)
      (IsKept counter idle_backend first_inner)
      (update counter idle_backend (3 ∷ []) (ok tt) first_inner)
update_lem_example = update_lem counter idle_backend (3 ∷ []) (ok tt) first_inner

abbrev two_ops : List (Op counter idle_backend)
two_ops =
    Op.updates (3 ∷ []) (ok tt)
    ∷ Op.applies (4 ∷ [])
    ∷ Op.recompiles (err executor_shutdown)
    ∷ Op.drops 0
    ∷ []

first_inner-IsConsistent : IsConsistent counter idle_backend first_inner
unfolding validate
first_inner-IsConsistent = record { told = refl; next = refl; valid = refl; prepared = (tt, refl) }

run_ops-IsConsistent_example :
    IsConsistent counter idle_backend (run_ops counter idle_backend two_ops first_inner)
run_ops-IsConsistent_example =
    run_ops-IsConsistent counter idle_backend two_ops first_inner first_inner-IsConsistent

abbrev no_look : ℕ → Bool
no_look k = false

run_job_direct_example :
    (run_job counter idle_backend true first_version
      (7 ∷ 8 ∷ [])
      (map
        (calm_turn counter idle_backend true first_version (7 ∷ 8 ∷ []))
        (no_look ∷ no_look ∷ no_look ∷ []))
      (new_job no_pools)).state
    ≡ state_of counter idle_backend true first_version (7 ∷ 8 ∷ []) (
        direct_run counter idle_backend true first_version
          (7 ∷ 8 ∷ [])
          no_pools
          (no_look ∷ no_look ∷ []))
run_job_direct_example =
    run_job_direct counter idle_backend true first_version (7 ∷ 8 ∷ []) no_look
      (no_look ∷ no_look ∷ []) no_pools (omega arith)

abbrev calm_looks : InlineLooks
calm_looks = record {
  start = false;
  stages = record { before = λ i. false; during = λ i k. false };
}

calm_looks-IsCalm : IsCalm calm_looks
calm_looks-IsCalm = record { start = refl; before = λ i. refl }

run_job-execute_inline_example :
    (run_job counter idle_backend true first_version
      (7 ∷ 8 ∷ [])
      (map
        (calm_turn counter idle_backend true first_version (7 ∷ 8 ∷ []))
        ((λ k. false) ∷ (λ k. false) ∷ (λ k. false) ∷ []))
      (new_job no_pools)).state
    ≡ state_of counter idle_backend true first_version
        (7 ∷ 8 ∷ [])
        (execute_inline counter idle_backend true first_version
          (7 ∷ 8 ∷ [])
          calm_looks
          (context_of [] [])).0
run_job-execute_inline_example =
    run_job-execute_inline counter idle_backend true first_version (7 ∷ 8 ∷ []) calm_looks
      (λ k. false) calm_looks-IsCalm [] []

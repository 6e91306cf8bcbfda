-- ===== src/Stack/Versions.antt =====
-- src/stack.rs: the live planner state and the frozen versions that are compiled from it; src/version.rs.
-- A panic of planner code poisons the lock that is held then. `permit` is the answer of the executor to
-- the wait for a prepare lane.
use braids_rs.Base.{
  Bool, List, Option, Outcome, [], done, drop, false, if◌then◌else◌, none, panic, some, true, ℕ,
  ◌+◌, ◌∷◌, get_elem?, ◌%◌, take, ◌^◌, ◌++◌, suc,
}
use braids_rs.Error.{BraidResult, ok, err, poisoned}
use braids_rs.Call.{Call, and_call, returning}
use braids_rs.Pool.{ReusablePool, checkout, give_back}
use braids_rs.Pipeline.{CompiledPlan, validate}
use braids_rs.Scratch.{
  PlannerScratch, ComputeScratch, new_planner_scratch, new_compute_scratch, reset_planner_scratch,
  reset_compute_scratch,
}
use braids_rs.Planner.{PlannerBackend, ComputeBackend}
use braids_rs.Stack.{FrozenStackVersion}

-- The fields of `StackInner` that updates read or write. `retired` are the versions swapped out that a
-- job may still hold, the newest first; the head of `prepared_pool` is the end of the vector.
pub record StackInner (P : PlannerBackend) (C : ComputeBackend P.PlannerMeta) : Type 0 where
  pub state : P.State
  pub state_poisoned : Bool
  pub current_version : FrozenStackVersion P C
  pub planner_scratch : PlannerScratch
  pub scratch_poisoned : Bool
  pub compute_scratch_pool : ReusablePool ComputeScratch
  pub prepared_pool : List C.Prepared
  pub retired : List (FrozenStackVersion P C)
  pub next_version_id : ℕ
  pub current_version_id : ℕ

abbrev pub head? {ℓ} : {A : Type ℓ} → List A → Option A
head? [] = none
head? (x ∷ xs) = some x

abbrev pub push_prepared {ℓ} : {A : Type ℓ} → Option A → List A → List A
push_prepared none xs = xs
push_prepared (some x) xs = x ∷ xs

module _ (P : PlannerBackend) (C : ComputeBackend P.PlannerMeta) where
  -- `FrozenStackVersion::drop`, once the last job that holds the n-th of the retired versions is gone:
  -- the prepared state goes to the pool. Versions may be dropped in any order.
  abbrev pub dropped : ℕ → Option (FrozenStackVersion P C) → StackInner P C → StackInner P C
  dropped n none s = s
  dropped n (some v) s = record s {
    retired = take n s.retired ++ drop (suc n) s.retired;
    prepared_pool = push_prepared v.prepared s.prepared_pool;
  }

  unfoldable pub drop_version : ℕ → StackInner P C → StackInner P C
  drop_version n s = dropped n (get_elem? s.retired n) s

  -- The end of `compile_from_state`: the new version is swapped in.
  unfoldable pub swap_version :
      CompiledPlan P.PlannerMeta → C.Prepared → StackInner P C → Call ℕ (StackInner P C)
  swap_version compiled prepared s = (
    done (ok s.next_version_id),
    record s {
      next_version_id = (s.next_version_id + 1) % 2 ^ 64;
      current_version = record {
        id = s.next_version_id;
        compiled = compiled;
        prepared = some prepared;
      };
      retired = s.current_version ∷ s.retired;
      current_version_id = s.next_version_id;
    },
  )

  -- `compile_from_state`, once the backend has prepared the plan.
  unfoldable pub store_prepared :
      CompiledPlan P.PlannerMeta
      → ComputeScratch
      → C.Prepared
      → StackInner P C
      → Call ℕ (StackInner P C)
  unfolding swap_version
  store_prepared compiled scratch prepared s =
      and_call (returning (give_back s.compute_scratch_pool "stack.compute_scratch" scratch) s)
        λ pool s'. swap_version compiled prepared (record s' { compute_scratch_pool = pool })

  -- `compile_from_state`, with a scratch and a prepared state to reuse: `prepare_blocking` and the rest.
  unfoldable pub prepare_with :
      CompiledPlan P.PlannerMeta
      → BraidResult (Unit {0})
      → ComputeScratch
      → Option C.Prepared
      → StackInner P C
      → Call ℕ (StackInner P C)
  unfolding store_prepared
  prepare_with compiled permit scratch reuse s = and_call (returning permit s) λ _ s'.
      let (answer, used) = C.prepare compiled reuse (reset_compute_scratch scratch) in
      and_call (answer, s') (store_prepared compiled used)

  -- `compile_from_state`, once the plan is compiled and valid. A scratch or a prepared state that was
  -- taken for a preparation that fails is dropped.
  unfoldable pub prepare_version :
      CompiledPlan P.PlannerMeta → BraidResult (Unit {0}) → StackInner P C → Call ℕ (StackInner P C)
  unfolding prepare_with
  prepare_version compiled permit s =
      and_call
        (returning (checkout new_compute_scratch s.compute_scratch_pool "stack.compute_scratch") s)
        λ r s'.
          prepare_with compiled permit r.0 (head? s'.prepared_pool)
            (record s' { compute_scratch_pool = r.1; prepared_pool = drop 1 s'.prepared_pool })

  -- `compile_from_state`, from the planner's answer on.
  abbrev pub compiled_with :
      Outcome (BraidResult (CompiledPlan P.PlannerMeta))
      → PlannerScratch
      → BraidResult (Unit {0})
      → StackInner P C
      → Call ℕ (StackInner P C)
  compiled_with panic scratch permit s =
      (panic, record s { planner_scratch = scratch; scratch_poisoned = true })
  compiled_with (done (err e)) scratch permit s =
      (done (err e), record s { planner_scratch = scratch })
  compiled_with (done (ok compiled)) scratch permit s =
      and_call (returning (validate compiled) (record s { planner_scratch = scratch }))
        λ _ s'. prepare_version compiled permit s'

  unfoldable pub compile_from_state :
      P.State → BraidResult (Unit {0}) → StackInner P C → Call ℕ (StackInner P C)
  unfolding prepare_version
  compile_from_state state permit s =
      if s.scratch_poisoned
      then (done (err (poisoned "stack.planner_scratch")), s)
      else let (answer, scratch) = P.compile state (reset_planner_scratch s.planner_scratch) in
        compiled_with answer scratch permit s

  -- A panic while the lock on the state is held.
  abbrev pub poisoning : {A : Type 0} → Call A (StackInner P C) → Call A (StackInner P C)
  poisoning (panic, s) = (panic, record s { state_poisoned = true })
  poisoning (done r, s) = (done r, s)

  abbrev pub locking :
      {A : Type 0} → StackInner P C → Call A (StackInner P C) → Call A (StackInner P C)
  locking s c = if s.state_poisoned then (done (err (poisoned "stack.state")), s) else poisoning c

  unfoldable pub apply : List P.Change → StackInner P C → Call (Unit {0}) (StackInner P C)
  apply changes s =
      let (answer, state) = P.apply changes s.state in
      locking s (answer, record s { state = state })

  unfoldable pub replace : P.Spec → StackInner P C → Call (Unit {0}) (StackInner P C)
  replace spec s =
      let (answer, state) = P.reset_state spec s.state in
      locking s (answer, record s { state = state })

  unfoldable pub recompile : BraidResult (Unit {0}) → StackInner P C → Call ℕ (StackInner P C)
  unfolding compile_from_state
  recompile permit s = locking s (compile_from_state s.state permit s)

  unfoldable pub update :
      List P.Change → BraidResult (Unit {0}) → StackInner P C → Call ℕ (StackInner P C)
  unfolding compile_from_state
  update changes permit s = locking s (
      and_call (P.updated_state s.state changes, s)
        λ next s'.
          and_call (compile_from_state next permit s')
            λ id s''. (done (ok id), record s'' { state = next }))

  -- `Stack::create`, after `init_state`, `compile` and the prepare have answered.
  unfoldable pub create : P.Spec → BraidResult (Unit {0}) → Outcome (BraidResult (StackInner P C))
  create spec permit =
      (and_call (P.init_state spec, tt {0})
        λ state u.
          let (answer, scratch) = P.compile state new_planner_scratch in
          and_call (answer, u)
            λ compiled u'. and_call (returning (validate compiled) u') λ _ w.
              and_call (returning permit w) λ _ w'.
                and_call ((C.prepare compiled none new_compute_scratch).0, w')
                  λ prepared w''. (
                    done (
                        ok (record {
                          state = state;
                          state_poisoned = false;
                          current_version = record {
                            id = 1;
                            compiled = compiled;
                            prepared = some prepared;
                          };
                          planner_scratch = scratch;
                          scratch_poisoned = false;
                          compute_scratch_pool = record { items = []; locked_up = false };
                          prepared_pool = [];
                          retired = [];
                          next_version_id = 2;
                          current_version_id = 1;
                        })),
                    w'',
                  )).0

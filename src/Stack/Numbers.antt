-- ===== src/Stack/Numbers.antt =====
-- src/stack.rs: what holds of the current version after any operations on the live state.
use braids_rs.Base.{
  List, ap, done, panic, some, sym, ℕ, ◌∙◌, ◌≡◌, Outcome, ◌∷◌, [], Bool, if◌then◌else◌, true, false,
  get_elem?, Option, ◌+◌, ◌%◌, ◌^◌, none,
}
use braids_rs.Error.{BraidResult, ok, err, BraidError}
use braids_rs.Call.{Call, Settles}
use braids_rs.Pipeline.{CompiledPlan, validate}
use braids_rs.Planner.{PlannerBackend, ComputeBackend}
use braids_rs.Stack.Versions.{
  StackInner, poisoning, locking, dropped, update, recompile, apply, replace, drop_version,
}
use braids_rs.Stack.Swaps.{IsKept, IsSwapped}
use braids_rs.Stack.{FrozenStackVersion}
use braids_rs.Stack.Updates.{IsCompiled, IsUpdated, recompile_lem, update_lem}

module _ (P : PlannerBackend) (C : ComputeBackend P.PlannerMeta) where
  -- The current version is valid and prepared, its number is the one that is told, and the next
  -- version gets the number after it, modulo 2 ^ 64.
  pub record IsConsistent (s : StackInner P C) : Type 0 where
    pub told : s.current_version_id ≡ s.current_version.id
    pub next : s.next_version_id ≡ (s.current_version.id + 1) % 2 ^ 64
    pub valid : validate s.current_version.compiled ≡ ok tt
    pub prepared : (p : C.Prepared) × (s.current_version.prepared ≡ some p)

  kept-IsConsistent : (s t : StackInner P C) → IsKept P C s t → IsConsistent s → IsConsistent t
  kept-IsConsistent s t k h = record {
    told = k.current_id ∙ h.told ∙ ap (λ v. v.id) (sym k.version);
    next = next;
    valid = ap (λ v. validate v.compiled) k.version ∙ h.valid;
    prepared = (h.prepared.0, ap (λ v. v.prepared) k.version ∙ h.prepared.1);
  }
    where
      next : t.next_version_id ≡ (t.current_version.id + 1) % 2 ^ 64
      next = k.next_id ∙ h.next ∙ ap (λ v. (v.id + 1) % 2 ^ 64) (sym k.version)

  swapped-IsConsistent :
      (plan : CompiledPlan P.PlannerMeta) (s : StackInner P C) (id : ℕ) (t : StackInner P C)
      → IsSwapped P C plan s id t
      → IsConsistent t
  swapped-IsConsistent plan s id t h = record {
    told = h.current_id ∙ sym h.version_id;
    next = h.next_id ∙ ap (λ i. (i + 1) % 2 ^ 64) (sym h.version_id);
    valid = ap validate h.compiled ∙ h.valid;
    prepared = h.prepared;
  }

  settled-IsConsistent :
      (s : StackInner P C) (c : Call ℕ (StackInner P C))
      → Settles
          (λ id t. (plan : CompiledPlan P.PlannerMeta) × IsSwapped P C plan s id t)
          (IsKept P C s)
          c
      → IsConsistent s
      → IsConsistent c.1
  settled-IsConsistent s (done (ok id), t) (plan, swapped) h =
      swapped-IsConsistent plan s id t swapped
  settled-IsConsistent s (done (err _), t) k h = kept-IsConsistent s t k h
  settled-IsConsistent s (panic, t) k h = kept-IsConsistent s t k h

  -- The operations that write to the live state, the version, or their pools.
  pub data Op : Type 0 where
    applies : List P.Change → Op
    replaces : P.Spec → Op
    recompiles : BraidResult (Unit {0}) → Op
    updates : List P.Change → BraidResult (Unit {0}) → Op
    drops : ℕ → Op

  unfoldable pub run_op : Op → StackInner P C → StackInner P C
  unfolding apply replace recompile update drop_version
  run_op (applies changes) s = (apply P C changes s).1
  run_op (replaces spec) s = (replace P C spec s).1
  run_op (recompiles permit) s = (recompile P C permit s).1
  run_op (updates changes permit) s = (update P C changes permit s).1
  run_op (drops n) s = drop_version P C n s

  unfoldable pub run_ops : List Op → StackInner P C → StackInner P C
  unfolding run_op
  run_ops [] s = s
  run_ops (op ∷ ops) s = run_ops ops (run_op op s)

  recompiled-Settles :
      (s : StackInner P C) (c : Call ℕ (StackInner P C))
      → Settles (IsCompiled P C s.state s) (IsKept P C s) c
      → Settles
          (λ id t. (plan : CompiledPlan P.PlannerMeta) × IsSwapped P C plan s id t)
          (IsKept P C s)
          c
  recompiled-Settles s (done (ok id), t) (plan, g, h, same) = (plan, h)
  recompiled-Settles s (done (err _), t) h = h
  recompiled-Settles s (panic, t) h = h

  updated-Settles :
      (changes : List P.Change) (s : StackInner P C) (c : Call ℕ (StackInner P C))
      → Settles (IsUpdated P C changes s) (IsKept P C s) c
      → Settles
          (λ id t. (plan : CompiledPlan P.PlannerMeta) × IsSwapped P C plan s id t)
          (IsKept P C s)
          c
  updated-Settles changes s (done (ok id), t) (plan, g, k, h) = (plan, h)
  updated-Settles changes s (done (err _), t) h = h
  updated-Settles changes s (panic, t) h = h

  written-IsConsistent :
      (s : StackInner P C) (answer : Outcome (BraidResult (Unit {0}))) (state : P.State)
      → IsConsistent s
      → IsConsistent (poisoning P C (answer, record s { state = state })).1
  written-IsConsistent s (done _) state h = record {
    told = h.told;
    next = h.next;
    valid = h.valid;
    prepared = h.prepared;
  }
  written-IsConsistent s panic state h = record {
    told = h.told;
    next = h.next;
    valid = h.valid;
    prepared = h.prepared;
  }

  refused-IsConsistent :
      {A : Type 0} (b : Bool) (e : BraidError) (s : StackInner P C) (c : Call A (StackInner P C))
      → IsConsistent s
      → IsConsistent c.1
      → IsConsistent (if b then (done (err e), s) else c).1
  refused-IsConsistent true e s c h k = h
  refused-IsConsistent false e s c h k = k

  -- Writing the live state alone, under its lock.
  locked-IsConsistent :
      (s : StackInner P C) (answer : Outcome (BraidResult (Unit {0}))) (state : P.State)
      → IsConsistent s
      → IsConsistent (locking P C s (answer, record s { state = state })).1
  locked-IsConsistent s answer state h =
      refused-IsConsistent s.state_poisoned _ s _ h (written-IsConsistent s answer state h)

  dropped-IsConsistent :
      (n : ℕ) (o : Option (FrozenStackVersion P C)) (s : StackInner P C)
      → IsConsistent s
      → IsConsistent (dropped P C n o s)
  dropped-IsConsistent n none s h = h
  dropped-IsConsistent n (some v) s h = record {
    told = h.told;
    next = h.next;
    valid = h.valid;
    prepared = h.prepared;
  }

  run_op-IsConsistent : (op : Op) (s : StackInner P C) → IsConsistent s → IsConsistent (run_op op s)
  unfolding run_op apply replace drop_version
  run_op-IsConsistent (applies changes) s h =
      locked-IsConsistent s (P.apply changes s.state).0 (P.apply changes s.state).1 h
  run_op-IsConsistent (replaces spec) s h =
      locked-IsConsistent s (P.reset_state spec s.state).0 (P.reset_state spec s.state).1 h
  run_op-IsConsistent (recompiles permit) s h =
      settled-IsConsistent s (recompile P C permit s)
        (recompiled-Settles s _ (recompile_lem P C permit s)) h
  run_op-IsConsistent (updates changes permit) s h =
      settled-IsConsistent s (update P C changes permit s)
        (updated-Settles changes s _ (update_lem P C changes permit s)) h
  run_op-IsConsistent (drops n) s h = dropped-IsConsistent n (get_elem? s.retired n) s h

  -- Whatever applies, resets, recompiles and updates are made, failed and panicked ones included, the
  -- current version is a valid and prepared plan, its number is the one that `current_version_id` tells,
  -- and the next number to be given is the one after it, modulo 2 ^ 64. Versions that are dropped
  -- meanwhile, in any order, change none of it.
  pub run_ops-IsConsistent :
      (ops : List Op) (s : StackInner P C) → IsConsistent s → IsConsistent (run_ops ops s)
  unfolding run_ops
  run_ops-IsConsistent [] s h = h
  run_ops-IsConsistent (op ∷ ops) s h =
      run_ops-IsConsistent ops (run_op op s) (run_op-IsConsistent op s h)

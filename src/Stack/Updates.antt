-- ===== src/Stack/Updates.antt =====
-- src/stack.rs: an update happens as a whole or not at all, and versions count up.
use braids_rs.Base.{Bool, List, Outcome, done, false, if◌then◌else◌, panic, refl, true, ℕ, ◌≡◌}
use braids_rs.Error.{BraidError, BraidResult, ok, err}
use braids_rs.Call.{Call, and_call, returning, Settles, and_call-Settles}
use braids_rs.Pipeline.{CompiledPlan, validate}
use braids_rs.Scratch.{PlannerScratch, reset_planner_scratch}
use braids_rs.Planner.{PlannerBackend, ComputeBackend}
use braids_rs.Stack.Versions.{
  StackInner, prepare_version, compiled_with, compile_from_state, poisoning, update, recompile,
}
use braids_rs.Stack.Swaps.{IsKept, IsSwapped, IsKept-refl, returning-Settles, prepare_version-Swaps}

module _ (P : PlannerBackend) (C : ComputeBackend P.PlannerMeta) where
  Settles-weaken :
      {A S : Type 0} (Q R : A → S → Type 0) (E : S → Type 0) (c : Call A S)
      → ((a : A) (t : S) → Q a t → R a t)
      → Settles Q E c
      → Settles R E c
  Settles-weaken Q R E (done (ok a), t) f h = f a t h
  Settles-weaken Q R E (done (err _), t) f h = h
  Settles-weaken Q R E (panic, t) f h = h

  -- The plan that is current afterwards is what the planner compiles from the given state.
  abbrev pub IsCompiled : P.State → StackInner P C → ℕ → StackInner P C → Type 0
  IsCompiled state s id t =
      (plan : CompiledPlan P.PlannerMeta) × ((P.compile state
          (reset_planner_scratch s.planner_scratch)).0
        ≡ done (ok plan))
      × IsSwapped P C plan s id t
      × (t.state ≡ s.state)

  IsKept-scratch :
      (s : StackInner P C) (scratch : PlannerScratch) (b : Bool)
      → IsKept P C s (record s { planner_scratch = scratch; scratch_poisoned = b })
  IsKept-scratch s scratch b = record {
    state = refl;
    version = refl;
    next_id = refl;
    current_id = refl;
  }

  compiled_with-Settles :
      (state : P.State) (s : StackInner P C) (permit : BraidResult (Unit {0}))
      (answer : Outcome (BraidResult (CompiledPlan P.PlannerMeta))) (scratch : PlannerScratch)
      → (P.compile state (reset_planner_scratch s.planner_scratch)).0 ≡ answer
      → Settles (IsCompiled state s) (IsKept P C s) (compiled_with P C answer scratch permit s)
  compiled_with-Settles state s permit panic scratch e = IsKept-scratch s scratch true
  compiled_with-Settles state s permit (done (err _)) scratch e =
      IsKept-scratch s scratch s.scratch_poisoned
  compiled_with-Settles state s permit (done (ok plan)) scratch e =
      and_call-Settles (IsCompiled state s) (IsKept P C s)
        (returning (validate plan) (record s { planner_scratch = scratch }))
        (λ _ t. prepare_version P C plan permit t)
        (returning-Settles P C
          (λ _ t. Settles (IsCompiled state s) (IsKept P C s) (prepare_version P C plan permit t))
          (IsKept P C s) (validate plan) (record s { planner_scratch = scratch })
          (λ _ v.
            Settles-weaken (λ id t. IsSwapped P C plan s id t × (t.state ≡ s.state))
              (IsCompiled state s) (IsKept P C s) _ (λ id t h. (plan, e, h.0, h.1))
              (prepare_version-Swaps P C s plan v permit _
                (IsKept-scratch s scratch s.scratch_poisoned)))
          (IsKept-scratch s scratch s.scratch_poisoned))

  refusing-Settles :
      {A : Type 0} (Q : A → StackInner P C → Type 0) (b : Bool) (e : BraidError)
      (s : StackInner P C) (c : Call A (StackInner P C))
      → Settles Q (IsKept P C s) c
      → Settles Q (IsKept P C s) (if b then (done (err e), s) else c)
  refusing-Settles Q true e s c h = IsKept-refl P C s
  refusing-Settles Q false e s c h = h

  compile_from_state-Settles :
      (state : P.State) (permit : BraidResult (Unit {0})) (s : StackInner P C)
      → Settles (IsCompiled state s) (IsKept P C s) (compile_from_state P C state permit s)
  unfolding compile_from_state
  compile_from_state-Settles state permit s =
      refusing-Settles (IsCompiled state s) s.scratch_poisoned _ s _ (
        compiled_with-Settles state s permit
          (P.compile state (reset_planner_scratch s.planner_scratch)).0
          (P.compile state (reset_planner_scratch s.planner_scratch)).1 refl)

  -- What an update that succeeds has done.
  abbrev pub IsUpdated : List P.Change → StackInner P C → ℕ → StackInner P C → Type 0
  IsUpdated changes s id t =
      (plan : CompiledPlan P.PlannerMeta) × (P.updated_state s.state changes ≡ done (ok t.state))
      × ((P.compile t.state (reset_planner_scratch s.planner_scratch)).0 ≡ done (ok plan))
      × IsSwapped P C plan s id t

  poisoning-Settles :
      {A : Type 0} (Q : A → StackInner P C → Type 0) (s : StackInner P C)
      (c : Call A (StackInner P C))
      → Settles Q (IsKept P C s) c
      → Settles Q (IsKept P C s) (poisoning P C c)
  poisoning-Settles Q s (done (ok a), t) h = h
  poisoning-Settles Q s (done (err _), t) h = h
  poisoning-Settles Q s (panic, t) h = record {
    state = h.state;
    version = h.version;
    next_id = h.next_id;
    current_id = h.current_id;
  }

  IsSwapped-state :
      (plan : CompiledPlan P.PlannerMeta) (s : StackInner P C) (id : ℕ) (t : StackInner P C)
      (state : P.State)
      → IsSwapped P C plan s id t
      → IsSwapped P C plan s id (record t { state = state })
  IsSwapped-state plan s id t state h = record {
    fresh_id = h.fresh_id;
    next_id = h.next_id;
    version_id = h.version_id;
    current_id = h.current_id;
    compiled = h.compiled;
    valid = h.valid;
    prepared = h.prepared;
  }

  IsUpdated-Settles :
      (changes : List P.Change) (next : P.State) (s : StackInner P C) (c : Call ℕ (StackInner P C))
      → P.updated_state s.state changes ≡ done (ok next)
      → Settles (IsCompiled next s) (IsKept P C s) c
      → Settles
          (IsUpdated changes s)
          (IsKept P C s)
          (and_call c λ id t. (done (ok id), record t { state = next }))
  IsUpdated-Settles changes next s (done (ok id), t) e (plan, g, h, same) =
      (plan, e, g, IsSwapped-state plan s id t next h)
  IsUpdated-Settles changes next s (done (err _), t) e h = h
  IsUpdated-Settles changes next s (panic, t) e h = h

  update_from :
      (changes : List P.Change) (permit : BraidResult (Unit {0})) (s : StackInner P C)
      (answer : Outcome (BraidResult P.State))
      → P.updated_state s.state changes ≡ answer
      → Settles (IsUpdated changes s) (IsKept P C s) (
          and_call
            (answer, s)
            λ next s'.
              and_call
                (compile_from_state P C next permit s')
                λ id t. (done (ok id), record t { state = next }))
  update_from changes permit s (done (ok next)) e =
      IsUpdated-Settles changes next s _ e (compile_from_state-Settles next permit s)
  update_from changes permit s (done (err _)) e = IsKept-refl P C s
  update_from changes permit s panic e = IsKept-refl P C s

  -- An update happens as a whole or not at all. If it succeeds, the live state is what the planner made
  -- of the changes, the current version is a valid and prepared plan that the planner compiled from that
  -- state, and it has the next version number, which is the answer; if it fails or panics anywhere, the
  -- live state, the current version and the numbers are what they were.
  pub update_lem :
      (changes : List P.Change) (permit : BraidResult (Unit {0})) (s : StackInner P C)
      → Settles (IsUpdated changes s) (IsKept P C s) (update P C changes permit s)
  unfolding update
  update_lem changes permit s = refusing-Settles (IsUpdated changes s) s.state_poisoned _ s _ (
      poisoning-Settles (IsUpdated changes s) s _
        (update_from changes permit s (P.updated_state s.state changes) refl))

  -- The same for a recompile, of the live state as it is.
  pub recompile_lem :
      (permit : BraidResult (Unit {0})) (s : StackInner P C)
      → Settles (IsCompiled s.state s) (IsKept P C s) (recompile P C permit s)
  unfolding recompile
  recompile_lem permit s =
      refusing-Settles (IsCompiled s.state s) s.state_poisoned _ s _
        (poisoning-Settles (IsCompiled s.state s) s _ (compile_from_state-Settles s.state permit s))

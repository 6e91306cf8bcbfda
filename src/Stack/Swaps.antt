-- ===== src/Stack/Swaps.antt =====
-- src/stack.rs: preparing a plan either swaps it in or changes nothing that counts.
use braids_rs.Base.{List, Option, Outcome, done, drop, panic, refl, some, ℕ, ◌+◌, ◌≡◌, ◌%◌, ◌^◌}
use braids_rs.Error.{BraidResult, ok, err}
use braids_rs.Call.{Call, and_call, returning, Settles}
use braids_rs.Pool.{ReusablePool, checkout, give_back}
use braids_rs.Pipeline.{CompiledPlan, validate}
use braids_rs.Scratch.{ComputeScratch, new_compute_scratch, reset_compute_scratch}
use braids_rs.Planner.{PlannerBackend, ComputeBackend}
use braids_rs.Stack.Versions.{
  StackInner, head?, swap_version, store_prepared, prepare_with, prepare_version,
}

module _ (P : PlannerBackend) (C : ComputeBackend P.PlannerMeta) where
  -- Neither the live state nor the version that jobs are dispatched against has changed.
  pub record IsKept (s t : StackInner P C) : Type 0 where
    pub state : t.state ≡ s.state
    pub version : t.current_version ≡ s.current_version
    pub next_id : t.next_version_id ≡ s.next_version_id
    pub current_id : t.current_version_id ≡ s.current_version_id

  -- A valid and prepared plan is current, under the next number; the counter wraps at 2 ^ 64.
  pub record IsSwapped (plan : CompiledPlan P.PlannerMeta) (s : StackInner P C) (id : ℕ)
      (t : StackInner P C) : Type 0 where
    pub fresh_id : id ≡ s.next_version_id
    pub next_id : t.next_version_id ≡ (id + 1) % 2 ^ 64
    pub version_id : t.current_version.id ≡ id
    pub current_id : t.current_version_id ≡ id
    pub compiled : t.current_version.compiled ≡ plan
    pub valid : validate plan ≡ ok tt
    pub prepared : (p : C.Prepared) × (t.current_version.prepared ≡ some p)

  pub returning-Settles :
      {A S : Type 0} (Q : A → S → Type 0) (E : S → Type 0) (r : BraidResult A) (s : S)
      → ((a : A) → r ≡ ok a → Q a s)
      → E s
      → Settles Q E (returning r s)
  returning-Settles Q E (ok a) s h e = h a refl
  returning-Settles Q E (err _) s h e = e

  pub IsKept-refl : (s : StackInner P C) → IsKept s s
  IsKept-refl s = record { state = refl; version = refl; next_id = refl; current_id = refl }

  module _ (s : StackInner P C) (plan : CompiledPlan P.PlannerMeta)
      (valid : validate plan ≡ ok tt) where
    abbrev pub Swaps : Call ℕ (StackInner P C) → Type 0
    Swaps = Settles (λ id t. IsSwapped plan s id t × (t.state ≡ s.state)) (IsKept s)

    answered-Swaps :
        (answer : Outcome (BraidResult C.Prepared)) (t : StackInner P C)
        (f : C.Prepared → StackInner P C → Call ℕ (StackInner P C))
        → IsKept s t
        → ((p : C.Prepared) → Swaps (f p t))
        → Swaps (and_call (answer, t) f)
    answered-Swaps (done (ok p)) t f k h = h p
    answered-Swaps (done (err _)) t f k h = k
    answered-Swaps panic t f k h = k

    returned-Swaps :
        {A : Type 0} (r : BraidResult A) (t : StackInner P C)
        (f : A → StackInner P C → Call ℕ (StackInner P C))
        → IsKept s t
        → ((a : A) → Swaps (f a t))
        → Swaps (and_call (returning r t) f)
    returned-Swaps (ok a) t f k h = h a
    returned-Swaps (err _) t f k h = k

    swap_version-Swaps :
        (prepared : C.Prepared) (t : StackInner P C)
        → IsKept s t
        → Swaps (swap_version P C plan prepared t)
    unfolding swap_version
    swap_version-Swaps prepared t k = (
      record {
        fresh_id = k.next_id;
        next_id = refl;
        version_id = refl;
        current_id = refl;
        compiled = refl;
        valid = valid;
        prepared = (prepared, refl);
      },
      k.state,
    )

    IsKept-pools :
        (t : StackInner P C) (pool : ReusablePool ComputeScratch) (ps : List C.Prepared)
        → IsKept s t
        → IsKept s (record t { compute_scratch_pool = pool; prepared_pool = ps })
    IsKept-pools t pool ps k = record {
      state = k.state;
      version = k.version;
      next_id = k.next_id;
      current_id = k.current_id;
    }

    store_prepared-Swaps :
        (scratch : ComputeScratch) (prepared : C.Prepared) (t : StackInner P C)
        → IsKept s t
        → Swaps (store_prepared P C plan scratch prepared t)
    unfolding store_prepared
    store_prepared-Swaps scratch prepared t k =
        returned-Swaps (give_back t.compute_scratch_pool "stack.compute_scratch" scratch) t
          (λ pool u. swap_version P C plan prepared (record u { compute_scratch_pool = pool })) k
          λ pool.
            swap_version-Swaps prepared (record t { compute_scratch_pool = pool })
              (IsKept-pools t pool t.prepared_pool k)

    prepare_with-Swaps :
        (permit : BraidResult (Unit {0})) (scratch : ComputeScratch) (reuse : Option C.Prepared)
        (t : StackInner P C)
        → IsKept s t
        → Swaps (prepare_with P C plan permit scratch reuse t)
    unfolding prepare_with
    prepare_with-Swaps (err _) scratch reuse t k = k
    prepare_with-Swaps (ok _) scratch reuse t k =
        let (answer, used) = C.prepare plan reuse (reset_compute_scratch scratch) in
        answered-Swaps answer t (store_prepared P C plan used) k
          λ p. store_prepared-Swaps used p t k

    pub prepare_version-Swaps :
        (permit : BraidResult (Unit {0})) (t : StackInner P C)
        → IsKept s t
        → Swaps (prepare_version P C plan permit t)
    unfolding prepare_version
    prepare_version-Swaps permit t k =
        returned-Swaps (checkout new_compute_scratch t.compute_scratch_pool "stack.compute_scratch")
          t
          (λ r u.
            prepare_with P C plan permit r.0 (head? u.prepared_pool)
              (record u { compute_scratch_pool = r.1; prepared_pool = drop 1 u.prepared_pool }))
          k
          λ r.
            prepare_with-Swaps permit r.0 (head? t.prepared_pool) _
              (IsKept-pools t r.1 (drop 1 t.prepared_pool) k)

-- ===== src/Stack/Collects.antt =====
-- src/stack.rs: the results of jobs leave the table with `collect`.
use braids_rs.Base.{
  List, Option, [], ap, arith, false, get_elem?, if◌then◌else◌, none, refl, some, sym, ℕ, ◌==◌, ◌∙◌,
  ◌≡◌, ◌≢◌, set, length-set, get_elem?-set_ne, get_elem?-set_self, lt-length,
}
use braids_rs.Error.{ok, err, unknown_job, BraidResult, cancelled}
use braids_rs.Stack.Table.{
  JobTable, failed_status, find_job, without_job, poll, status, await_result, JobRecord, collect,
  find_record, take_result, set_state, forget_job,
}
use braids_rs.Stack.{JobRecordState, completed, failed, queued, running, cancelled_job}
use braids_rs.Stack.Dispatches.{find_job-without, IsValid}
use braids_rs.Stack.Moves.{status_at, poll-status_at}

module _ {R : Type 0} where
  -- The result that the state of a job that has ended tells.
  abbrev pub Tells : JobRecordState R → BraidResult (List R) → Type 0
  Tells queued r = ⊥
  Tells running r = ⊥
  Tells (completed (some values)) r = r ≡ ok values
  Tells (completed none) r = ⊥
  Tells (failed (some e)) r = r ≡ err e
  Tells (failed none) r = ⊥
  Tells cancelled_job r = r ≡ err cancelled

  take_result-Tells :
      (state : JobRecordState R) (result : BraidResult (List R))
      → Tells state result
      → (next : JobRecordState R) × (take_result state ≡ some (result, next))
  unfolding take_result
  take_result-Tells queued r h = elim h [ ]
  take_result-Tells running r h = elim h [ ]
  take_result-Tells (completed (some values)) r h = (completed none, ground (arith, h))
  take_result-Tells (completed none) r h = elim h [ ]
  take_result-Tells (failed (some e)) r h = (failed none, ground (arith, h))
  take_result-Tells (failed none) r h = elim h [ ]
  take_result-Tells cancelled_job r h = (cancelled_job, ground (arith, h))

  -- The table when a job is collected.
  abbrev pub collected : ℕ → ℕ → JobRecord R → JobRecordState R → JobTable R → JobTable R
  collected id r entry state t = record t {
    jobs = without_job id t.jobs;
    records = set t.records r (record entry { state = state });
  }

  find_job-collected :
      (t : JobTable R) (id r j : ℕ) (entry : JobRecord R) (state : JobRecordState R)
      → find_job j (collected id r entry state t).jobs
        ≡ (if id == j then none else find_job j t.jobs)
  find_job-collected t id r j entry state = find_job-without id j t.jobs

  collected-IsValid :
      (t : JobTable R) (id r : ℕ) (entry : JobRecord R) (state : JobRecordState R)
      → IsValid t
      → IsValid (collected id r entry state t)
  collected-IsValid t id r entry state h = record {
    has_record = λ j k e. ground (
      arith,
      e,
      find_job-without id j t.jobs,
      h.has_record j k,
      length-set t.records r (record entry { state = state }),
    );
    own_record = λ i j k e f. ground (
      arith,
      e,
      f,
      find_job-without id i t.jobs,
      find_job-without id j t.jobs,
      h.own_record i j k,
    );
  }

  status-collected :
      (t : JobTable R) (id r : ℕ) (entry : JobRecord R) (state : JobRecordState R) (o : Option ℕ)
      → ((k : ℕ) → o ≡ some k → k ≢ r)
      → status_at (collected id r entry state t) o ≡ status_at t o
  status-collected t id r entry state none h = refl
  status-collected t id r entry state (some k) h =
      ap (λ e. elim e [ none ↦ failed_status | some entry ↦ status entry.state ])
        (get_elem?-set_ne t.records r k (record entry { state = state }) λ e. h k refl (sym e))

  collected_gone :
      (t : JobTable R) (id r : ℕ) (entry : JobRecord R) (state : JobRecordState R)
      → find_job id (collected id r entry state t).jobs ≡ none
  collected_gone t id r entry state = ground (arith, find_job-without id id t.jobs)

  collected_other :
      (t : JobTable R) (id r j : ℕ) (entry : JobRecord R) (state : JobRecordState R)
      → j ≢ id
      → find_job j (collected id r entry state t).jobs ≡ find_job j t.jobs
  collected_other t id r j entry state other = ground (arith, find_job-without id j t.jobs)

  unknown_collect :
      (u : JobTable R) (id : ℕ)
      → u.locked_up ≡ false
      → find_job id u.jobs ≡ none
      → collect id u ≡ some (err unknown_job, u)
  unfolding collect find_record
  unknown_collect u id unlocked e = ground (arith, unlocked, e)

  collected_lem :
      (t : JobTable R) (id r : ℕ) (entry : JobRecord R) (result : BraidResult (List R))
      (state : JobRecordState R)
      → t.locked_up ≡ false
      → find_job id t.jobs ≡ some r
      → get_elem? t.records r ≡ some entry
      → take_result entry.state ≡ some (result, state)
      → collect id t ≡ some (result, collected id r entry state t)
  unfolding collect find_record await_result set_state forget_job
  collected_lem t id r entry result state unlocked at found ended =
      ground (arith, unlocked, at, found, ended)

  -- `collect` of a listed job that has ended and was not collected, on a valid table whose lock is not
  -- poisoned, gives its values when it has completed, its error when it has failed, and `Cancelled` when
  -- it was cancelled, and takes the job from the table, which stays valid: the job then polls
  -- as failed, a second `collect` is refused as of an unknown job, and every other job polls as before.
  pub collect_lem :
      (t : JobTable R) (id r : ℕ) (entry : JobRecord R) (result : BraidResult (List R))
      → IsValid t
      → t.locked_up ≡ false
      → find_job id t.jobs ≡ some r
      → get_elem? t.records r ≡ some entry
      → Tells entry.state result
      → (u : JobTable R) × (collect id t ≡ some (result, u))
        × IsValid u
        × (poll u id ≡ failed_status)
        × (collect id u ≡ some (err unknown_job, u))
        × ((j : ℕ) → j ≢ id → poll u j ≡ poll t j)
  collect_lem t id r entry result h unlocked at found tells =
      let (state, ended) = take_result-Tells entry.state result tells in
      let u = collected id r entry state t in
      let gone = collected_gone t id r entry state in
      (
        u,
        collected_lem t id r entry result state unlocked at found ended,
        collected-IsValid t id r entry state h,
        poll-status_at u id unlocked ∙ ap (status_at u) gone,
        unknown_collect u id unlocked gone,
        λ j other.
            poll-status_at u j unlocked
            ∙ ap (status_at u) (collected_other t id r j entry state other)
            ∙ status-collected t id r entry state (find_job j t.jobs)
                (λ k e same. other (h.own_record j id r (e ∙ ap some same) at))
            ∙ sym (poll-status_at t j unlocked),
      )

  -- Two callers who have both found the record of a completed job before either takes its values: the
  -- first gets the values, and the second gets a success with none.
  pub await_result_twice :
      (t : JobTable R) (r : ℕ) (entry : JobRecord R) (values : List R)
      → get_elem? t.records r ≡ some entry
      → entry.state ≡ completed (some values)
      → (u : JobTable R) × (w : JobTable R) × (await_result r t ≡ some (ok values, u))
        × (await_result r u ≡ some (ok [], w))
  unfolding await_result take_result set_state
  await_result_twice t r entry values found ended =
      let u = record t { records = set t.records r (record entry { state = completed none }) } in
      let w = record u { records = set u.records r (record entry { state = completed none }) } in
      (
        u,
        w,
        ground (arith, found, ended),
        ground (
          arith,
          get_elem?-set_self t.records r (record entry { state = completed none }),
          lt-length t.records r found,
        ),
      )

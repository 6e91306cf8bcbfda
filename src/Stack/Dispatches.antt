-- ===== src/Stack/Dispatches.antt =====
-- src/stack.rs: jobs enter the table with `dispatch`.
use braids_rs.Base.{
  List, Option, [], ap, arith, false, get_elem?, get_elem?-append_left, get_elem?-push,
  if◌then◌else◌, length, length-append, none, refl, some, sym, ℕ, ◌<◌, ◌==◌, ◌∙◌, ◌∷◌, ◌≡◌, ◌≢◌,
}
use braids_rs.Error.{ok, err, BraidError}
use braids_rs.Stack.Moves.{status_at, poll-status_at, status_after, moved-SameJobs, status-moved}
use braids_rs.Stack.{JobRecordState}
use braids_rs.Stack.Table.{
  JobTable, queued_status, failed_status, find_job, without_job, new_record, listed, dispatch, poll,
  status, moved, removed,
}

pub find_job-without :
    (id j : ℕ) (jobs : List (ℕ × ℕ))
    → find_job j (without_job id jobs) ≡ (if id == j then none else find_job j jobs)
find_job-without id j [] = ground arith
find_job-without id j ((k, r) ∷ jobs) = ground (arith, find_job-without id j jobs)

module _ {R : Type 0} where
  -- Each listed job has a record, and no two share one.
  pub record IsValid (t : JobTable R) : Type 0 where
    pub has_record : (id r : ℕ) → find_job id t.jobs ≡ some r → r < length t.records
    pub own_record :
        (id j r : ℕ) → find_job id t.jobs ≡ some r → find_job j t.jobs ≡ some r → id ≡ j

  find_job-listed :
      (t : JobTable R) (j : ℕ)
      → find_job j (listed t).jobs
        ≡ (if t.next_job_id == j then some (length t.records) else find_job j t.jobs)
  find_job-listed t j = ground (arith, find_job-without t.next_job_id j t.jobs)

  listed-IsValid : (t : JobTable R) → IsValid t → IsValid (listed t)
  listed-IsValid t h = record {
    has_record = λ id r e. ground (
      arith,
      e,
      find_job-listed t id,
      h.has_record id r,
      length-append t.records (new_record ∷ []),
    );
    own_record = λ id j r e f. ground (
      arith,
      e,
      f,
      find_job-listed t id,
      find_job-listed t j,
      h.has_record id r,
      h.has_record j r,
      h.own_record id j r,
    );
  }

  status-listed :
      (t : JobTable R) (o : Option ℕ)
      → ((r : ℕ) → o ≡ some r → r < length t.records)
      → status_at (listed t) o ≡ status_at t o
  status-listed t none h = refl
  status-listed t (some r) h =
      ap (λ e. elim e [ none ↦ failed_status | some entry ↦ status entry.state ])
        (get_elem?-append_left t.records (new_record ∷ []) r (h r refl))

  newest_job : (t : JobTable R) → find_job t.next_job_id (listed t).jobs ≡ some (length t.records)
  newest_job t = ground (arith, find_job-listed t t.next_job_id)

  older_job :
      (t : JobTable R) (j : ℕ) → j ≢ t.next_job_id → find_job j (listed t).jobs ≡ find_job j t.jobs
  older_job t j other = ground (arith, find_job-listed t j)

  newest_record :
      (t : JobTable R) → get_elem? (listed t).records (length t.records) ≡ some new_record
  newest_record t = ground (arith, get_elem?-push t.records new_record (length t.records))

  moved-IsValid :
      (moves : List (ℕ × JobRecordState R)) (t : JobTable R) → IsValid t → IsValid (moved moves t)
  moved-IsValid moves t h =
      let same = moved-SameJobs moves t in
      record {
        has_record = λ id r e. rw same.size (h.has_record id r (rw (sym same.jobs) e));
        own_record =
            λ id j r e f. h.own_record id j r (rw (sym same.jobs) e) (rw (sym same.jobs) f);
      }

  -- A poll after tasks have written to the records.
  poll-moved :
      (moves : List (ℕ × JobRecordState R)) (t : JobTable R) (id : ℕ)
      → t.locked_up ≡ false
      → poll (moved moves t) id ≡ status_at (moved moves t) (find_job id t.jobs)
  poll-moved moves t id unlocked =
      let same = moved-SameJobs moves t in
      poll-status_at (moved moves t) id (same.lock ∙ unlocked)
      ∙ ap (λ jobs. status_at (moved moves t) (find_job id jobs)) same.jobs

  other-moved :
      (moves : List (ℕ × JobRecordState R)) (t : JobTable R) (o : Option ℕ)
      → ((r : ℕ) → o ≡ some r → r < length t.records)
      → status_at (moved moves (listed t)) o ≡ status_at (moved moves t) o
  other-moved moves t none h = refl
  other-moved moves t (some r) h =
      status-moved moves (listed t) r
        (omega (arith, h r refl, length-append t.records (new_record ∷ [])))
      ∙ ap (status_after r moves) (status-listed t (some r) h)
      ∙ sym (status-moved moves t r (h r refl))

  -- On a valid table whose lock is not poisoned, with tasks of any jobs writing any states to their
  -- records before it returns, a dispatch that the executor accepts gives a job that polls as queued
  -- unless its own record was written, and then as the last state written there; the table stays valid,
  -- and every other job polls as it would after the same writes without the dispatch.
  pub dispatch_lem :
      {V : Type 0} (v : V) (moves : List (ℕ × JobRecordState R)) (t : JobTable R)
      → IsValid t
      → t.locked_up ≡ false
      → (u : JobTable R) × (dispatch (ok v) moves (ok tt) t ≡ (ok t.next_job_id, u))
        × IsValid u
        × (poll u t.next_job_id ≡ status_after (length t.records) moves queued_status)
        × ((j : ℕ) → j ≢ t.next_job_id → poll u j ≡ poll (moved moves t) j)
  unfolding dispatch status
  dispatch_lem v moves t h unlocked = (
    moved moves (listed t),
    rw unlocked refl,
    moved-IsValid moves (listed t) (listed-IsValid t h),
    poll-moved moves (listed t) t.next_job_id unlocked
        ∙ ap (status_at (moved moves (listed t))) (newest_job t)
        ∙ status-moved moves (listed t) (length t.records)
            (omega (arith, length-append t.records (new_record ∷ [])))
        ∙ ap
            (λ e.
              status_after (length t.records) moves
                (elim e [ none ↦ failed_status | some entry ↦ status entry.state ]))
            (newest_record t),
    λ j other.
        poll-moved moves (listed t) j unlocked
        ∙ ap (status_at (moved moves (listed t))) (older_job t j other)
        ∙ other-moved moves t (find_job j t.jobs) (h.has_record j)
        ∙ sym (poll-moved moves t j unlocked),
  )

  removed-IsValid : (id : ℕ) (t : JobTable R) → IsValid t → IsValid (removed id t)
  removed-IsValid id t h = record {
    has_record = λ j k e. ground (arith, e, find_job-without id j t.jobs, h.has_record j k);
    own_record = λ i j k e f. ground (
      arith,
      e,
      f,
      find_job-without id i t.jobs,
      find_job-without id j t.jobs,
      h.own_record i j k,
    );
  }

  removed_job :
      (moves : List (ℕ × JobRecordState R)) (t : JobTable R) (j : ℕ)
      → find_job j (removed t.next_job_id (moved moves (listed t))).jobs
        ≡ (if t.next_job_id == j then none else find_job j t.jobs)
  removed_job moves t j =
      find_job-without t.next_job_id j (moved moves (listed t)).jobs
      ∙ ap (λ jobs. if t.next_job_id == j then none else find_job j jobs)
          (moved-SameJobs moves (listed t)).jobs
      ∙ ground (arith, find_job-listed t j)

  refused_job :
      (moves : List (ℕ × JobRecordState R)) (t : JobTable R)
      → find_job t.next_job_id (removed t.next_job_id (moved moves (listed t))).jobs ≡ none
  refused_job moves t = ground (arith, removed_job moves t t.next_job_id)

  kept_job :
      (moves : List (ℕ × JobRecordState R)) (t : JobTable R) (j : ℕ)
      → j ≢ t.next_job_id
      → find_job j (removed t.next_job_id (moved moves (listed t))).jobs ≡ find_job j t.jobs
  kept_job moves t j other = ground (arith, removed_job moves t j)

  -- On a valid table whose lock is not poisoned, with tasks of any jobs writing any states to their
  -- records before it returns, a dispatch whose first task the executor refuses gives the error of the
  -- executor. The table stays valid, the id that was tried polls as failed, and every other job polls as
  -- it would after the same writes without the dispatch.
  pub dispatch_refused :
      {V : Type 0} (v : V) (moves : List (ℕ × JobRecordState R)) (e : BraidError) (t : JobTable R)
      → IsValid t
      → t.locked_up ≡ false
      → (u : JobTable R) × (dispatch (ok v) moves (err e) t ≡ (err e, u))
        × IsValid u
        × (poll u t.next_job_id ≡ failed_status)
        × ((j : ℕ) → j ≢ t.next_job_id → poll u j ≡ poll (moved moves t) j)
  unfolding dispatch
  dispatch_refused v moves e t h unlocked =
      let u = removed t.next_job_id (moved moves (listed t)) in
      let open_lock : u.locked_up ≡ false = (moved-SameJobs moves (listed t)).lock ∙ unlocked in
      (
        u,
        rw unlocked refl,
        removed-IsValid t.next_job_id (moved moves (listed t))
            (moved-IsValid moves (listed t) (listed-IsValid t h)),
        poll-status_at u t.next_job_id open_lock ∙ ap (status_at u) (refused_job moves t),
        λ j other.
            poll-status_at u j open_lock
            ∙ ap (status_at u) (kept_job moves t j other)
            ∙ other-moved moves t (find_job j t.jobs) (h.has_record j)
            ∙ sym (poll-moved moves t j unlocked),
      )

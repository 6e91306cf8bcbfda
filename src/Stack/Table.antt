-- ===== src/Stack/Table.antt =====
-- src/stack.rs: the table of jobs (`dispatch`, `poll`, `collect`, `cancel`) and the records that it
-- shares with the tasks of the jobs and with callers who wait.
-- A record is its place in `records`: an `Arc` that the table, a task and a caller can hold. The mutex of
-- a record is never poisoned, since nothing that can panic runs under it.
use braids_rs.Base.{
  Bool, List, Option, [], false, get_elem?, if◌then◌else◌, length, none, set, some, true, ℕ, ◌%◌,
  ◌++◌, ◌+◌, ◌==◌, ◌^◌, ◌∷◌,
}
use braids_rs.Error.{BraidResult, ok, err, from_text, cancelled, poisoned, unknown_job}
use braids_rs.Stack.{JobRecordState, queued, running, cancelled_job, completed, failed}

pub data JobStatus : Type 0 where
  queued_status running_status completed_status failed_status cancelled_status : JobStatus

pub record JobRecord (R : Type 0) : Type 0 where
  pub state : JobRecordState R
  pub cancel : Bool

-- `locked_up` is the poison of the mutex of `jobs`.
pub record JobTable (R : Type 0) : Type 0 where
  pub jobs : List (ℕ × ℕ)
  pub records : List (JobRecord R)
  pub next_job_id : ℕ
  pub locked_up : Bool

abbrev pub find_job : ℕ → List (ℕ × ℕ) → Option ℕ
find_job id [] = none
find_job id ((k, r) ∷ jobs) = let rest = find_job id jobs in if k == id then some r else rest

-- `HashMap::remove`
abbrev pub without_job : ℕ → List (ℕ × ℕ) → List (ℕ × ℕ)
without_job id [] = []
without_job id ((k, r) ∷ jobs) =
    let rest = without_job id jobs in if k == id then rest else (k, r) ∷ rest

module _ {R : Type 0} where
  unfoldable pub status : JobRecordState R → JobStatus
  status queued = queued_status
  status running = running_status
  status (completed values) = completed_status
  status (failed e) = failed_status
  status cancelled_job = cancelled_status

  -- `JobRecord::new`
  abbrev pub new_record : JobRecord R
  new_record = record { state = queued; cancel = false }

  -- A new record in the table, under the next id.
  abbrev pub listed : JobTable R → JobTable R
  listed t = record t {
    jobs = (t.next_job_id, length t.records) ∷ without_job t.next_job_id t.jobs;
    records = t.records ++ new_record ∷ [];
    next_job_id = (t.next_job_id + 1) % 2 ^ 64;
  }

  -- A task sets the state of its record: `mark_running`, `finish_completed`, `finish_failed` and
  -- `finish_cancelled`.
  unfoldable pub set_state : ℕ → JobRecordState R → JobTable R → JobTable R
  set_state r state t = elim (get_elem? t.records r) [
    | none ↦ t
    | some entry ↦ record t { records = set t.records r (record entry { state = state }) }
  ]

  -- The states that tasks on other threads write to their records, in order.
  unfoldable pub moved : List (ℕ × JobRecordState R) → JobTable R → JobTable R
  unfolding set_state
  moved [] t = t
  moved ((r, state) ∷ moves) t = moved moves (set_state r state t)

  abbrev pub removed : ℕ → JobTable R → JobTable R
  removed id t = record t { jobs = without_job id t.jobs }

  -- `answer` is what the executor says to the first task; a job that it refuses leaves the table.
  -- `moves` are the states that tasks, those of the new job among them, write between the listing of the
  -- job and the return.
  unfoldable pub dispatch :
      {V : Type 0}
      → BraidResult V
      → List (ℕ × JobRecordState R)
      → BraidResult (Unit {0})
      → JobTable R
      → BraidResult ℕ × JobTable R
  unfolding moved
  dispatch (err e) moves answer t = (err e, t)
  dispatch (ok v) moves answer t =
      if t.locked_up
      then (err (poisoned "stack.jobs"), record t { next_job_id = (t.next_job_id + 1) % 2 ^ 64 })
      else elim answer [
        | ok _ ↦ (ok t.next_job_id, moved moves (listed t))
        | err e ↦ (err e, removed t.next_job_id (moved moves (listed t)))
      ]

  unfoldable pub record_of : ℕ → JobTable R → Option (JobRecord R)
  record_of id t = elim (find_job id t.jobs) [ none ↦ none | some r ↦ get_elem? t.records r ]

  unfoldable pub poll : JobTable R → ℕ → JobStatus
  unfolding record_of status
  poll t id =
      if t.locked_up
      then failed_status
      else elim (record_of id t) [ none ↦ failed_status | some r ↦ status r.state ]

  unfoldable pub cancel_job : ℕ → JobTable R → Bool × JobTable R
  cancel_job id t = if t.locked_up then (false, t) else elim (find_job id t.jobs) [
    | none ↦ (false, t)
    | some r ↦ elim (get_elem? t.records r) [
      | none ↦ (false, t)
      | some entry ↦ (true, record t { records = set t.records r (record entry { cancel = true }) })
    ]
  ]

  -- `collect` in its three parts: the record is found, its result is awaited and taken, and the job
  -- leaves the table. Other threads can run between them.
  unfoldable pub find_record : ℕ → JobTable R → BraidResult ℕ
  find_record id t =
      if t.locked_up
      then err (poisoned "stack.jobs")
      else elim (find_job id t.jobs) [ none ↦ err unknown_job | some r ↦ ok r ]

  -- `values.take().unwrap_or_default()`, and the like for an error; `none` is a caller who waits.
  unfoldable pub take_result : JobRecordState R → Option (BraidResult (List R) × JobRecordState R)
  take_result queued = none
  take_result running = none
  take_result (completed (some values)) = some (ok values, completed none)
  take_result (completed none) = some (ok [], completed none)
  take_result (failed (some e)) = some (err e, failed none)
  take_result (failed none) = some (err (from_text "job failed"), failed none)
  take_result cancelled_job = some (err cancelled, cancelled_job)

  unfoldable pub await_result : ℕ → JobTable R → Option (BraidResult (List R) × JobTable R)
  unfolding take_result set_state
  await_result r t = elim (get_elem? t.records r) [
    | none ↦ none
    | some entry ↦ elim (take_result entry.state) [
      | none ↦ none
      | some (result, state) ↦ some (result, set_state r state t)
    ]
  ]

  unfoldable pub forget_job : ℕ → JobTable R → JobTable R
  forget_job id t = if t.locked_up then t else removed id t

  -- `collect` with nothing in between.
  unfoldable pub collect : ℕ → JobTable R → Option (BraidResult (List R) × JobTable R)
  unfolding find_record await_result forget_job
  collect id t = elim (find_record id t) [
    | err e ↦ some (err e, t)
    | ok r ↦ elim (await_result r t) [
      | none ↦ none
      | some (result, t') ↦ some (result, forget_job id t')
    ]
  ]

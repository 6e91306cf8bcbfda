-- ===== src/Stack/TableExamples.antt =====
-- src/stack.rs: a table with one job that has ended.
use braids_rs.Base.{[], arith, false, refl, some, ℕ, ◌∷◌, ◌≡◌, ◌≢◌, List}
use braids_rs.Error.{executor_shutdown, ok, err, unknown_job}
use braids_rs.Stack.{completed, JobRecordState, running}
use braids_rs.Stack.Table.{
  JobTable, JobRecord, failed_status, dispatch, poll, take_result, await_result, collect, moved,
  status,
}
use braids_rs.Stack.Dispatches.{IsValid, dispatch_lem, dispatch_refused}
use braids_rs.Stack.Collects.{collect_lem, await_result_twice}

abbrev ended : JobRecord ℕ
ended = record { state = completed (some (5 ∷ [])); cancel = false }

abbrev one_job : JobTable ℕ
one_job = record { jobs = (1, 0) ∷ []; records = ended ∷ []; next_job_id = 2; locked_up = false }

one_job-IsValid : IsValid one_job
one_job-IsValid = record {
  has_record = λ id r e. ground (arith, e);
  own_record = λ id j r e f. ground (arith, e, f);
}

-- The first task of the new job starts before `dispatch` returns.
abbrev first_moves : List (ℕ × JobRecordState ℕ)
first_moves = (1, running) ∷ []

dispatch_lem_example :
    (u : JobTable ℕ) × (dispatch {V = ℕ} (ok 9) first_moves (ok tt) one_job ≡ (ok 2, u))
    × IsValid u
    × (poll u 2 ≡ status {R = ℕ} running)
    × ((j : ℕ) → j ≢ 2 → poll u j ≡ poll (moved first_moves one_job) j)
dispatch_lem_example = dispatch_lem {V = ℕ} 9 first_moves one_job one_job-IsValid refl

collect_lem_example :
    (u : JobTable ℕ) × (collect 1 one_job ≡ some (ok (5 ∷ []), u))
    × IsValid u
    × (poll u 1 ≡ failed_status)
    × (collect 1 u ≡ some (err unknown_job, u))
    × ((j : ℕ) → j ≢ 1 → poll u j ≡ poll one_job j)
unfolding take_result
collect_lem_example =
    collect_lem one_job 1 0 ended (ok (5 ∷ [])) one_job-IsValid refl refl refl refl

await_result_twice_example :
    (u : JobTable ℕ) × (w : JobTable ℕ) × (await_result 0 one_job ≡ some (ok (5 ∷ []), u))
    × (await_result 0 u ≡ some (ok [], w))
await_result_twice_example = await_result_twice one_job 0 ended (5 ∷ []) refl refl

dispatch_refused_example :
    (u : JobTable ℕ) × (dispatch {V = ℕ} (ok 9) first_moves (err executor_shutdown) one_job
      ≡ (err executor_shutdown, u))
    × IsValid u
    × (poll u 2 ≡ failed_status)
    × ((j : ℕ) → j ≢ 2 → poll u j ≡ poll (moved first_moves one_job) j)
dispatch_refused_example =
    dispatch_refused {V = ℕ} 9 first_moves executor_shutdown one_job one_job-IsValid refl

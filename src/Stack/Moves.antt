-- ===== src/Stack/Moves.antt =====
-- src/stack.rs: what tasks write to the records of jobs while others look at the table.
use braids_rs.Base.{
  Bool-cases, List, Option, Option-cases, [], ap, arith, false, get_elem?, get_elem?-set_ne,
  get_elem?-set_self, get_elem?-some, if◌then◌else◌, inl, inr, length, length-set, lt-length,
  ne_of_==, none, refl, some, ℕ, ◌<◌, ◌==◌, ◌∙◌, ◌∷◌, ◌≡◌,
}
use braids_rs.Stack.{JobRecordState}
use braids_rs.Stack.Table.{
  JobTable, JobStatus, failed_status, set_state, moved, status, poll, record_of, find_job,
}

module _ {R : Type 0} where
  -- The status of a record that is looked up, or not.
  abbrev pub status_at : JobTable R → Option ℕ → JobStatus
  status_at t none = failed_status
  status_at t (some r) = elim (get_elem? t.records r) [
    | none ↦ failed_status
    | some entry ↦ status entry.state
  ]

  pub poll-status_at :
      (t : JobTable R) (id : ℕ) → t.locked_up ≡ false → poll t id ≡ status_at t (find_job id t.jobs)
  unfolding poll record_of
  poll-status_at t id unlocked = elim (Option-cases (find_job id t.jobs)) [
    | inl e ↦ ground (arith, unlocked, e)
    | inr (r, e) ↦ ground (arith, unlocked, e)
  ]

  -- The status of a record after states have been written, from the status it had before.
  abbrev pub status_after : ℕ → List (ℕ × JobRecordState R) → JobStatus → JobStatus
  status_after r [] s = s
  status_after r ((k, state) ∷ moves) s = status_after r moves (if k == r then status state else s)

  -- A write to a record leaves all else of the table, and every record in its place.
  pub record SameJobs (t u : JobTable R) : Type 0 where
    pub jobs : u.jobs ≡ t.jobs
    pub size : length u.records ≡ length t.records
    pub lock : u.locked_up ≡ t.locked_up

  set_state-SameJobs :
      (k : ℕ) (state : JobRecordState R) (t : JobTable R) → SameJobs t (set_state k state t)
  unfolding set_state
  set_state-SameJobs k state t = elim (Option-cases (get_elem? t.records k)) [
    | inl e ↦ record {
      jobs = ground (arith, e);
      size = ground (arith, e);
      lock = ground (arith, e);
    }
    | inr (entry, e) ↦ record {
      jobs = ground (arith, e);
      size = ground (arith, e, length-set t.records k (record entry { state = state }));
      lock = ground (arith, e);
    }
  ]

  pub moved-SameJobs :
      (moves : List (ℕ × JobRecordState R)) (t : JobTable R) → SameJobs t (moved moves t)
  unfolding moved
  moved-SameJobs [] t = record { jobs = refl; size = refl; lock = refl }
  moved-SameJobs ((k, state) ∷ moves) t =
      let one = set_state-SameJobs k state t in
      let rest = moved-SameJobs moves (set_state k state t) in
      record {
        jobs = rest.jobs ∙ one.jobs;
        size = rest.size ∙ one.size;
        lock = rest.lock ∙ one.lock;
      }

  status-set_state :
      (k r : ℕ) (state : JobRecordState R) (t : JobTable R)
      → r < length t.records
      → status_at (set_state k state t) (some r)
        ≡ (if k == r then status state else status_at t (some r))
  unfolding set_state
  status-set_state k r state t h = elim (Option-cases (get_elem? t.records k)) [
    | inl e ↦ elim (Bool-cases (k == r)) [
      | inl q ↦
          let (v, found) = get_elem?-some t.records r h in absurd (ground (arith, e, q, found))
      | inr q ↦ ground (arith, e, q)
    ]
    | inr (entry, e) ↦ elim (Bool-cases (k == r)) [
      | inl q ↦ ground (
        arith,
        e,
        q,
        get_elem?-set_self t.records k (record entry { state = state }) (lt-length t.records k e),
      )
      | inr q ↦ ground (
        arith,
        e,
        q,
        get_elem?-set_ne t.records k r (record entry { state = state }) (ne_of_== k r q),
      )
    ]
  ]

  pub status-moved :
      (moves : List (ℕ × JobRecordState R)) (t : JobTable R) (r : ℕ)
      → r < length t.records
      → status_at (moved moves t) (some r) ≡ status_after r moves (status_at t (some r))
  unfolding moved
  status-moved [] t r h = refl
  status-moved ((k, state) ∷ moves) t r h =
      status-moved moves (set_state k state t) r
        (omega (arith, (set_state-SameJobs k state t).size))
      ∙ ap (status_after r moves) (status-set_state k r state t h)

-- ===== src/Executor/Tasks.antt =====
-- src/executor.rs: no task is lost or run twice.
use braids_rs.Base.{
  List, [], ap, append-nil, arith, count, false, length, refl, ℕ, ◌++◌, ◌+◌, ◌<◌, ◌∷◌, ◌≡◌,
}
use braids_rs.Executor.{
  Executor, Queued, plain, wrapped, register_lanes, schedule, submit, submit_ready, push_task,
  take_task, finish_task, finish_lane, acquire_prepare, finish_prepare, set_shutdown, drain_waiting,
  new_executor,
}
use braids_rs.Executor.Steps.{
  Step, schedules, submits, readies, pushes, takes, finishes, releases, acquires, drops, shuts,
  drains, Reach, here, next, name,
}
use braids_rs.Executor.Lanes.{Reach-lanes, Reach-lanes}

abbrev pub names : List Queued → List ℕ
names [] = []
names (q ∷ qs) = name q ∷ names qs

-- How often a task stands somewhere: it waits, is on its way, in the queue or running, or it has run or
-- was rejected.
abbrev pub places : ℕ → Executor → ℕ
places t x =
    count t x.waiting
    + count t x.ready
    + count t (names x.cleared)
    + count t (names x.queue)
    + count t (names x.running)
    + count t x.ran
    + count t x.rejected

count-append : (t : ℕ) (xs ys : List ℕ) → count t (xs ++ ys) ≡ count t xs + count t ys
count-append t [] ys = omega arith
count-append t (x ∷ xs) ys = ground (arith, count-append t xs ys)

count-pick :
    (t : ℕ) (xs : List ℕ) (a : ℕ) (bs : List ℕ)
    → count t (xs ++ (a ∷ bs)) ≡ count t (a ∷ []) + count t (xs ++ bs)
count-pick t [] a bs = ground arith
count-pick t (x ∷ xs) a bs = ground (arith, count-pick t xs a bs)

count-names-pick :
    (t : ℕ) (xs : List Queued) (q : Queued) (bs : List Queued)
    → count t (names (xs ++ (q ∷ bs))) ≡ count t (name q ∷ []) + count t (names (xs ++ bs))
count-names-pick t [] q bs = ground arith
count-names-pick t (x ∷ xs) q bs = ground (arith, count-names-pick t xs q bs)

-- A step keeps each task in exactly as many places as it was handed over.
pub places-Step :
    {x u : Executor} {os : List ℕ} (t : ℕ) → Step x os u → places t u ≡ count t os + places t x
places-Step {x} t (schedules a) =
    unfold schedule in ground (arith, count-append t x.waiting (a ∷ []))
places-Step {x} t (submits a) = unfold submit in ground arith
places-Step {x} t (readies xs a bs e) = unfold submit_ready in ground (arith, count-pick t xs a bs)
places-Step {x} t (pushes xs q bs e) =
    unfold push_task in
    ground (arith, count-names-pick t xs q bs, count-names-pick t x.queue q [], append-nil x.queue)
places-Step {x} t (takes q rest e) = unfold take_task in ground arith
places-Step {x} t (finishes xs (plain a) bs e) =
    unfold finish_task in ground (arith, count-names-pick t xs (plain a) bs)
places-Step {x} t (finishes xs (wrapped a) bs e) =
    unfold finish_task in ground (arith, count-names-pick t xs (wrapped a) bs)
places-Step {x} t (releases pos) = unfold finish_lane in ground arith
places-Step {x} t (acquires u e) = unfold acquire_prepare in ground arith
places-Step {x} t (drops pos) = unfold finish_prepare in ground arith
places-Step {x} t shuts = unfold set_shutdown in ground arith
places-Step {x} t (drains e) =
    unfold drain_waiting in ground (arith, count-append t x.waiting x.rejected)

places-Reach :
    {start x : Executor} {ts : List ℕ} (t : ℕ)
    → places t start ≡ 0
    → Reach start ts x
    → places t x ≡ count t ts
places-Reach t z here = z
places-Reach t z (next {ts = ts} {os = os} r s) =
    omega (arith, places-Step t s, places-Reach t z r, count-append t os ts)

places-new_executor : (l p t : ℕ) → places t (new_executor (register_lanes l p)) ≡ 0
unfolding new_executor register_lanes
places-new_executor l p t = refl

new_executor_rejected : (l p : ℕ) → (new_executor (register_lanes l p)).rejected ≡ []
unfolding new_executor
new_executor_rejected l p = refl

-- In every reachable state each task stands in exactly as many places as it was handed over: none is
-- lost, none is duplicated.
pub places-Reach_fresh :
    (l p t : ℕ) {ts : List ℕ} {x : Executor}
    → Reach (new_executor (register_lanes l p)) ts x
    → places t x ≡ count t ts
places-Reach_fresh l p t r = places-Reach t (places-new_executor l p t) r

-- Before a shutdown nothing is rejected.
kept-Step :
    {x u : Executor} {os : List ℕ}
    → Step x os u
    → (x.shutdown ≡ false → x.rejected ≡ [])
    → u.shutdown ≡ false
    → u.rejected ≡ []
kept-Step {x} (schedules a) h = unfold schedule in ground arith
kept-Step {x} (submits a) h = unfold submit in ground arith
kept-Step {x} (readies xs a bs e) h = unfold submit_ready in ground arith
kept-Step {x} (pushes xs q bs e) h = unfold push_task in h
kept-Step {x} (takes q rest e) h = unfold take_task in h
kept-Step {x} (finishes xs (plain a) bs e) h = unfold finish_task in h
kept-Step {x} (finishes xs (wrapped a) bs e) h = unfold finish_task in h
kept-Step {x} (releases pos) h = unfold finish_lane in ground arith
kept-Step {x} (acquires u e) h = unfold acquire_prepare in ground arith
kept-Step {x} (drops pos) h = unfold finish_prepare in ground arith
kept-Step {x} shuts h = unfold set_shutdown in ground arith
kept-Step {x} (drains e) h = unfold drain_waiting in ground arith

kept-Reach :
    {start x : Executor} {ts : List ℕ}
    → start.rejected ≡ []
    → Reach start ts x
    → x.shutdown ≡ false
    → x.rejected ≡ []
kept-Reach z here e = z
kept-Reach z (next r s) e = kept-Step s (kept-Reach z r) e

nil_of_length {ℓ} : {A : Type ℓ} (xs : List A) → ¬ (0 < length xs) → xs ≡ []
nil_of_length [] h = refl
nil_of_length (x ∷ xs) h = absurd (h (omega arith))

-- Nothing is on its way, in the queue or running, and no lane or permit is held.
pub record IsQuiet (x : Executor) : Type 0 where
  pub no_ready : x.ready ≡ []
  pub no_cleared : x.cleared ≡ []
  pub no_queue : x.queue ≡ []
  pub no_running : x.running ≡ []
  pub no_releasing : x.releasing ≡ 0
  pub no_preparing : x.preparing ≡ 0

-- When a reachable executor has come to rest, no task waits: each one handed over has run or was
-- rejected, once for each time; and without a shutdown each has run.
pub IsQuiet-Reach :
    (l p t : ℕ) {ts : List ℕ} {x : Executor}
    → Reach (new_executor (register_lanes l p)) ts x
    → IsQuiet x
    → (x.waiting ≡ [])
      × (count t x.ran + count t x.rejected ≡ count t ts)
      × (x.shutdown ≡ false → count t x.ran ≡ count t ts)
IsQuiet-Reach l p t {ts} {x} r q = (
  nothing_waits,
  all_done,
  λ e. omega (arith, all_done, ap (count t) (kept-Reach (new_executor_rejected l p) r e)),
)
  where
    nothing_waits : x.waiting ≡ []
    nothing_waits =
        nil_of_length x.waiting (
          ground (arith, (Reach-lanes l p r).2, q.no_ready, q.no_cleared, q.no_queue, q.no_running))

    all_done : count t x.ran + count t x.rejected ≡ count t ts
    all_done = ground (
      arith,
      places-Reach_fresh l p t r,
      nothing_waits,
      q.no_ready,
      q.no_cleared,
      q.no_queue,
      q.no_running,
    )

-- ===== src/Executor/Lanes.antt =====
-- src/executor.rs: the lanes of a backend are never overbooked, and none is idle while a task waits.
use braids_rs.Base.{List, arith, length, ℕ, ◌++◌, ◌+◌, ◌<◌, ◌∷◌, ◌≡◌, ◌≤◌, ◌∙◌, refl}
use braids_rs.Executor.{
  Executor, Queued, plain, wrapped, register_lanes, schedule, submit, submit_ready, push_task,
  take_task, finish_task, finish_lane, acquire_prepare, granted, finish_prepare, set_shutdown,
  drain_waiting, new_executor, max, min,
}
use braids_rs.Executor.Steps.{
  Step, schedules, submits, readies, pushes, takes, finishes, releases, acquires, drops, shuts,
  drains, wraps, wraps-pick, wraps-push, length-pick, Reach, next, here,
}

-- Each lane in use is held by one task on its way, in the queue or running, by a lane that is about to
-- be given back, or by a permit; and the line of waiting tasks is empty unless every lane is in use.
pub record IsValid (x : Executor) : Type 0 where
  pub held :
      x.lanes_in_use
      ≡ length x.ready
        + wraps x.cleared
        + wraps x.queue
        + wraps x.running
        + x.releasing
        + x.preparing
  pub permits : x.prepares_in_use ≡ x.preparing
  pub lanes_capped : x.lanes_in_use ≤ x.lane_count
  pub permits_capped : x.prepares_in_use ≤ x.prepare_lane_count
  pub busy : 0 < length x.waiting → x.lanes_in_use ≡ x.lane_count

pub new_executor-IsValid : (l p : ℕ) → IsValid (new_executor (register_lanes l p))
unfolding new_executor register_lanes
new_executor-IsValid l p = ground arith

schedule-IsValid : (x : Executor) (t : ℕ) → IsValid x → IsValid (schedule x t)
unfolding schedule
schedule-IsValid x t h = ground arith

submit-IsValid : (x : Executor) (t : ℕ) → IsValid x → IsValid (submit x t).0
unfolding submit
submit-IsValid x t h = ground arith

submit_ready-IsValid :
    (x : Executor) (xs : List ℕ) (t : ℕ) (bs : List ℕ)
    → x.ready ≡ xs ++ (t ∷ bs)
    → IsValid x
    → IsValid (submit_ready x t (xs ++ bs)).0
unfolding submit_ready
submit_ready-IsValid x xs t bs e h = ground (arith, length-pick xs t bs)

push_task-IsValid :
    (x : Executor) (xs : List Queued) (q : Queued) (bs : List Queued)
    → x.cleared ≡ xs ++ (q ∷ bs)
    → IsValid x
    → IsValid (push_task x q (xs ++ bs))
unfolding push_task
push_task-IsValid x xs q bs e h = ground (arith, wraps-pick xs q bs, wraps-push x.queue q)

take_task-IsValid :
    (x : Executor) (q : Queued) (rest : List Queued)
    → x.queue ≡ q ∷ rest
    → IsValid x
    → IsValid (take_task x q rest)
unfolding take_task
take_task-IsValid x (plain t) rest e h = ground arith
take_task-IsValid x (wrapped t) rest e h = ground arith

finish_task-IsValid :
    (x : Executor) (xs : List Queued) (q : Queued) (bs : List Queued)
    → x.running ≡ xs ++ (q ∷ bs)
    → IsValid x
    → IsValid (finish_task x q (xs ++ bs))
unfolding finish_task
finish_task-IsValid x xs (plain t) bs e h = ground (arith, wraps-pick xs (plain t) bs)
finish_task-IsValid x xs (wrapped t) bs e h = ground (arith, wraps-pick xs (wrapped t) bs)

finish_lane-IsValid : (x : Executor) → 0 < x.releasing → IsValid x → IsValid (finish_lane x)
unfolding finish_lane
finish_lane-IsValid x pos h = ground arith

finish_prepare-IsValid : (x : Executor) → 0 < x.preparing → IsValid x → IsValid (finish_prepare x)
unfolding finish_prepare
finish_prepare-IsValid x pos h = ground arith

acquire_prepare-IsValid : (x u : Executor) → acquire_prepare x ≡ granted u → IsValid x → IsValid u
unfolding acquire_prepare
acquire_prepare-IsValid x u e h = ground arith

drain_waiting-IsValid : (x : Executor) → IsValid x → IsValid (drain_waiting x)
unfolding drain_waiting
drain_waiting-IsValid x h = ground arith

set_shutdown-IsValid : (x : Executor) → IsValid x → IsValid (set_shutdown x)
unfolding set_shutdown
set_shutdown-IsValid x h = ground arith

-- Every step keeps the books of the lanes.
pub Step-IsValid : {x u : Executor} {os : List ℕ} → Step x os u → IsValid x → IsValid u
Step-IsValid {x} (schedules t) h = schedule-IsValid x t h
Step-IsValid {x} (submits t) h = submit-IsValid x t h
Step-IsValid {x} (readies xs t bs e) h = submit_ready-IsValid x xs t bs e h
Step-IsValid {x} (pushes xs q bs e) h = push_task-IsValid x xs q bs e h
Step-IsValid {x} (takes q rest e) h = take_task-IsValid x q rest e h
Step-IsValid {x} (finishes xs q bs e) h = finish_task-IsValid x xs q bs e h
Step-IsValid {x} (releases pos) h = finish_lane-IsValid x pos h
Step-IsValid {x} (acquires u e) h = acquire_prepare-IsValid x u e h
Step-IsValid {x} (drops pos) h = finish_prepare-IsValid x pos h
Step-IsValid {x} shuts h = set_shutdown-IsValid x h
Step-IsValid {x} (drains e) h = drain_waiting-IsValid x h

-- A step leaves the sizes that the backend was registered with.
abbrev SameSizes : Executor → Executor → Type 0
SameSizes x u = (u.lane_count ≡ x.lane_count) × (u.prepare_lane_count ≡ x.prepare_lane_count)

Step-SameSizes : {x u : Executor} {os : List ℕ} → Step x os u → SameSizes x u
Step-SameSizes {x} (schedules t) = unfold schedule in ground arith
Step-SameSizes {x} (submits t) = unfold submit in ground arith
Step-SameSizes {x} (readies xs t bs e) = unfold submit_ready in ground arith
Step-SameSizes {x} (pushes xs q bs e) = unfold push_task in (refl, refl)
Step-SameSizes {x} (takes q rest e) = unfold take_task in (refl, refl)
Step-SameSizes {x} (finishes xs (plain t) bs e) = unfold finish_task in (refl, refl)
Step-SameSizes {x} (finishes xs (wrapped t) bs e) = unfold finish_task in (refl, refl)
Step-SameSizes {x} (releases pos) = unfold finish_lane in ground arith
Step-SameSizes {x} (acquires u e) = unfold acquire_prepare in ground arith
Step-SameSizes {x} (drops pos) = unfold finish_prepare in ground arith
Step-SameSizes {x} shuts = unfold set_shutdown in (refl, refl)
Step-SameSizes {x} (drains e) = unfold drain_waiting in (refl, refl)

Reach-SameSizes : {start x : Executor} {ts : List ℕ} → Reach start ts x → SameSizes start x
Reach-SameSizes here = (refl, refl)
Reach-SameSizes (next r s) =
    let (a, b) = Reach-SameSizes r in let (c, d) = Step-SameSizes s in (c ∙ a, d ∙ b)

pub Reach-IsValid :
    {start x : Executor} {ts : List ℕ} → IsValid start → Reach start ts x → IsValid x
Reach-IsValid h here = h
Reach-IsValid h (next r s) = Step-IsValid s (Reach-IsValid h r)

fresh_sizes :
    (l p : ℕ) {ts : List ℕ} {x : Executor}
    → Reach (new_executor (register_lanes l p)) ts x
    → (x.lane_count ≡ max l 1) × (x.prepare_lane_count ≡ min (max p 1) (max l 1))
unfolding new_executor register_lanes
fresh_sizes l p r = Reach-SameSizes r

-- In every state that threads can reach from a fresh registration, the stages that run and the permits
-- that are held are together at most the lanes asked for, and at least one; the permits are at most
-- the prepare lanes asked for; and while a task waits, every lane is taken.
pub Reach-lanes :
    (l p : ℕ) {ts : List ℕ} {x : Executor}
    → Reach (new_executor (register_lanes l p)) ts x
    → (wraps x.running + x.preparing ≤ max l 1)
      × (x.preparing ≤ min (max p 1) (max l 1))
      × (0 < length x.waiting
          → length x.ready
              + wraps x.cleared
              + wraps x.queue
              + wraps x.running
              + x.releasing
              + x.preparing
            ≡ max l 1)
Reach-lanes l p {x = x} r =
    let h = Reach-IsValid (new_executor-IsValid l p) r in
    let (a, b) = fresh_sizes l p r in
    (
      omega (arith, h.held, h.lanes_capped, a),
      omega (arith, h.permits, h.permits_capped, b),
      λ w. omega (arith, h.held, h.busy w, a),
    )

-- ===== src/Executor/Examples.antt =====
-- src/executor.rs: two stages on one lane, and the races of `shutdown`, at concrete states.
use braids_rs.Base.{[], arith, count, false, get_elem?, length, refl, some, ◌+◌, ◌<◌, ◌∷◌, ◌≡◌, ◌≤◌}
use braids_rs.Executor.{
  Executor, wrapped, register_lanes, new_executor, schedule, submit_ready, push_task, take_task,
  finish_task, finish_lane,
}
use braids_rs.Executor.Steps.{
  schedules, readies, pushes, takes, finishes, releases, Reach, here, next, wraps,
}
use braids_rs.Executor.Lanes.{Reach-lanes}
use braids_rs.Executor.Tasks.{places, places-Reach_fresh, IsQuiet, IsQuiet-Reach}
use braids_rs.Executor.Workers.{
  Pool, Steps, up, notified, idle, poised, asleep, busy, exited, missed_wakeup, lost_task, look,
}
use braids_rs.Executor.Workers
use Prim.Native.Nat.{min, max}

abbrev start : Executor
start = new_executor (register_lanes 1 1)

-- Task 5 takes the one lane, task 6 waits.
abbrev crowded : Executor
crowded = schedule (schedule start 5) 6

crowded_reached : Reach start (6 ∷ 5 ∷ []) crowded
crowded_reached = next (next here (schedules 5)) (schedules 6)

crowded_waits : crowded.waiting ≡ 6 ∷ []
unfolding new_executor register_lanes schedule
crowded_waits = refl

Reach-lanes_example :
    (wraps crowded.running + crowded.preparing ≤ max 1 1)
    × (crowded.preparing ≤ min (max 1 1) (max 1 1))
    × (0 < length crowded.waiting
        → length crowded.ready
            + wraps crowded.cleared
            + wraps crowded.queue
            + wraps crowded.running
            + crowded.releasing
            + crowded.preparing
          ≡ max 1 1)
Reach-lanes_example = Reach-lanes 1 1 crowded_reached

places-Reach_fresh_example : places 6 crowded ≡ 1
places-Reach_fresh_example = places-Reach_fresh 1 1 6 crowded_reached

-- One task from its hand-over to the return of its lane.
abbrev rested : Executor
rested = finish_lane (
    finish_task
      (take_task (push_task (submit_ready (schedule start 5) 5 []).0 (wrapped 5) []) (wrapped 5) [])
      (wrapped 5) [])

rested_reached : Reach start (5 ∷ []) rested
unfolding new_executor register_lanes schedule submit_ready push_task take_task finish_task
rested_reached =
    next
      (next
        (next
          (next (next (next here (schedules 5)) (readies [] 5 [] refl))
            (pushes [] (wrapped 5) [] refl))
          (takes (wrapped 5) [] refl))
        (finishes [] (wrapped 5) [] refl))
      (releases (omega arith))

rested-IsQuiet : IsQuiet rested
unfolding new_executor register_lanes schedule submit_ready push_task take_task finish_task
    finish_lane
rested-IsQuiet = record {
  no_ready = refl;
  no_cleared = refl;
  no_queue = refl;
  no_running = refl;
  no_releasing = refl;
  no_preparing = refl;
}

IsQuiet-Reach_example :
    (rested.waiting ≡ [])
    × (count 5 rested.ran + count 5 rested.rejected ≡ 1)
    × (rested.shutdown ≡ false → count 5 rested.ran ≡ 1)
IsQuiet-Reach_example = IsQuiet-Reach 1 1 5 rested_reached rested-IsQuiet

-- One worker that has just found the queue empty and the flag down.
abbrev about_to_wait : Pool
about_to_wait = record { shutdown = up; tasks = 0; cleared = 0; signals = 0; workers = poised ∷ [] }

missed_wakeup_example :
    (u : Pool) × Steps about_to_wait u
    × (u.shutdown ≡ notified)
    × ((v : Pool) → Steps u v → get_elem? v.workers 0 ≡ some asleep)
missed_wakeup_example = missed_wakeup about_to_wait 0 refl refl refl refl

-- A submission passes its test, the flag is swapped, and the one worker leaves.
abbrev deserted : Pool
deserted = record {
  shutdown = Workers.flagged;
  tasks = 0;
  cleared = 1;
  signals = 0;
  workers = exited ∷ [];
}

deserted_reached :
    Steps
      (record { shutdown = up; tasks = 0; cleared = 0; signals = 0; workers = idle ∷ [] })
      deserted
unfolding look
deserted_reached =
    Workers.next
      (Workers.next (Workers.next Workers.here (Workers.clears refl)) (Workers.flags refl))
      (Workers.looks 0 refl ((λ e. cc), tt))

lost_task_example :
    (u : Pool) × Workers.Step deserted u × (u.tasks ≡ 1) × ((v : Pool) → Steps u v → 0 < v.tasks)
lost_task_example = lost_task deserted (refl, tt) (omega arith)

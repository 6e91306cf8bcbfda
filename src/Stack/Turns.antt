-- ===== src/Stack/Turns.antt =====
-- src/stack.rs: every job ends, whatever its planner, its backend, the executor's answers and the cancel
-- flag do.
use braids_rs.Base.{
  Bool, Bool-cases, List, Option, Option-cases, [], ap, arith, done, false, inl, inr, length, ltb,
  none, panic, refl, some, suc, sym, true, ℕ, ◌+◌, ◌-◌, ◌<◌, ◌==◌, ◌∙◌, ◌∷◌, ◌≡◌, ◌≤◌,
}
use braids_rs.Error.{BraidResult, ok, err}
use mathlib.Core.Path.{subst}
use braids_rs.Call.{Call, and_call}
use braids_rs.Packet.{JobPacket}
use braids_rs.Planner.{PlannerBackend, ComputeBackend}
use braids_rs.Stack.{FrozenStackVersion, running, completed}
use braids_rs.Stack.Packets.{Pools, encode_packet, run_stage_once, decode_packet}
use braids_rs.Stack.Jobs.{
  Job, Task, Turn, encode_task, decode_task, stage_task, take_packet, store_packet, in_pools,
  in_slot, stage_count, store_encoded, schedule_next, stage_with, decode_taken, encode_step,
  stage_step, decode_step, run_task, run_job, new_job,
}
use braids_rs.Stack.Ends.{
  IsEnded, turns_of, FitsTask, IsOnTrack, IsSound, IsSound-le, reject-IsEnded, run_caught-IsOnTrack,
  and_call-IsSound, schedule_plain-IsSound, schedule_stage-IsSound,
}

module _ (P : PlannerBackend) (C : ComputeBackend P.PlannerMeta) (debug : Bool)
    (v : FrozenStackVersion P C) where
  abbrev n : ℕ
  n = stage_count P C debug v

  store_encoded-IsSound :
      (answer : BraidResult (Unit {0})) (p : JobPacket) (j : Job P.Resolution)
      → j.next ≡ none
      → j.slot ≡ none
      → j.slot_poisoned ≡ false
      → IsSound n (n + 1) (store_encoded P C debug v answer p j)
  unfolding store_encoded store_packet
  store_encoded-IsSound answer p j e s u =
      rw (u, s)
        (elim (Bool-cases (n == 0)) [
          | inl q ↦ rw q (
              IsSound-le n 1 (n + 1) _ (omega arith)
                (schedule_plain-IsSound n answer (record j { slot = some p }) p e refl u))
          | inr q ↦ rw q (
              IsSound-le n (n - 0 + 1) (n + 1) _ (omega arith) (
                schedule_stage-IsSound n 0 answer (record j { slot = some p }) p (ground arith) e
                  refl u))
        ])

  encode_step-IsSound :
      (queries : List P.Query) (stop : Bool) (answer : BraidResult (Unit {0}))
      (j : Job P.Resolution)
      → j.next ≡ none
      → j.slot ≡ none
      → j.slot_poisoned ≡ false
      → IsSound n (n + 1) (encode_step P C debug v queries stop answer j)
  unfolding encode_step
  encode_step-IsSound queries true answer j e s u = e
  encode_step-IsSound queries false answer j e s u =
      and_call-IsSound n (n + 1)
        (in_pools (encode_packet P C debug v queries j.pools) (record j { state = running }))
        (store_encoded P C debug v answer) e
        λ p k from.
          store_encoded-IsSound answer p k (ap (λ x. x.next) from ∙ e) (ap (λ x. x.slot) from ∙ s)
            (ap (λ x. x.slot_poisoned) from ∙ u)

  schedule_next-IsSound :
      (i : ℕ) (answer : BraidResult (Unit {0})) (j : Job P.Resolution) (p : JobPacket)
      → i < n
      → j.next ≡ none
      → j.slot ≡ some p
      → j.slot_poisoned ≡ false
      → IsSound n (n - i) (schedule_next P C debug v i answer j)
  unfolding schedule_next
  schedule_next-IsSound i answer j p l e s u = elim (Bool-cases (ltb (i + 1) n)) [
    | inl q ↦ rw q (
        IsSound-le n (n - (i + 1) + 1) (n - i) _ (ground arith)
          (schedule_stage-IsSound n (i + 1) answer j p (ground arith) e s u))
    | inr q ↦
        rw q (IsSound-le n 1 (n - i) _ (omega arith) (schedule_plain-IsSound n answer j p e s u))
  ]

  stage_ran-IsSound :
      (i : ℕ) (answer : BraidResult (Unit {0})) (j : Job P.Resolution)
      (c : Call (Unit {0}) JobPacket)
      → i < n
      → j.next ≡ none
      → j.slot_poisoned ≡ false
      → IsSound n (n - i) (and_call (in_slot c j) λ _. schedule_next P C debug v i answer)
  stage_ran-IsSound i answer j (done (ok _), p) l e u =
      schedule_next-IsSound i answer (record j { slot = some p }) p l e refl u
  stage_ran-IsSound i answer j (done (err _), p) l e u = e
  stage_ran-IsSound i answer j (panic, p) l e u = e

  stage_with-IsSound :
      (i : ℕ) (looks : ℕ → Bool) (answer : BraidResult (Unit {0})) (j : Job P.Resolution)
      (p : JobPacket) (o : Option JobPacket)
      → i < n
      → j.next ≡ none
      → o ≡ some p
      → j.slot_poisoned ≡ false
      → IsSound n (n - i) (stage_with P C debug v i looks answer j o)
  stage_with-IsSound i looks answer j p none l e s u = cc
  stage_with-IsSound i looks answer j p (some q) l e s u =
      stage_ran-IsSound i answer j (run_stage_once P C debug v i q looks) l e u

  stage_step-IsSound :
      (i : ℕ) (stop : Bool) (looks : ℕ → Bool) (answer : BraidResult (Unit {0}))
      (j : Job P.Resolution) (p : JobPacket)
      → i < n
      → j.next ≡ none
      → j.slot ≡ some p
      → j.slot_poisoned ≡ false
      → IsSound n (n - i) (stage_step P C debug v i stop looks answer j)
  unfolding stage_step
  stage_step-IsSound i true looks answer j p l e s u = e
  stage_step-IsSound i false looks answer j p l e s u =
      simp u (stage_with-IsSound i looks answer j p j.slot l e s u)

  decoded-IsSound :
      (j : Job P.Resolution) (c : Call (List P.Resolution) Pools)
      → j.next ≡ none
      → j.slot ≡ none
      → IsSound n 0 (
          and_call
            (in_pools c j)
            λ values j'. (done (ok tt), record j' { state = completed (some values) }))
  decoded-IsSound j (done (ok values), s) e gone = inl (e, tt, inl gone)
  decoded-IsSound j (done (err _), s) e gone = e
  decoded-IsSound j (panic, s) e gone = e

  decode_step-IsSound :
      (stop : Bool) (j : Job P.Resolution) (p : JobPacket)
      → j.next ≡ none
      → j.slot ≡ some p
      → j.slot_poisoned ≡ false
      → IsSound n 0 (decode_step P C debug v stop j)
  unfolding decode_step decode_taken take_packet
  decode_step-IsSound true j p e s u = e
  decode_step-IsSound false j p e s u =
      rw (u, s)
        (decoded-IsSound (record j { slot = none }) (decode_packet P C debug v p j.pools) e refl)

  run_task-IsOnTrack :
      (queries : List P.Query) (t : Turn) (task : Task) (turns : ℕ) (j : Job P.Resolution)
      → turns_of n task ≤ suc turns
      → j.next ≡ none
      → FitsTask n task j
      → IsOnTrack n turns (run_task P C debug v queries t task j)
  unfolding run_task
  run_task-IsOnTrack queries t encode_task turns j l e f = run_caught-IsOnTrack n turns _ (
      IsSound-le n (n + 1) turns _ (omega arith)
        (encode_step-IsSound queries t.is_cancelled t.answer j e f.0 f.1))
  run_task-IsOnTrack queries t decode_task turns j l e f = run_caught-IsOnTrack n turns _ (
      IsSound-le n 0 turns _ (omega arith) (decode_step-IsSound t.is_cancelled j f.0.0 e f.0.1 f.1))
  run_task-IsOnTrack queries t (stage_task i) turns j l e f = elim (Option-cases t.rejected) [
    | inl q ↦ rw q (
        run_caught-IsOnTrack n turns _ (
          IsSound-le n (n - i) turns _ (omega arith)
            (stage_step-IsSound i t.is_cancelled t.looks t.answer j f.1.0 f.0 e f.1.1 f.2)))
    | inr (w, q) ↦ rw q (inl (reject-IsEnded j w e))
  ]

  run_job_stops :
      (queries : List P.Query) (t : Turn) (ts : List Turn) (j : Job P.Resolution)
      → j.next ≡ none
      → run_job P C debug v queries (t ∷ ts) j ≡ j
  unfolding run_job
  run_job_stops queries t ts j e = ground arith

  FitsTask-next :
      (task : Task) (j : Job P.Resolution)
      → FitsTask n task j
      → FitsTask n task (record j { next = none })
  FitsTask-next encode_task j f = f
  FitsTask-next decode_task j f = f
  FitsTask-next (stage_task i) j f = f

  -- A job that is under way ends within the turns that its task leaves, whatever comes.
  run_job-IsOnTrack :
      (queries : List P.Query) (ts : List Turn) (j : Job P.Resolution)
      → IsOnTrack n (length ts) j
      → IsEnded (run_job P C debug v queries ts j)
  unfolding run_job
  run_job-IsOnTrack queries [] j (inl h) = h
  run_job-IsOnTrack queries [] j (inr (encode_task, e, l, f)) = absurd (omega arith)
  run_job-IsOnTrack queries [] j (inr (decode_task, e, l, f)) = absurd (omega arith)
  run_job-IsOnTrack queries [] j (inr (stage_task i, e, l, f)) = absurd (omega arith)
  run_job-IsOnTrack queries (t ∷ ts) j (inl h) =
      subst IsEnded (sym (run_job_stops queries t ts j h.0)) h
  run_job-IsOnTrack queries (t ∷ ts) j (inr (task, e, l, f)) = rw e (
      run_job-IsOnTrack queries ts (run_task P C debug v queries t task (record j { next = none }))
        (run_task-IsOnTrack queries t task (length ts) (record j { next = none }) l refl
          (FitsTask-next task j f)))

  -- A job ends: a plan of `n` stages takes at most `n + 2` turns of the executor to a final status, with
  -- no task left over and its packet out of the slot (unless a stage panicked and poisoned the slot's
  -- lock), whatever the planner and the backend answer, panics included, whether or not each task is
  -- accepted or rejected, and whenever the job is cancelled.
  pub run_job_ends :
      (queries : List P.Query) (ts : List Turn) (pools : Pools)
      → n + 2 ≤ length ts
      → IsEnded (run_job P C debug v queries ts (new_job pools))
  unfolding new_job
  run_job_ends queries ts pools enough =
      run_job-IsOnTrack queries ts (new_job pools) (inr (encode_task, refl, enough, (refl, refl)))

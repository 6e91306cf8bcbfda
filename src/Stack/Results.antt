-- ===== src/Stack/Results.antt =====
-- src/stack.rs: the stage tasks of a job and its decode task, against a direct run of the stages.
use braids_rs.Base.{
  Bool, List, Option, Outcome, [], ap, arith, done, false, length, ltb, map, none, panic, refl,
  some, suc, true, zero, ℕ, ◌+◌, ◌<◌, ◌∙◌, ◌∷◌, ◌≡◌,
}
use braids_rs.Error.{BraidResult, ok, err, from_text}
use braids_rs.Call.{Call, and_call}
use braids_rs.Packet.{JobPacket, new_packet}
use braids_rs.Planner.{PlannerBackend, ComputeBackend}
use braids_rs.Stack.{FrozenStackVersion, JobRecordState, running, completed, failed}
use braids_rs.Stack.Packets.{Pools, run_stage_once, decode_packet}
use braids_rs.Stack.Jobs.{
  Job, Task, Turn, state_of_error, decode_task, stage_task, cleanup_packet, take_packet, in_pools,
  in_slot, stage_count, schedule_next, decode_taken, stage_step, decode_step, run_task, run_job,
  run_caught, settle, schedule_plain, schedule_stage,
}

module _ (P : PlannerBackend) (C : ComputeBackend P.PlannerMeta) (debug : Bool)
    (v : FrozenStackVersion P C) (queries : List P.Query) where
  -- The status that an answer leaves.
  abbrev pub state_of : Outcome (BraidResult (List P.Resolution)) → JobRecordState P.Resolution
  state_of (done (ok values)) = completed (some values)
  state_of (done (err e)) = state_of_error e
  state_of panic = failed (some (from_text "executor task panicked"))

  -- A packet is decoded once its stages have run; an error or a panic of a stage is the answer.
  abbrev pub decode_after :
      Call (Unit {0}) JobPacket → Pools → Outcome (BraidResult (List P.Resolution))
  decode_after (done (ok _), p) s = (decode_packet P C debug v p s).0
  decode_after (done (err e), p) s = done (err e)
  decode_after (panic, p) s = panic

  -- A turn in which nothing cancels the job and every task is accepted and comes to run.
  abbrev pub calm_turn : (ℕ → Bool) → Turn
  calm_turn looks = record { is_cancelled = false; looks = looks; answer = ok tt; rejected = none }

  -- The direct run of `n` stages from `i` on, each with what it sees of the flag itself.
  abbrev pub stages_directly : ℕ → ℕ → JobPacket → List (ℕ → Bool) → Call (Unit {0}) JobPacket
  stages_directly zero i p ls = (done (ok tt), p)
  stages_directly (suc n) i p [] = (done (ok tt), p)
  stages_directly (suc n) i p (l ∷ ls) =
      and_call (run_stage_once P C debug v i p l) λ _ p'. stages_directly n (suc i) p' ls

  abbrev pub holding : JobPacket → Pools → Option Task → Job P.Resolution
  holding p s next = record {
    state = running;
    slot = some p;
    slot_poisoned = false;
    pools = s;
    next = next;
  }

  -- The status in the end.
  abbrev pub status_after : List (ℕ → Bool) → Job P.Resolution → JobRecordState P.Resolution
  status_after ls j = (run_job P C debug v queries (map calm_turn ls) j).state

  finished :
      (ls : List (ℕ → Bool)) (s : Pools) (c : Call (List P.Resolution) Pools)
      → status_after ls (
          run_caught (
            and_call
              (in_pools c (record (holding new_packet s none) { slot = none }))
              λ values j. (done (ok tt), record j { state = completed (some values) })))
        ≡ state_of c.0
  unfolding run_job run_caught settle cleanup_packet
  finished [] s (done (ok values), s') = refl
  finished [] s (done (err e), s') = refl
  finished [] s (panic, s') = refl
  finished (l ∷ ls) s (done (ok values), s') = refl
  finished (l ∷ ls) s (done (err e), s') = refl
  finished (l ∷ ls) s (panic, s') = refl

  pub decoded :
      (l : ℕ → Bool) (ls : List (ℕ → Bool)) (p : JobPacket) (s : Pools)
      → status_after (l ∷ ls) (holding p s (some decode_task))
        ≡ state_of (decode_packet P C debug v p s).0
  unfolding run_job run_task decode_step decode_taken take_packet
  decoded l ls p s = finished ls s (decode_packet P C debug v p s)

  stage_ran :
      (i : ℕ) (ls : List (ℕ → Bool)) (p : JobPacket) (s : Pools) (r : Call (Unit {0}) JobPacket)
      (rest : JobPacket → Call (Unit {0}) JobPacket)
      → ((p' : JobPacket)
          → status_after ls (run_caught (schedule_next P C debug v i (ok tt) (holding p' s none)))
            ≡ state_of (decode_after (rest p') s))
      → status_after ls (
          run_caught
            (and_call (in_slot r (holding p s none)) λ _. schedule_next P C debug v i (ok tt)))
        ≡ state_of (decode_after (and_call r λ _. rest) s)
  unfolding run_job run_caught settle cleanup_packet
  stage_ran i ls p s (done (ok _), p') rest h = h p'
  stage_ran i [] p s (done (err e), p') rest h = refl
  stage_ran i (l ∷ ls) p s (done (err e), p') rest h = refl
  stage_ran i [] p s (panic, p') rest h = refl
  stage_ran i (l ∷ ls) p s (panic, p') rest h = refl

  next_is_decode :
      (i : ℕ) (p : JobPacket) (s : Pools)
      → ltb (i + 1) (stage_count P C debug v) ≡ false
      → run_caught (schedule_next P C debug v i (ok tt) (holding p s none))
        ≡ holding p s (some decode_task)
  unfolding run_caught schedule_next schedule_plain
  next_is_decode i p s q = rw q refl

  next_is_stage :
      (i : ℕ) (p : JobPacket) (s : Pools)
      → ltb (i + 1) (stage_count P C debug v) ≡ true
      → run_caught (schedule_next P C debug v i (ok tt) (holding p s none))
        ≡ holding p s (some (stage_task (i + 1)))
  unfolding run_caught schedule_next schedule_stage
  next_is_stage i p s q = rw q refl

  stage_turn :
      (i : ℕ) (l : ℕ → Bool) (ls : List (ℕ → Bool)) (p : JobPacket) (s : Pools)
      → status_after (l ∷ ls) (holding p s (some (stage_task i)))
        ≡ status_after ls (
            run_caught (
              and_call
                (in_slot (run_stage_once P C debug v i p l) (holding p s none))
                λ _. schedule_next P C debug v i (ok tt)))
  unfolding run_job run_task stage_step
  stage_turn i l ls p s = refl

  pub stages_run :
      (k i : ℕ) (ls : List (ℕ → Bool)) (p : JobPacket) (s : Pools)
      → i + suc k ≡ stage_count P C debug v
      → suc k < length ls
      → status_after ls (holding p s (some (stage_task i)))
        ≡ state_of (decode_after (stages_directly (suc k) i p ls) s)
  stages_run k i [] p s e enough = absurd (omega arith)
  stages_run zero i (l ∷ []) p s e enough = absurd (omega arith)
  stages_run zero i (l ∷ m ∷ ls) p s e enough =
      stage_turn i l (m ∷ ls) p s
      ∙ stage_ran i (m ∷ ls) p s (run_stage_once P C debug v i p l) (λ p'. (done (ok tt), p'))
          λ p'.
            ap (status_after (m ∷ ls)) (next_is_decode i p' s (ground arith)) ∙ decoded m ls p' s
  stages_run (suc k) i (l ∷ ls) p s e enough =
      stage_turn i l ls p s
      ∙ stage_ran i ls p s (run_stage_once P C debug v i p l)
          (λ p'. stages_directly (suc k) (suc i) p' ls)
          λ p'.
            ap (status_after ls) (next_is_stage i p' s (ground arith))
            ∙ ap (λ j. status_after ls (holding p' s (some (stage_task j)))) succ
            ∙ stages_run k (suc i) ls p' s (omega arith) (omega arith)
    where
      succ : i + 1 ≡ suc i
      succ = omega arith

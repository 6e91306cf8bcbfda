-- ===== src/Stack/Jobs.antt =====
-- src/stack.rs: the three tasks of a job (`JobExecution`), and its record.
-- The record's own mutex is never poisoned: no planner or backend code runs under it. The lock on the
-- packet is held while a stage runs.
use braids_rs.Base.{
  Bool, List, Option, [], done, false, if◌then◌else◌, length, ltb, none, panic, some, true, ℕ, ◌+◌,
  ◌==◌, ◌∷◌,
}
use braids_rs.Error.{BraidError, BraidResult, ok, err, from_text, cancelled, poisoned}
use braids_rs.Call.{Call, and_call}
use braids_rs.Packet.{JobPacket, clear_for_reuse}
use braids_rs.Planner.{PlannerBackend, ComputeBackend}
use braids_rs.Stack.{
  FrozenStackVersion, JobRecordState, queued, running, cancelled_job, completed, failed,
}
use braids_rs.Stack.Packets.{Pools, return_packet, encode_packet, run_stage_once, decode_packet}

pub data Task : Type 0 where
  encode_task decode_task : Task
  stage_task : ℕ → Task

-- A job with the pools of its stack. `next` is the task that the executor has accepted.
pub record Job (R : Type 0) : Type 0 where
  pub state : JobRecordState R
  pub slot : Option JobPacket
  pub slot_poisoned : Bool
  pub pools : Pools
  pub next : Option Task

module _ {R : Type 0} where
  -- `JobRecord::new` and the job that `dispatch` makes of it, its first task accepted.
  unfoldable pub new_job : Pools → Job R
  new_job pools = record {
    state = queued;
    slot = none;
    slot_poisoned = false;
    pools = pools;
    next = some encode_task;
  }

  abbrev pub in_pools : {A : Type 0} → Call A Pools → Job R → Call A (Job R)
  in_pools (answer, pools) j = (answer, record j { pools = pools })

  unfoldable pub store_packet : JobPacket → Job R → Call (Unit {0}) (Job R)
  store_packet p j =
      if j.slot_poisoned then (done (err (poisoned "job_execution.packet")), j) else elim j.slot [
        | some old ↦ (done (err (from_text "job packet already stored")), j)
        | none ↦ (done (ok tt), record j { slot = some p })
      ]

  unfoldable pub take_packet : Job R → Call JobPacket (Job R)
  take_packet j =
      if j.slot_poisoned then (done (err (poisoned "job_execution.packet")), j) else elim j.slot [
        | none ↦ (done (err (from_text "missing job packet")), j)
        | some p ↦ (done (ok p), record j { slot = none })
      ]

  unfoldable pub cleanup_packet : Job R → Job R
  cleanup_packet j = if j.slot_poisoned then j else elim j.slot [
    | none ↦ j
    | some p ↦ record j { slot = none; pools = (return_packet (clear_for_reuse p) j.pools).1 }
  ]

  unfoldable pub reject_scheduled_task : Job R → BraidError → Job R
  unfolding cleanup_packet
  reject_scheduled_task j e = record (cleanup_packet j) { state = failed (some e) }

  -- `schedule_encode` and `schedule_decode`: the executor's answer.
  unfoldable pub schedule_plain : BraidResult (Unit {0}) → Task → Job R → Call (Unit {0}) (Job R)
  schedule_plain (ok _) t j = (done (ok tt), record j { next = some t })
  schedule_plain (err e) t j = (done (err e), j)

  -- `schedule_stage`: a refused task is rejected before the caller is told.
  unfoldable pub schedule_stage : BraidResult (Unit {0}) → ℕ → Job R → Call (Unit {0}) (Job R)
  unfolding reject_scheduled_task
  schedule_stage (ok _) i j = (done (ok tt), record j { next = some (stage_task i) })
  schedule_stage (err e) i j = (done (err e), reject_scheduled_task j e)

  -- `run_caught`, an error.
  abbrev pub state_of_error : BraidError → JobRecordState R
  state_of_error cancelled = cancelled_job
  state_of_error e = failed (some e)

  unfoldable pub settle : BraidError → Job R → Job R
  unfolding cleanup_packet
  settle e j = record (cleanup_packet j) { state = state_of_error e }

  unfoldable pub run_caught : Call (Unit {0}) (Job R) → Job R
  unfolding settle cleanup_packet
  run_caught (done (ok _), j) = j
  run_caught (done (err e), j) = settle e j
  run_caught (panic, j) = record (cleanup_packet j) {
    state = failed (some (from_text "executor task panicked"));
  }

  -- The packet comes back into its slot; a panic poisons the lock.
  abbrev pub in_slot : Call (Unit {0}) JobPacket → Job R → Call (Unit {0}) (Job R)
  in_slot (panic, p) j = (panic, record j { slot = some p; slot_poisoned = true })
  in_slot (done r, p) j = (done r, record j { slot = some p })

-- What a turn of the executor meets: the flag at its start and during a stage, the answer to the task
-- that it hands over, and for a stage that waited for its lane, whether a shutdown rejects it instead.
pub record Turn : Type 0 where
  pub is_cancelled : Bool
  pub looks : ℕ → Bool
  pub answer : BraidResult (Unit {0})
  pub rejected : Option BraidError

module _ (P : PlannerBackend) (C : ComputeBackend P.PlannerMeta) (debug : Bool) where
  abbrev pub stage_count : FrozenStackVersion P C → ℕ
  stage_count v = length v.compiled.pipeline.stages

  -- `encode_step`, once there is a packet.
  unfoldable pub store_encoded :
      FrozenStackVersion P C
      → BraidResult (Unit {0})
      → JobPacket
      → Job P.Resolution
      → Call (Unit {0}) (Job P.Resolution)
  unfolding store_packet schedule_plain schedule_stage
  store_encoded v answer p j = and_call (store_packet p j) λ _ j'.
      if stage_count v == 0
      then schedule_plain answer decode_task j'
      else schedule_stage answer 0 j'

  unfoldable pub encode_step :
      FrozenStackVersion P C
      → List P.Query
      → Bool
      → BraidResult (Unit {0})
      → Job P.Resolution
      → Call (Unit {0}) (Job P.Resolution)
  unfolding encode_packet store_encoded
  encode_step v queries is_cancelled answer j = elim is_cancelled [
    | true ↦ (done (err cancelled), j)
    | false ↦
        and_call
          (in_pools (encode_packet P C debug v queries j.pools) (record j { state = running }))
          (store_encoded v answer)
  ]

  -- `stage_step`, once the stage has run.
  unfoldable pub schedule_next :
      FrozenStackVersion P C
      → ℕ
      → BraidResult (Unit {0})
      → Job P.Resolution
      → Call (Unit {0}) (Job P.Resolution)
  unfolding schedule_plain schedule_stage
  schedule_next v i answer j =
      if ltb (i + 1) (stage_count v)
      then schedule_stage answer (i + 1) j
      else schedule_plain answer decode_task j

  -- `stage_step`, with the packet borrowed from its slot.
  abbrev pub stage_with :
      FrozenStackVersion P C
      → ℕ
      → (ℕ → Bool)
      → BraidResult (Unit {0})
      → Job P.Resolution
      → Option JobPacket
      → Call (Unit {0}) (Job P.Resolution)
  stage_with v i looks answer j none = (done (err (from_text "missing job packet")), j)
  stage_with v i looks answer j (some p) =
      and_call (in_slot (run_stage_once P C debug v i p looks) j) λ _. schedule_next v i answer

  unfoldable pub stage_step :
      FrozenStackVersion P C
      → ℕ
      → Bool
      → (ℕ → Bool)
      → BraidResult (Unit {0})
      → Job P.Resolution
      → Call (Unit {0}) (Job P.Resolution)
  unfolding run_stage_once schedule_next
  stage_step v i is_cancelled looks answer j = elim is_cancelled [
    | true ↦ (done (err cancelled), j)
    | false ↦
        if j.slot_poisoned
        then (done (err (poisoned "job_execution.packet")), j)
        else stage_with v i looks answer j j.slot
  ]

  -- `decode_step`, with the packet taken, and `finish_completed`.
  unfoldable pub decode_taken :
      FrozenStackVersion P C → JobPacket → Job P.Resolution → Call (Unit {0}) (Job P.Resolution)
  unfolding decode_packet
  decode_taken v p j =
      and_call (in_pools (decode_packet P C debug v p j.pools) j)
        λ values j'. (done (ok tt), record j' { state = completed (some values) })

  unfoldable pub decode_step :
      FrozenStackVersion P C → Bool → Job P.Resolution → Call (Unit {0}) (Job P.Resolution)
  unfolding take_packet decode_taken
  decode_step v is_cancelled j = elim is_cancelled [
    | true ↦ (done (err cancelled), j)
    | false ↦ and_call (take_packet j) (decode_taken v)
  ]

  -- One turn: the accepted task runs, or is rejected.
  unfoldable pub run_task :
      FrozenStackVersion P C → List P.Query → Turn → Task → Job P.Resolution → Job P.Resolution
  unfolding encode_step stage_step decode_step run_caught reject_scheduled_task
  run_task v queries t encode_task j = run_caught (encode_step v queries t.is_cancelled t.answer j)
  run_task v queries t decode_task j = run_caught (decode_step v t.is_cancelled j)
  run_task v queries t (stage_task i) j = elim t.rejected [
    | some e ↦ reject_scheduled_task j e
    | none ↦ run_caught (stage_step v i t.is_cancelled t.looks t.answer j)
  ]

  -- The turns of one job, each with the task that the one before handed over.
  unfoldable pub run_job :
      FrozenStackVersion P C → List P.Query → List Turn → Job P.Resolution → Job P.Resolution
  unfolding run_task
  run_job v queries [] j = j
  run_job v queries (t ∷ ts) j = elim j.next [
    | none ↦ j
    | some task ↦ run_job v queries ts (run_task v queries t task (record j { next = none }))
  ]

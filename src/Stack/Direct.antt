-- ===== src/Stack/Direct.antt =====
-- src/stack.rs: the tasks of a job, one after another, do what one direct run over its packet does.
use braids_rs.Base.{
  Bool, List, Outcome, [], ap, arith, done, false, length, map, none, panic, refl, some, suc, true,
  zero, ℕ, ◌<◌, ◌∙◌, ◌∷◌, ◌≡◌, ◌==◌,
}
use braids_rs.Error.{BraidResult, ok, err}
use braids_rs.Call.{Call, and_call}
use braids_rs.Packet.{JobPacket, new_packet}
use braids_rs.Planner.{PlannerBackend, ComputeBackend}
use braids_rs.Stack.{FrozenStackVersion}
use braids_rs.Stack.Packets.{Pools, encode_packet}
use braids_rs.Stack.Jobs.{
  Job, decode_task, stage_task, cleanup_packet, in_pools, stage_count, run_task, run_job,
  run_caught, settle, schedule_plain, schedule_stage, store_encoded, encode_step, store_packet,
  new_job,
}
use braids_rs.Stack.Results.{
  holding, status_after, decoded, stages_run, state_of, decode_after, stages_directly, calm_turn,
}

module _ (P : PlannerBackend) (C : ComputeBackend P.PlannerMeta) (debug : Bool)
    (v : FrozenStackVersion P C) (queries : List P.Query) where
  -- The answer of a direct run: the packet is encoded, the stages run on it in order, and it is decoded.
  abbrev pub stages_after :
      Call JobPacket Pools → List (ℕ → Bool) → Outcome (BraidResult (List P.Resolution))
  stages_after (done (ok p), s) ls =
      decode_after P C debug v queries
        (stages_directly P C debug v queries (stage_count P C debug v) 0 p ls) s
  stages_after (done (err e), s) ls = done (err e)
  stages_after (panic, s) ls = panic

  abbrev pub direct_run : Pools → List (ℕ → Bool) → Outcome (BraidResult (List P.Resolution))
  direct_run pools ls = stages_after (encode_packet P C debug v queries pools) ls

  abbrev encoding : Pools → Job P.Resolution
  encoding s = record (holding P C debug v queries new_packet s none) { slot = none }

  first_is_decode :
      (p : JobPacket) (s : Pools)
      → (stage_count P C debug v == 0) ≡ true
      → run_caught (store_encoded P C debug v (ok tt) p (encoding s))
        ≡ holding P C debug v queries p s (some decode_task)
  unfolding run_caught store_encoded store_packet schedule_plain
  first_is_decode p s q = rw q refl

  first_is_stage :
      (p : JobPacket) (s : Pools)
      → (stage_count P C debug v == 0) ≡ false
      → run_caught (store_encoded P C debug v (ok tt) p (encoding s))
        ≡ holding P C debug v queries p s (some (stage_task 0))
  unfolding run_caught store_encoded store_packet schedule_stage
  first_is_stage p s q = rw q refl

  packet_run :
      (m : ℕ) (ls : List (ℕ → Bool)) (p : JobPacket) (s : Pools)
      → stage_count P C debug v ≡ m
      → m < length ls
      → status_after P C debug v queries ls
          (run_caught (store_encoded P C debug v (ok tt) p (encoding s)))
        ≡ state_of P C debug v queries
            (decode_after P C debug v queries (stages_directly P C debug v queries m 0 p ls) s)
  packet_run m [] p s e enough = absurd (omega arith)
  packet_run zero (l ∷ ls) p s e enough =
      ap (status_after P C debug v queries (l ∷ ls)) (first_is_decode p s (ground arith))
      ∙ decoded P C debug v queries l ls p s
  packet_run (suc k) (l ∷ ls) p s e enough =
      ap (status_after P C debug v queries (l ∷ ls)) (first_is_stage p s (ground arith))
      ∙ stages_run P C debug v queries k 0 (l ∷ ls) p s (omega arith) enough

  encoded_run :
      (ls : List (ℕ → Bool)) (c : Call JobPacket Pools) (pools : Pools)
      → stage_count P C debug v < length ls
      → status_after P C debug v queries ls
          (run_caught (and_call (in_pools c (encoding pools)) (store_encoded P C debug v (ok tt))))
        ≡ state_of P C debug v queries (stages_after c ls)
  unfolding run_job run_caught settle cleanup_packet
  encoded_run ls (done (ok p), s) pools enough =
      packet_run (stage_count P C debug v) ls p s refl enough
  encoded_run [] (done (err e), s) pools enough = refl
  encoded_run (l ∷ ls) (done (err e), s) pools enough = refl
  encoded_run [] (panic, s) pools enough = refl
  encoded_run (l ∷ ls) (panic, s) pools enough = refl

  -- A job that nothing cancels and whose tasks are all accepted ends, within `n + 2` turns for a plan of
  -- `n` stages, with the status of a direct run: completed with the values that are decoded when the
  -- packet is encoded, every stage runs on it once and in order, and it is decoded; otherwise failed or
  -- cancelled with the first error, or failed after a panic.
  pub run_job_direct :
      (l : ℕ → Bool) (ls : List (ℕ → Bool)) (pools : Pools)
      → stage_count P C debug v < length ls
      → (run_job P C debug v queries
          (map (calm_turn P C debug v queries) (l ∷ ls))
          (new_job pools)).state
        ≡ state_of P C debug v queries (direct_run pools ls)
  unfolding run_job run_task encode_step new_job
  run_job_direct l ls pools enough =
      encoded_run ls (encode_packet P C debug v queries pools) pools enough

-- ===== src/Stack/InlineRuns.antt =====
-- src/stack.rs: a run on the caller's thread and a dispatched job agree.
use braids_rs.Base.{
  Bool, List, Outcome, [], ap, arith, done, false, fun_ext, length, length-append, map, panic, refl,
  suc, sym, zero, ℕ, ◌++◌, ◌∙◌, ◌∷◌, ◌≡◌,
}
use braids_rs.Error.{BraidResult, ok, err}
use braids_rs.Call.{Call, and_call, returning, computing}
use braids_rs.Pool.{checkout, give_back, pop_or}
use braids_rs.Packet.{JobPacket, new_packet, clear_for_reuse}
use braids_rs.Scratch.{BatchScratch, new_batch_scratch, reset_batch_scratch}
use braids_rs.Planner.{PlannerBackend, ComputeBackend}
use braids_rs.Stack.{FrozenStackVersion, Looks}
use braids_rs.Stack.Packets.{
  Pools, load_statics, encode_packet, checkout_packet, after_encode, recycle_packet, run_stage_once,
  run_stages_from, run_all_stages, decode_packet, after_decode, validate_runtime_packet,
  pool_scratch,
}
use braids_rs.Stack.Jobs.{stage_count, run_job, new_job}
use braids_rs.Stack.Results.{state_of, decode_after, stages_directly, calm_turn}
use braids_rs.Stack.Direct.{stages_after, direct_run, run_job_direct}
use braids_rs.Stack.Inline.{
  InlineContext, InlineLooks, in_packet, in_both, cleared_on_error, finish_inline, execute_with,
  execute_inline,
}

-- Pools that are not poisoned, and the context that a job takes from them.
abbrev pub open_pools : List JobPacket → List BatchScratch → Pools
open_pools ps bs = record {
  packets = record { items = ps; locked_up = false };
  scratches = record { items = bs; locked_up = false };
}

abbrev pub context_of : List JobPacket → List BatchScratch → InlineContext
context_of ps bs = record {
  packet = (pop_or new_packet ps).0;
  batch_scratch = (pop_or new_batch_scratch bs).0;
}

-- Nothing cancels the run.
pub record IsCalm (looks : InlineLooks) : Type 0 where
  pub start : looks.start ≡ false
  pub before : (i : ℕ) → looks.stages.before i ≡ false

-- What `n` stages from `i` on see of the flag.
abbrev pub seen : ℕ → ℕ → Looks → List (ℕ → Bool)
seen zero i looks = []
seen (suc n) i looks = looks.during i ∷ seen n (suc i) looks

length-seen : (n i : ℕ) (looks : Looks) → length (seen n i looks) ≡ n
length-seen zero i looks = refl
length-seen (suc n) i looks = ap suc (length-seen n (suc i) looks)

module _ (P : PlannerBackend) (C : ComputeBackend P.PlannerMeta) (debug : Bool)
    (v : FrozenStackVersion P C) (queries : List P.Query) where
  stages_seen :
      (n i : ℕ) (p : JobPacket) (looks : Looks) (l : ℕ → Bool)
      → ((i : ℕ) → looks.before i ≡ false)
      → run_stages_from P C debug v n i p looks
        ≡ stages_directly P C debug v queries n i p (seen n i looks ++ l ∷ [])
  unfolding run_stages_from
  stages_seen zero i p looks l calm = refl
  stages_seen (suc n) i p looks l calm =
      rw (run_stages_from, calm i)
        (ap (and_call (run_stage_once P C debug v i p (looks.during i)))
          (fun_ext λ _. fun_ext λ p'. stages_seen n (suc i) p' looks l calm))

  -- The check of the packet in the end, and its decoding.
  check_lem :
      (check : BraidResult (Unit {0})) (answer : Outcome (BraidResult (List P.Resolution)))
      (decode : JobPacket → Outcome (BraidResult (List P.Resolution))) (b : BatchScratch)
      (p : JobPacket) (ps : List JobPacket) (bs : List BatchScratch)
      → decode p ≡ answer
      → (in_packet b (and_call (returning check p) λ _ p'. (decode p', p'))).0
        ≡ (after_decode P C debug
            (elim check [ err e ↦ done (err e) | ok _ ↦ answer ])
            p
            (open_pools ps bs)).0
  unfolding recycle_packet give_back
  check_lem (err e) answer decode b p ps bs same = refl
  check_lem (ok t) panic decode b p ps bs same = same
  check_lem (ok t) (done (err e)) decode b p ps bs same = same
  check_lem (ok t) (done (ok values)) decode b p ps bs same = same

  -- From the stages on.
  ran_lem :
      (r : Call (Unit {0}) JobPacket) (b : BatchScratch) (ps : List JobPacket)
      (bs : List BatchScratch)
      → (in_packet b (
          and_call (cleared_on_error r) λ _ p'.
            and_call
              (returning (validate_runtime_packet debug v.compiled p') p')
              λ _ p''. (P.decode_batch v.compiled p'', p''))).0
        ≡ decode_after P C debug v queries r (open_pools ps bs)
  unfolding decode_packet
  ran_lem (panic, p) b ps bs = refl
  ran_lem (done (err e), p) b ps bs = refl
  ran_lem (done (ok t), p) b ps bs =
      check_lem (validate_runtime_packet debug v.compiled p) (P.decode_batch v.compiled p)
        (P.decode_batch v.compiled) b p ps bs refl

  module _ (looks : InlineLooks) (l : ℕ → Bool) (calm : IsCalm looks) where
    abbrev steps : List (ℕ → Bool)
    steps = seen (stage_count P C debug v) 0 looks.stages ++ l ∷ []

    abbrev finish : InlineContext → Call (List P.Resolution) InlineContext
    finish c =
        finish_inline P C debug v (λ p. run_all_stages P C debug v p looks.stages)
          (P.decode_batch v.compiled) c

    checked_lem :
        (check : BraidResult (Unit {0})) (b : BatchScratch) (p : JobPacket) (ps : List JobPacket)
        (bs : List BatchScratch)
        → (in_packet b (
            and_call (returning check p) λ _ p.
              and_call (cleared_on_error (run_all_stages P C debug v p looks.stages)) λ _ p'.
                and_call
                  (returning (validate_runtime_packet debug v.compiled p') p')
                  λ _ p''. (P.decode_batch v.compiled p'', p''))).0
          ≡ stages_after P C debug v queries
              (elim check [
                | err e ↦ (done (err e), (recycle_packet p (open_pools ps bs)).1)
                | ok _ ↦ (done (ok p), open_pools ps bs)
              ])
              steps
    unfolding run_all_stages
    checked_lem (err e) b p ps bs = refl
    checked_lem (ok t) b p ps bs =
        ran_lem (run_all_stages P C debug v p looks.stages) b ps bs
        ∙ ap (λ r. decode_after P C debug v queries r (open_pools ps bs))
            (stages_seen (stage_count P C debug v) 0 p looks.stages l calm.before)

    encoded_lem :
        (r : Call (Unit {0}) (JobPacket × BatchScratch)) (ps : List JobPacket)
        (bs : List BatchScratch)
        → (and_call (in_both r) λ _ c. finish c).0
          ≡ stages_after P C debug v queries
              (after_encode P C debug v.compiled r.0 r.1.0 r.1.1 (open_pools ps bs))
              steps
    unfolding give_back
    encoded_lem (panic, (p, b)) ps bs = refl
    encoded_lem (done (err e), (p, b)) ps bs = refl
    encoded_lem (done (ok t), (p, b)) ps bs =
        checked_lem (validate_runtime_packet debug v.compiled p) (reset_batch_scratch b) p ps
          (reset_batch_scratch b ∷ bs)

    loaded_lem :
        (loaded : Outcome JobPacket) (p : JobPacket) (ps : List JobPacket) (bs : List BatchScratch)
        → (and_call (in_packet (pop_or new_batch_scratch bs).0 (computing loaded p)) λ p' c'.
            and_call
              (in_both (
                P.encode_batch v.compiled queries
                  (p', reset_batch_scratch (pop_or new_batch_scratch bs).0)))
              λ _ c. finish c).0
          ≡ stages_after P C debug v queries
              (and_call (computing loaded (open_pools ps bs)) λ p s'.
                and_call (pool_scratch s') λ b s''.
                  let (answer, (p', b')) =
                    P.encode_batch v.compiled queries (p, reset_batch_scratch b) in
                  after_encode P C debug v.compiled answer p' b' s'')
              steps
    unfolding checkout
    loaded_lem panic p ps bs = refl
    loaded_lem (done q) p ps bs =
        encoded_lem
          (P.encode_batch v.compiled queries
            (q, reset_batch_scratch (pop_or new_batch_scratch bs).0))
          ps (pop_or new_batch_scratch bs).1

    inline_lem :
        (ps : List JobPacket) (bs : List BatchScratch)
        → (execute_inline P C debug v queries looks (context_of ps bs)).0
          ≡ direct_run P C debug v queries (open_pools ps bs) steps
    unfolding execute_inline execute_with encode_packet checkout_packet checkout
    inline_lem ps bs =
        rw (execute_inline, execute_with, calm.start)
          (loaded_lem
            (load_statics v.compiled.static_buffers (clear_for_reuse (pop_or new_packet ps).0))
            (clear_for_reuse (pop_or new_packet ps).0) (pop_or new_packet ps).1 bs)

    -- On the same version and queries, a run on the caller's thread that nothing cancels and that uses
    -- the packet and the scratch on top of the pools, and a dispatched job that takes them from the
    -- pools, that nothing cancels and whose tasks are all accepted, agree: the job ends with the status
    -- of the answer of the run, values, error or panic.
    pub run_job-execute_inline :
        (ps : List JobPacket) (bs : List BatchScratch)
        → (run_job P C debug v queries
            (map (calm_turn P C debug v queries) (l ∷ steps))
            (new_job (open_pools ps bs))).state
          ≡ state_of P C debug v queries
              (execute_inline P C debug v queries looks (context_of ps bs)).0
    run_job-execute_inline ps bs =
        run_job_direct P C debug v queries l steps (open_pools ps bs) (
          omega (
            arith,
            length-append (seen (stage_count P C debug v) 0 looks.stages) (l ∷ []),
            length-seen (stage_count P C debug v) 0 looks.stages,
          ))
        ∙ ap (state_of P C debug v queries) (sym (inline_lem ps bs))

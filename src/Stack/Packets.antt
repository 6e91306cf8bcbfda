-- ===== src/Stack/Packets.antt =====
-- src/stack.rs: the packets of a job, from the pool through encode, the stages and decode.
use braids_rs.Base.{
  Bool, List, Outcome, [], and_then, done, false, get_elem?, if◌then◌else◌, length, panic, suc,
  true, zero, ℕ, ◌∷◌,
}
use braids_rs.Error.{BraidResult, ok, err, ok_or, from_text, cancelled}
use braids_rs.Call.{Call, and_call, returning, computing}
use braids_rs.Pool.{ReusablePool, checkout, give_back}
use braids_rs.Pipeline.{CompiledPlan, StaticBuffer}
use braids_rs.Packet.{JobPacket, new_packet, clear_for_reuse, load_static_buffer, validate_packet}
use braids_rs.Scratch.{BatchScratch, new_batch_scratch, reset_batch_scratch}
use braids_rs.Planner.{PlannerBackend, ComputeBackend}
use braids_rs.Stack.{FrozenStackVersion, Looks}

pub record Pools : Type 0 where
  pub packets : ReusablePool JobPacket
  pub scratches : ReusablePool BatchScratch

-- `validate_runtime_packet`: the check is made in a debug build.
unfoldable pub validate_runtime_packet :
    {M : Type 0} → Bool → CompiledPlan M → JobPacket → BraidResult (Unit {0})
validate_runtime_packet debug compiled p = if debug then validate_packet compiled p else ok tt

-- The loop over the static buffers.
unfoldable pub load_statics : List StaticBuffer → JobPacket → Outcome JobPacket
load_statics [] p = done p
load_statics (b ∷ bs) p = and_then (load_static_buffer p b.slot b.contents) (load_statics bs)

abbrev pub pool_packet : Pools → Call JobPacket Pools
pool_packet s =
    and_call (returning (checkout new_packet s.packets "stack.packet_pool") s)
      λ r s'. (done (ok r.0), record s' { packets = r.1 })

abbrev pub pool_scratch : Pools → Call BatchScratch Pools
pool_scratch s =
    and_call (returning (checkout new_batch_scratch s.scratches "stack.batch_scratch") s)
      λ r s'. (done (ok r.0), record s' { scratches = r.1 })

abbrev pub return_packet : JobPacket → Pools → Call (Unit {0}) Pools
return_packet p s =
    and_call (returning (give_back s.packets "stack.packet_pool" p) s)
      λ r s'. (done (ok tt), record s' { packets = r })

abbrev pub return_scratch : BatchScratch → Pools → Call (Unit {0}) Pools
return_scratch b s =
    and_call (returning (give_back s.scratches "stack.batch_scratch" b) s)
      λ r s'. (done (ok tt), record s' { scratches = r })

unfoldable pub recycle_packet : JobPacket → Pools → Call (Unit {0}) Pools
recycle_packet p s = return_packet (clear_for_reuse p) s

module _ (P : PlannerBackend) (C : ComputeBackend P.PlannerMeta) (debug : Bool) where
  unfoldable pub checkout_packet : FrozenStackVersion P C → Pools → Call JobPacket Pools
  unfolding load_statics
  checkout_packet v s =
      and_call (pool_packet s)
        λ p s'. computing (load_statics v.compiled.static_buffers (clear_for_reuse p)) s'

  -- `encode_packet`, from the answer of the planner on: a packet that is refused goes back to the pool,
  -- one whose encoder panicked is gone.
  abbrev pub after_encode :
      CompiledPlan P.PlannerMeta
      → Outcome (BraidResult (Unit {0}))
      → JobPacket
      → BatchScratch
      → Pools
      → Call JobPacket Pools
  after_encode plan panic p b s = (panic, s)
  after_encode plan (done (err e)) p b s =
      and_call (return_scratch (reset_batch_scratch b) s)
        λ _ s'. (done (err e), (recycle_packet p s').1)
  after_encode plan (done (ok _)) p b s =
      and_call (return_scratch (reset_batch_scratch b) s) λ _ s'.
        elim (validate_runtime_packet debug plan p) [
          | err e ↦ (done (err e), (recycle_packet p s').1)
          | ok _ ↦ (done (ok p), s')
        ]

  unfoldable pub encode_packet :
      FrozenStackVersion P C → List P.Query → Pools → Call JobPacket Pools
  unfolding checkout_packet recycle_packet validate_runtime_packet
  encode_packet v queries s = and_call (checkout_packet v s) λ p s'.
      and_call (pool_scratch s') λ b s''.
        let (answer, (p', b')) = P.encode_batch v.compiled queries (p, reset_batch_scratch b) in
        after_encode v.compiled answer p' b' s''

  unfoldable pub run_stage_once :
      FrozenStackVersion P C → ℕ → JobPacket → (ℕ → Bool) → Call (Unit {0}) JobPacket
  unfolding validate_runtime_packet
  run_stage_once v i p cancel =
      and_call (returning (ok_or v.prepared (from_text "missing prepared state")) p) λ prepared p'.
        and_call
          (returning (ok_or (get_elem? v.compiled.pipeline.stages i) (from_text "missing stage"))
            p')
          λ stage p''.
            and_call (C.run_stage prepared i stage p'' cancel)
              λ _ q. (done (validate_runtime_packet debug v.compiled q), q)

  -- The loop of `run_all_stages`, with the number of stages left.
  unfoldable pub run_stages_from :
      FrozenStackVersion P C → ℕ → ℕ → JobPacket → Looks → Call (Unit {0}) JobPacket
  unfolding run_stage_once
  run_stages_from v zero i p looks = (done (ok tt), p)
  run_stages_from v (suc n) i p looks = elim (looks.before i) [
    | true ↦ (done (err cancelled), p)
    | false ↦
        and_call (run_stage_once v i p (looks.during i))
          λ _ p'. run_stages_from v n (suc i) p' looks
  ]

  unfoldable pub run_all_stages :
      FrozenStackVersion P C → JobPacket → Looks → Call (Unit {0}) JobPacket
  unfolding run_stages_from
  run_all_stages v p looks = run_stages_from v (length v.compiled.pipeline.stages) 0 p looks

  abbrev pub after_decode :
      Outcome (BraidResult (List P.Resolution)) → JobPacket → Pools → Call (List P.Resolution) Pools
  after_decode panic p s = (panic, s)
  after_decode (done (err e)) p s = (done (err e), (recycle_packet p s).1)
  after_decode (done (ok values)) p s = and_call (recycle_packet p s) λ _ s'. (done (ok values), s')

  unfoldable pub decode_packet :
      FrozenStackVersion P C → JobPacket → Pools → Call (List P.Resolution) Pools
  unfolding recycle_packet validate_runtime_packet
  decode_packet v p s =
      after_decode
        (elim (validate_runtime_packet debug v.compiled p) [
          | err e ↦ done (err e)
          | ok _ ↦ P.decode_batch v.compiled p
        ])
        p s

-- ===== src/Stack/Inline.antt =====
-- src/stack.rs: runs on the caller's thread (`resolve_inline` and its kin, `dispatch_collect`).
-- The cancel flag of a context is what its readers see; `reset` of the flag is the caller's own matter.
use braids_rs.Base.{
  Bool, List, Option, Outcome, [], done, false, if◌then◌else◌, none, panic, some, suc, true, ℕ, ◌∷◌,
}
use braids_rs.Error.{BraidResult, ok, err, ok_or, from_text, cancelled}
use braids_rs.Call.{Call, and_call, returning, computing}
use braids_rs.Packet.{JobPacket, new_packet, clear_for_reuse}
use braids_rs.Pipeline.{StageSpec}
use braids_rs.Scratch.{BatchScratch, new_batch_scratch, reset_batch_scratch}
use braids_rs.Planner.{PlannerBackend, ComputeBackend}
use braids_rs.Stack.{FrozenStackVersion, Looks}
use braids_rs.Stack.Packets.{load_statics, validate_runtime_packet, run_all_stages}

pub record InlineContext : Type 0 where
  pub packet : JobPacket
  pub batch_scratch : BatchScratch

abbrev pub new_context : InlineContext
new_context = record { packet = new_packet; batch_scratch = new_batch_scratch }

unfoldable pub reset_context : InlineContext → InlineContext
unfolding clear_for_reuse reset_batch_scratch
reset_context c = record {
  packet = clear_for_reuse c.packet;
  batch_scratch = reset_batch_scratch c.batch_scratch;
}

-- What the look at the flag before a run sees, and the looks of its stages.
pub record InlineLooks : Type 0 where
  pub start : Bool
  pub stages : Looks

-- `catch_unwind` in a debug build; a release build has none.
abbrev pub caught : {A S : Type 0} → Bool → Call A S → Call A S
caught true (panic, s) = (done (err (from_text "inline execution panicked")), s)
caught debug r = r

abbrev pub map_call : {A B S : Type 0} → (A → B) → Call A S → Call B S
map_call f (done (ok a), s) = (done (ok (f a)), s)
map_call f (done (err e), s) = (done (err e), s)
map_call f (panic, s) = (panic, s)

-- The packet of a context is lent.
abbrev pub in_packet : {A : Type 0} → BatchScratch → Call A JobPacket → Call A InlineContext
in_packet b (r, p) = (r, record { packet = p; batch_scratch = b })

abbrev pub in_both : {A : Type 0} → Call A (JobPacket × BatchScratch) → Call A InlineContext
in_both (r, (p, b)) = (r, record { packet = p; batch_scratch = b })

-- An error of the stages clears the packet.
abbrev pub cleared_on_error : {A : Type 0} → Call A JobPacket → Call A JobPacket
cleared_on_error (done (err e), p) = (done (err e), clear_for_reuse p)
cleared_on_error r = r

module _ (P : PlannerBackend) (C : ComputeBackend P.PlannerMeta) (debug : Bool) where
  unfoldable pub run_one_stages_from :
      FrozenStackVersion P C
      → C.Prepared
      → ℕ
      → List StageSpec
      → JobPacket
      → Looks
      → Call (Unit {0}) JobPacket
  unfolding validate_runtime_packet
  run_one_stages_from v prepared i [] p looks = (done (ok tt), p)
  run_one_stages_from v prepared i (stage ∷ rest) p looks = elim (looks.before i) [
    | true ↦ (done (err cancelled), p)
    | false ↦ and_call (C.run_one_stage prepared i stage p (looks.during i)) λ _ p'.
        and_call (returning (validate_runtime_packet debug v.compiled p') p')
          λ _ p''. run_one_stages_from v prepared (suc i) rest p'' looks
  ]

  unfoldable pub run_one_all_stages :
      FrozenStackVersion P C → JobPacket → Looks → Call (Unit {0}) JobPacket
  unfolding run_one_stages_from
  run_one_all_stages v p looks =
      and_call (returning (ok_or v.prepared (from_text "missing prepared state")) p)
        λ prepared p'. run_one_stages_from v prepared 0 v.compiled.pipeline.stages p' looks

  -- `execute_inline` and `execute_one_inline`, from the stages on.
  abbrev pub finish_inline :
      {A : Type 0}
      → FrozenStackVersion P C
      → (JobPacket → Call (Unit {0}) JobPacket)
      → (JobPacket → Outcome (BraidResult A))
      → InlineContext
      → Call A InlineContext
  finish_inline v run decode c =
      let b = reset_batch_scratch c.batch_scratch in
      in_packet b (
        and_call (returning (validate_runtime_packet debug v.compiled c.packet) c.packet) λ _ p.
          and_call (cleared_on_error (run p)) λ _ p'.
            and_call (returning (validate_runtime_packet debug v.compiled p') p')
              λ _ p''. (decode p'', p''))

  -- What the two share: they differ in how they encode, run the stages and decode.
  unfoldable pub execute_with :
      {A : Type 0}
      → FrozenStackVersion P C
      → (JobPacket × BatchScratch → Call (Unit {0}) (JobPacket × BatchScratch))
      → (JobPacket → Call (Unit {0}) JobPacket)
      → (JobPacket → Outcome (BraidResult A))
      → Bool
      → InlineContext
      → Call A InlineContext
  unfolding clear_for_reuse load_statics reset_batch_scratch validate_runtime_packet
  execute_with v encode run decode is_cancelled c = elim is_cancelled [
    | true ↦ (done (err cancelled), c)
    | false ↦
        let p = clear_for_reuse c.packet in
        and_call
          (in_packet c.batch_scratch (computing (load_statics v.compiled.static_buffers p) p))
          λ p' c'.
            and_call (in_both (encode (p', reset_batch_scratch c.batch_scratch)))
              λ _ c''. finish_inline v run decode c''
  ]

  unfoldable pub execute_inline :
      FrozenStackVersion P C
      → List P.Query
      → InlineLooks
      → InlineContext
      → Call (List P.Resolution) InlineContext
  unfolding execute_with run_all_stages
  execute_inline v queries looks c =
      execute_with v (P.encode_batch v.compiled queries)
        (λ p. run_all_stages P C debug v p looks.stages) (P.decode_batch v.compiled) looks.start c

  unfoldable pub execute_one_inline :
      FrozenStackVersion P C
      → P.Query
      → InlineLooks
      → InlineContext
      → Call P.Resolution InlineContext
  unfolding execute_with run_one_all_stages
  execute_one_inline v query looks c =
      execute_with v (P.encode_one v.compiled query) (λ p. run_one_all_stages v p looks.stages)
        (P.decode_one v.compiled) looks.start c

  -- `.ok_or_else(..)?` on the planner's answer
  abbrev pub direct_answer :
      Outcome (Option (BraidResult P.Resolution)) → Outcome (BraidResult P.Resolution)
  direct_answer panic = panic
  direct_answer (done none) = done (err (from_text "missing direct one-query planner path"))
  direct_answer (done (some r)) = done r

  unfoldable pub execute_one_direct_inline :
      FrozenStackVersion P C
      → P.Query
      → InlineLooks
      → InlineContext
      → Call P.Resolution InlineContext
  execute_one_direct_inline v query looks c = elim looks.start [
    | true ↦ (done (err cancelled), c)
    | false ↦ (direct_answer (P.resolve_one_direct v.compiled query), c)
  ]

  -- The path of a single query, where the planner prefers one.
  unfoldable pub prefers_one : List P.Query → Option (P.Query × Bool)
  prefers_one (query ∷ []) =
      if P.prefer_direct_one_query_inline
      then some (query, true)
      else if P.prefer_one_query_inline
      then some (query, false)
      else none
  prefers_one queries = none

  unfoldable pub execute_path :
      FrozenStackVersion P C
      → P.Query × Bool
      → InlineLooks
      → InlineContext
      → Call (List P.Resolution) InlineContext
  unfolding execute_one_direct_inline execute_one_inline
  execute_path v (query, true) looks c =
      map_call (λ r. r ∷ []) (caught debug (execute_one_direct_inline v query looks c))
  execute_path v (query, false) looks c =
      map_call (λ r. r ∷ []) (caught debug (execute_one_inline v query looks c))

  -- `version` is what the read of the current version gives.
  unfoldable pub resolve_inline_with :
      BraidResult (FrozenStackVersion P C)
      → List P.Query
      → InlineLooks
      → InlineContext
      → Call (List P.Resolution) InlineContext
  unfolding prefers_one execute_path execute_inline
  resolve_inline_with version queries looks c = and_call (returning version c) λ v c'.
      elim (prefers_one queries) [
        | some path ↦ execute_path v path looks c'
        | none ↦ caught debug (execute_inline v queries looks c')
      ]

  unfoldable pub resolve_one_inline_ref_with :
      BraidResult (FrozenStackVersion P C)
      → P.Query
      → InlineLooks
      → InlineContext
      → Call P.Resolution InlineContext
  unfolding execute_one_direct_inline execute_one_inline
  resolve_one_inline_ref_with version query looks c = and_call (returning version c) λ v c'.
      if P.prefer_direct_one_query_inline
      then caught debug (execute_one_direct_inline v query looks c')
      else caught debug (execute_one_inline v query looks c')

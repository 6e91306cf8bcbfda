-- ===== src/Stack/Contexts.antt =====
-- src/stack.rs: runs on the caller's thread with a context of the stack's pool. A context whose run
-- unwinds is gone.
use braids_rs.Base.{Bool, List, done, none, panic, some}
use braids_rs.Error.{BraidResult, ok, err}
use braids_rs.Call.{Call, and_call, returning}
use braids_rs.Pool.{ReusablePool, checkout, give_back}
use braids_rs.Planner.{PlannerBackend, ComputeBackend}
use braids_rs.Stack.{FrozenStackVersion}
use braids_rs.Stack.Inline.{
  InlineContext, new_context, reset_context, InlineLooks, prefers_one, execute_path, execute_inline,
  resolve_inline_with, resolve_one_inline_ref_with,
}

abbrev pub Contexts : Type 0
Contexts = ReusablePool InlineContext

-- `reset` and `give_back`; a pool that refuses the context hides the result.
unfoldable pub return_context :
    {A : Type 0} → BraidResult A → InlineContext → Contexts → Call A Contexts
unfolding reset_context give_back
return_context r c pool = elim (give_back pool "stack.inline_context" (reset_context c)) [
  | err e ↦ (done (err e), pool)
  | ok pool' ↦ (done r, pool')
]

abbrev pub settle_context : {A : Type 0} → Contexts → Call A InlineContext → Call A Contexts
settle_context pool (panic, c) = (panic, pool)
settle_context pool (done r, c) = return_context r c pool

unfoldable pub with_context :
    {A : Type 0} → (InlineContext → Call A InlineContext) → Contexts → Call A Contexts
unfolding checkout return_context
with_context run pool = elim (checkout new_context pool "stack.inline_context") [
  | err e ↦ (done (err e), pool)
  | ok (c, pool') ↦ settle_context pool' (run c)
]

module _ (P : PlannerBackend) (C : ComputeBackend P.PlannerMeta) (debug : Bool) where
  unfoldable pub resolve_inline :
      BraidResult (FrozenStackVersion P C)
      → List P.Query
      → InlineLooks
      → Contexts
      → Call (List P.Resolution) Contexts
  unfolding with_context resolve_inline_with
  resolve_inline version queries looks pool =
      with_context (resolve_inline_with P C debug version queries looks) pool

  -- `resolve_one_inline` and `resolve_one_inline_ref`
  unfoldable pub resolve_one_inline :
      BraidResult (FrozenStackVersion P C)
      → P.Query
      → InlineLooks
      → Contexts
      → Call P.Resolution Contexts
  unfolding with_context resolve_one_inline_ref_with
  resolve_one_inline version query looks pool =
      with_context (resolve_one_inline_ref_with P C debug version query looks) pool

  -- The run of `dispatch_collect`: a batch is not under `catch_unwind`.
  unfoldable pub collect_with :
      FrozenStackVersion P C
      → List P.Query
      → InlineLooks
      → InlineContext
      → Call (List P.Resolution) InlineContext
  unfolding prefers_one execute_path execute_inline
  collect_with v queries looks c = elim (prefers_one P C debug queries) [
    | some path ↦ execute_path P C debug v path looks c
    | none ↦ execute_inline P C debug v queries looks c
  ]

  unfoldable pub dispatch_collect :
      BraidResult (FrozenStackVersion P C)
      → List P.Query
      → InlineLooks
      → Contexts
      → Call (List P.Resolution) Contexts
  unfolding with_context collect_with
  dispatch_collect version queries looks pool =
      and_call (returning version pool) λ v pool'. with_context (collect_with v queries looks) pool'

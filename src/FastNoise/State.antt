-- ===== src/FastNoise/State.antt =====
-- fastnoise/src/runtime.rs: the live graph of a planner, a table of nodes and the keys of their ids.
-- The table panics only where it is not valid; a panic leaves the state as it was before the call.
pub mod Matching
pub mod Steps
pub mod Changes
pub mod Specs
mod Examples
use braids_rs.Base.{List, Outcome, String, [], done, none, panic, some, ◌∷◌}
use braids_rs.Call.{Call, and_call}
use braids_rs.Error.{BraidResult, ok, err}
use braids_rs.SlotTable.{SlotTable, SlotKey, insert, remove, get, get_mut, clear_reuse, empty}
use braids_rs.FastNoise.Names.{NameMap, lookup, without, bind}
use braids_rs.FastNoise.Model.{
  NodeSpec, node_id, FastNoiseGraphSpec, FastNoiseChange, upsert_node, remove_node, set_final_field,
  FastNoiseState,
}

-- A value that a function makes and changes, and returns if nothing fails.
abbrev pub finished : {A S : Type 0} → Call A S → Outcome (BraidResult S)
finished (panic, s) = panic
finished (done (err e), s) = done (err e)
finished (done (ok a), s) = done (ok s)

module _ {N : Type 0} where
  -- The end of `upsert_node`: a node of a new id.
  unfoldable pub insert_node : NodeSpec N → FastNoiseState N → Call (Unit {0}) (FastNoiseState N)
  unfolding insert bind node_id
  insert_node node s = elim (insert s.nodes node) [
    | panic ↦ (panic, s)
    | done (nodes, key) ↦
        (done (ok tt), record s { nodes = nodes; node_keys = bind (node_id node) key s.node_keys })
  ]

  -- The branch of `upsert_node` where the id has a key.
  unfoldable pub write_node :
      SlotKey → NodeSpec N → FastNoiseState N → Call (Unit {0}) (FastNoiseState N)
  unfolding get get_mut insert_node
  write_node key node s = elim (get s.nodes key) [
    | none ↦ insert_node node s
    | some _ ↦ (done (ok tt), record s { nodes = get_mut s.nodes key (λ _. node) })
  ]

  unfoldable pub upsert : NodeSpec N → FastNoiseState N → Call (Unit {0}) (FastNoiseState N)
  unfolding lookup node_id write_node insert_node
  upsert node s = elim (lookup (node_id node) s.node_keys) [
    | none ↦ insert_node node s
    | some key ↦ write_node key node s
  ]

  unfoldable pub remove_id : String → FastNoiseState N → Call (Unit {0}) (FastNoiseState N)
  unfolding lookup without remove
  remove_id id s = elim (lookup id s.node_keys) [
    | none ↦ (done (ok tt), s)
    | some key ↦ elim (remove s.nodes key) [
      | panic ↦ (panic, s)
      | done (nodes, old) ↦
          (done (ok tt), record s { nodes = nodes; node_keys = without id s.node_keys })
    ]
  ]

  unfoldable pub apply_change :
      FastNoiseChange N → FastNoiseState N → Call (Unit {0}) (FastNoiseState N)
  unfolding upsert remove_id
  apply_change (upsert_node node) s = upsert node s
  apply_change (remove_node id) s = remove_id id s
  apply_change (set_final_field id) s = (done (ok tt), record s { final_field = id })

  unfoldable pub apply_changes :
      List (FastNoiseChange N) → FastNoiseState N → Call (Unit {0}) (FastNoiseState N)
  unfolding apply_change
  apply_changes [] s = (done (ok tt), s)
  apply_changes (c ∷ cs) s = and_call (apply_change c s) λ _ s'. apply_changes cs s'

  -- `updated_state`: the changes to a clone.
  unfoldable pub updated_state :
      FastNoiseState N → List (FastNoiseChange N) → Outcome (BraidResult (FastNoiseState N))
  unfolding apply_changes
  updated_state s changes = finished (apply_changes changes s)

  unfoldable pub upsert_all :
      List (NodeSpec N) → FastNoiseState N → Call (Unit {0}) (FastNoiseState N)
  unfolding upsert
  upsert_all [] s = (done (ok tt), s)
  upsert_all (node ∷ nodes) s = and_call (upsert node s) λ _ s'. upsert_all nodes s'

  unfoldable pub reset_from_spec :
      FastNoiseGraphSpec N → FastNoiseState N → Call (Unit {0}) (FastNoiseState N)
  unfolding clear_reuse upsert_all
  reset_from_spec spec s = upsert_all spec.nodes (record {
    dimension = spec.dimension;
    final_field = spec.final_field;
    nodes = clear_reuse s.nodes;
    node_keys = [];
  })

  unfoldable pub from_spec : FastNoiseGraphSpec N → Outcome (BraidResult (FastNoiseState N))
  unfolding reset_from_spec empty
  from_spec spec = finished (
      reset_from_spec spec (record {
        dimension = spec.dimension;
        final_field = spec.final_field;
        nodes = empty;
        node_keys = [];
      }))

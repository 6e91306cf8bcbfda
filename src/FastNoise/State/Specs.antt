-- ===== src/FastNoise/State/Specs.antt =====
-- fastnoise/src/runtime.rs: a state that is made or reset from a spec.
use braids_rs.Base.{
  List, Option, String, [], ap, arith, done, fun_ext, length, map, none, refl, suc, ◌+◌, ◌∙◌, ◌∷◌,
  ◌≡◌, ◌≤◌,
}
use braids_rs.Call.{and_call}
use braids_rs.Error.{ok}
use braids_rs.SlotTable.{clear_reuse, empty, capacity, u32_mod}
use braids_rs.SlotTable.Clear.{get-clear_reuse}
use braids_rs.FastNoise.Names.{lookup}
use braids_rs.FastNoise.Model.{
  NodeSpec, upsert_node, FastNoiseState, FastNoiseGraphSpec, FastNoiseChange,
}
use braids_rs.FastNoise.State.{
  upsert, upsert_all, apply_change, apply_changes, reset_from_spec, from_spec, finished,
}
use braids_rs.FastNoise.State.Steps.{find, IsSound}
use braids_rs.FastNoise.State.Changes.{after, field_after, apply_changes_lem}

module _ {N : Type 0} where
  abbrev pub upserts : List (NodeSpec N) → List (FastNoiseChange N)
  upserts nodes = map upsert_node nodes

  upsert_all-apply_changes :
      (nodes : List (NodeSpec N)) (s : FastNoiseState N)
      → upsert_all nodes s ≡ apply_changes (upserts nodes) s
  unfolding upsert_all apply_changes apply_change
  upsert_all-apply_changes [] s = refl
  upsert_all-apply_changes (node ∷ nodes) s =
      ap (and_call (upsert node s)) (fun_ext λ u. fun_ext λ s'. upsert_all-apply_changes nodes s')

  field_after-map :
      (nodes : List (NodeSpec N)) (field : String) → field_after (upserts nodes) field ≡ field
  unfolding field_after
  field_after-map [] field = refl
  field_after-map (node ∷ nodes) field = field_after-map nodes field

  length-map : (nodes : List (NodeSpec N)) → length (upserts nodes) ≡ length nodes
  length-map [] = refl
  length-map (node ∷ nodes) = ap suc (length-map nodes)

  -- The nodes of a spec: an id has the last of the nodes that bear it.
  abbrev pub nodes_of : FastNoiseGraphSpec N → String → Option (NodeSpec N)
  nodes_of spec = after (upserts spec.nodes) (λ id. none)

  -- A sound state with the dimension, the final field and the nodes of a spec.
  pub record Holds (spec : FastNoiseGraphSpec N) (s : FastNoiseState N) : Type 0 where
    pub sound : IsSound s
    pub dimension : s.dimension ≡ spec.dimension
    pub final_field : s.final_field ≡ spec.final_field
    pub found : (id : String) → find s id ≡ nodes_of spec id

  -- A reset of any state to a spec, where there is room for the nodes of the spec, makes no error and
  -- no panic, and leaves a sound state with what the spec says and nothing else.
  pub reset_from_spec_lem :
      (spec : FastNoiseGraphSpec N) (s : FastNoiseState N)
      → length s.nodes.slots + length spec.nodes ≤ u32_mod
      → (s' : FastNoiseState N) × (reset_from_spec spec s ≡ (done (ok tt), s')) × Holds spec s'
  unfolding reset_from_spec capacity lookup
  reset_from_spec_lem spec s room =
      let (valid, size, is_gone, is_clear, free) = get-clear_reuse s.nodes in
      let cleared : FastNoiseState N = record {
        dimension = spec.dimension;
        final_field = spec.final_field;
        nodes = clear_reuse s.nodes;
        node_keys = [];
      } in
      let sound : IsSound cleared = record {
        table = valid;
        matching = record {
          bound = λ id k e. ground (arith, e);
          named = λ k node e. ground (arith, e, is_clear k);
        };
      } in
      let (s', r, leads) =
        apply_changes_lem (upserts spec.nodes) cleared sound
          (omega (arith, length-map spec.nodes, size)) in
      (
        s',
        upsert_all-apply_changes spec.nodes cleared ∙ r,
        record {
          sound = leads.sound;
          dimension = leads.dimension;
          final_field = leads.final_field ∙ field_after-map spec.nodes spec.final_field;
          found =
              λ id. leads.found id ∙ ap (λ f. after (upserts spec.nodes) f id) (fun_ext λ i. refl);
        },
      )

  -- A state that is made from a spec with at most 2 ^ 32 nodes holds what the spec says.
  pub from_spec_lem :
      (spec : FastNoiseGraphSpec N)
      → length spec.nodes ≤ u32_mod
      → (s : FastNoiseState N) × (from_spec spec ≡ done (ok s)) × Holds spec s
  unfolding from_spec empty
  from_spec_lem spec room =
      let blank : FastNoiseState N = record {
        dimension = spec.dimension;
        final_field = spec.final_field;
        nodes = empty;
        node_keys = [];
      } in
      let (s, r, holds) = reset_from_spec_lem spec blank (omega arith) in (s, ap finished r, holds)

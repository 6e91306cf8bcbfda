-- ===== src/FastNoise/State/Changes.antt =====
-- fastnoise/src/runtime.rs: what the changes do to a sound state.
use braids_rs.Base.{
  List, Option, String, [], ap, arith, done, fun_ext, length, refl, ℕ, ◌+◌, ◌∙◌, ◌∷◌, ◌≡◌, ◌≤◌,
}
use braids_rs.Call.{and_call}
use braids_rs.Error.{ok}
use braids_rs.SlotTable.{u32_mod}
use braids_rs.FastNoise.Model.{
  NodeSpec, FastNoiseChange, upsert_node, remove_node, set_final_field, FastNoiseState,
}
use braids_rs.FastNoise.State.{apply_change, apply_changes}
use braids_rs.FastNoise.State.Steps.{
  find, IsSound, Leads, with_node, without_id, upsert_lem, remove_id_lem,
}

module _ {N : Type 0} where
  -- The nodes and the final field after a list of changes.
  unfoldable pub after :
      List (FastNoiseChange N) → (String → Option (NodeSpec N)) → String → Option (NodeSpec N)
  after [] f = f
  after (upsert_node node ∷ cs) f = after cs (with_node node f)
  after (remove_node id ∷ cs) f = after cs (without_id id f)
  after (set_final_field id ∷ cs) f = after cs f

  unfoldable pub field_after : List (FastNoiseChange N) → String → String
  field_after [] field = field
  field_after (upsert_node node ∷ cs) field = field_after cs field
  field_after (remove_node id ∷ cs) field = field_after cs field
  field_after (set_final_field id ∷ cs) field = field_after cs id

  -- One change, then the rest.
  one_then_rest :
      (c : FastNoiseChange N) (cs : List (FastNoiseChange N)) (s : FastNoiseState N) (n : ℕ)
      (field : String) (f : String → Option (NodeSpec N)) (mid : FastNoiseState N)
      → apply_change c s ≡ (done (ok tt), mid)
      → n ≤ 1
      → Leads s n field f mid
      → length s.nodes.slots + length (c ∷ cs) ≤ u32_mod
      → ((length mid.nodes.slots + length cs ≤ u32_mod)
          → (s' : FastNoiseState N) × (apply_changes cs mid ≡ (done (ok tt), s'))
            × Leads mid (length cs) (field_after cs mid.final_field) (after cs (find mid)) s')
      → (s' : FastNoiseState N) × (apply_changes (c ∷ cs) s ≡ (done (ok tt), s'))
        × Leads s (length (c ∷ cs)) (field_after cs field) (after cs f) s'
  unfolding apply_changes
  one_then_rest c cs s n field f mid e small first room rest =
      let (s', r, last) = rest (omega (arith, first.room)) in
      (
        s',
        ap (λ x. and_call x λ _ u. apply_changes cs u) e ∙ r,
        record {
          sound = last.sound;
          dimension = last.dimension ∙ first.dimension;
          final_field = last.final_field ∙ ap (field_after cs) first.final_field;
          found = λ id. last.found id ∙ ap (λ g. after cs g id) (fun_ext first.found);
          room = omega (arith, first.room, last.room);
        },
      )

  -- On a sound state with room for as many nodes as there are changes, the changes are all made, in
  -- order, without an error or a panic. They leave a sound state of the same dimension, in which each
  -- id has the node, or none, that the changes in turn give it, and the final field that was set last.
  pub apply_changes_lem :
      (cs : List (FastNoiseChange N)) (s : FastNoiseState N)
      → IsSound s
      → length s.nodes.slots + length cs ≤ u32_mod
      → (s' : FastNoiseState N) × (apply_changes cs s ≡ (done (ok tt), s'))
        × Leads s (length cs) (field_after cs s.final_field) (after cs (find s)) s'
  unfolding apply_changes apply_change after field_after
  apply_changes_lem [] s h room = (
    s,
    refl,
    record {
      sound = h;
      dimension = refl;
      final_field = refl;
      found = λ i. refl;
      room = omega arith;
    },
  )
  apply_changes_lem (upsert_node node ∷ cs) s h room =
      let (mid, e, first) = upsert_lem node s h (omega arith) in
      one_then_rest (upsert_node node) cs s 1 _ _ mid e (omega arith) first room
        (apply_changes_lem cs mid first.sound)
  apply_changes_lem (remove_node id ∷ cs) s h room =
      let (mid, e, first) = remove_id_lem id s h in
      one_then_rest (remove_node id) cs s 0 _ _ mid e (omega arith) first room
        (apply_changes_lem cs mid first.sound)
  apply_changes_lem (set_final_field id ∷ cs) s h room =
      one_then_rest (set_final_field id) cs s 0 id (find s) (record s { final_field = id }) refl
        (omega arith)
        (record {
          sound = record { table = h.table; matching = h.matching };
          dimension = refl;
          final_field = refl;
          found = λ i. refl;
          room = omega arith;
        })
        room
        (apply_changes_lem cs (record s { final_field = id })
          (record { table = h.table; matching = h.matching }))

-- ===== src/FastNoise/State/Steps.antt =====
-- fastnoise/src/runtime.rs: what one change does to a sound state.
use braids_rs.Base.{
  Option, Option-cases, String, arith, done, if◌then◌else◌, inl, inr, length, none, refl, some, ℕ,
  ◌+◌, ◌<◌, ◌≡◌, ◌≤◌,
}
use braids_rs.Error.{ok}
use braids_rs.SlotTable.{SlotKey, get, get_mut, u32_mod}
use braids_rs.SlotTable.Invariant.{IsValid}
use braids_rs.SlotTable.Lookup.{get-insert, get-remove, get-get_mut, same_key}
use braids_rs.SlotTable.Room.{length-insert, length-remove, length-get_mut}
use braids_rs.FastNoise.Names.{
  lookup, bind, without, lookup-bind, lookup-without, id_cases, same_id, same_id,
}
use braids_rs.FastNoise.Model.{NodeSpec, node_id, FastNoiseState}
use braids_rs.FastNoise.State.{insert_node, write_node, upsert, remove_id}
use braids_rs.FastNoise.State.Matching.{
  Matches, Keys, node_of, added, replaced, deleted, node_of-added, node_of-replaced,
  node_of-deleted, key_cases,
}

module _ {N : Type 0} where
  abbrev pub keys_of : FastNoiseState N → Keys
  keys_of s id = lookup id s.node_keys

  -- The node of an id in a state.
  abbrev pub find : FastNoiseState N → String → Option (NodeSpec N)
  find s id = node_of (keys_of s) (get s.nodes) id

  pub record IsSound (s : FastNoiseState N) : Type 0 where
    pub table : IsValid s.nodes
    pub matching : Matches (keys_of s) (get s.nodes)

  -- A sound state of the same dimension, with the given final field and nodes, and at most `n` new slots.
  pub record Leads (s : FastNoiseState N) (n : ℕ) (field : String)
      (nodes : String → Option (NodeSpec N)) (s' : FastNoiseState N) : Type 0 where
    pub sound : IsSound s'
    pub dimension : s'.dimension ≡ s.dimension
    pub final_field : s'.final_field ≡ field
    pub found : (id : String) → find s' id ≡ nodes id
    pub room : length s'.nodes.slots ≤ length s.nodes.slots + n

  abbrev pub with_node : NodeSpec N → (String → Option (NodeSpec N)) → String → Option (NodeSpec N)
  with_node node f id = if same_id (node_id node) id then some node else f id

  abbrev pub without_id : String → (String → Option (NodeSpec N)) → String → Option (NodeSpec N)
  without_id i f id = if same_id i id then none else f id

  insert_node_lem :
      (node : NodeSpec N) (s : FastNoiseState N)
      → IsSound s
      → length s.nodes.slots < u32_mod
      → lookup (node_id node) s.node_keys ≡ none
      → (s' : FastNoiseState N) × (insert_node node s ≡ (done (ok tt), s'))
        × Leads s 1 s.final_field (with_node node (find s)) s'
  unfolding insert_node
  insert_node_lem node s h room fresh =
      let (u, k, e, valid, hole, gets) = get-insert s.nodes node h.table room in
      let keys : (i : String)
          → lookup i (bind (node_id node) k s.node_keys)
            ≡ (if same_id (node_id node) i then some k else lookup i s.node_keys) =
        λ i. lookup-bind (node_id node) i k s.node_keys in
      (
        record s { nodes = u; node_keys = bind (node_id node) k s.node_keys },
        rw (insert_node, e) refl,
        record {
          sound = record {
            table = valid;
            matching = added _ _ _ _ node k fresh hole keys gets h.matching;
          };
          dimension = refl;
          final_field = refl;
          found = λ i. node_of-added _ _ _ _ node k i hole keys gets h.matching;
          room = length-insert s.nodes u node k h.table e;
        },
      )

  pub upsert_lem :
      (node : NodeSpec N) (s : FastNoiseState N)
      → IsSound s
      → length s.nodes.slots < u32_mod
      → (s' : FastNoiseState N) × (upsert node s ≡ (done (ok tt), s'))
        × Leads s 1 s.final_field (with_node node (find s)) s'
  unfolding upsert write_node
  upsert_lem node s h room = elim (Option-cases (lookup (node_id node) s.node_keys)) [
    | inl e ↦ let (s', r, leads) = insert_node_lem node s h room e in (s', rw (upsert, e) r, leads)
    | inr (k, e) ↦
        let (old, at, same) = h.matching.bound (node_id node) k e in
        let (valid, gets) = get-get_mut s.nodes k (λ _. node) h.table in
        let writes : (j : SlotKey)
            → get (get_mut s.nodes k (λ _. node)) j
              ≡ (if same_key k j then some node else get s.nodes j) =
          λ j. ground (arith, gets j, key_cases k j, at) in
        (
          record s { nodes = get_mut s.nodes k (λ _. node) },
          rw (upsert, e, write_node, at) refl,
          record {
            sound = record {
              table = valid;
              matching = replaced _ _ _ _ node old k e at (λ i. refl) writes h.matching;
            };
            dimension = refl;
            final_field = refl;
            found = λ i. node_of-replaced _ _ _ _ node old k i e at (λ i. refl) writes h.matching;
            room = omega (arith, length-get_mut s.nodes k (λ _. node));
          },
        )
  ]

  pub remove_id_lem :
      (id : String) (s : FastNoiseState N)
      → IsSound s
      → (s' : FastNoiseState N) × (remove_id id s ≡ (done (ok tt), s'))
        × Leads s 0 s.final_field (without_id id (find s)) s'
  unfolding remove_id
  remove_id_lem id s h = elim (Option-cases (lookup id s.node_keys)) [
    | inl e ↦ (
      s,
      rw (remove_id, e) refl,
      record {
        sound = h;
        dimension = refl;
        final_field = refl;
        found = λ i. ground (arith, e, id_cases id i);
        room = omega arith;
      },
    )
    | inr (k, e) ↦
        let (u, r, valid, gets) = get-remove s.nodes k h.table in
        let keys : (i : String)
            → lookup i (without id s.node_keys)
              ≡ (if same_id id i then none else lookup i s.node_keys) =
          λ i. lookup-without id i s.node_keys in
        (
          record s { nodes = u; node_keys = without id s.node_keys },
          rw (remove_id, e, r) refl,
          record {
            sound = record {
              table = valid;
              matching = deleted _ _ _ _ id k e keys gets h.matching;
            };
            dimension = refl;
            final_field = refl;
            found = λ i. node_of-deleted _ _ _ _ id k i e keys gets h.matching;
            room = omega (arith, length-remove s.nodes u k _ h.table r);
          },
        )
  ]

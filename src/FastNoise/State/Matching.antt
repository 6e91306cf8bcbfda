-- ===== src/FastNoise/State/Matching.antt =====
-- fastnoise/src/runtime.rs: the keys of the ids and the nodes of the table match, as two partial maps.
use braids_rs.Base.{
  Bool-cases, Option, String, if◌then◌else◌, none, some, ◌≡◌, ◌≢◌, ◌⊎◌, inl, inr, true, false,
  arith, sym, ◌∙◌, Option-cases,
}
use text.Mathlib.Text.{◌==◌}
use braids_rs.SlotTable.{SlotKey}
use braids_rs.SlotTable.Lookup.{same_key}
use braids_rs.FastNoise.Names.{id_cases}
use braids_rs.FastNoise.Model.{NodeSpec, node_id}

pub key_cases :
    (k j : SlotKey) → ((k ≡ j) × (same_key k j ≡ true)) ⊎ ((k ≢ j) × (same_key k j ≡ false))
key_cases k j = elim (Bool-cases (same_key k j)) [
  | inl e ↦ inl (ground arith, e)
  | inr e ↦ inr (ground arith, e)
]

-- What the maps of a graph hold: keys under ids, and nodes under keys.
abbrev pub Keys : Type 0
Keys = String → Option SlotKey

abbrev pub Nodes : Type 0 → Type 0
Nodes N = SlotKey → Option (NodeSpec N)

module _ {N : Type 0} where
  -- Each id has the key of a node of that id, and each node is the one of its id.
  pub record Matches (keys : Keys) (nodes : Nodes N) : Type 0 where
    pub bound :
        (id : String) (k : SlotKey)
        → keys id ≡ some k
        → (node : NodeSpec N) × (nodes k ≡ some node) × (node_id node ≡ id)
    pub named :
        (k : SlotKey) (node : NodeSpec N) → nodes k ≡ some node → keys (node_id node) ≡ some k

  -- The node of an id.
  abbrev pub node_of : Keys → Nodes N → String → Option (NodeSpec N)
  node_of keys nodes id = elim (keys id) [ none ↦ none | some k ↦ nodes k ]

  module _ (keys keys' : Keys) (nodes nodes' : Nodes N) where
    -- A node of a new id under a new key.
    pub added :
        (node : NodeSpec N) (k : SlotKey)
        → keys (node_id node) ≡ none
        → nodes k ≡ none
        → ((i : String) → keys' i ≡ (if node_id node == i then some k else keys i))
        → ((j : SlotKey) → nodes' j ≡ (if same_key k j then some node else nodes j))
        → Matches keys nodes
        → Matches keys' nodes'
    added node k fresh hole hk hn m = record {
      bound = λ i j e. elim (id_cases (node_id node) i) [
        | inl (p, q) ↦ (node, ground (arith, hk i, hn j, q, e), p)
        | inr (p, q) ↦
            let (n, at, same) = m.bound i j (ground (arith, hk i, q, e)) in
            (
              n,
              elim (key_cases k j) [
                | inl (kj, _) ↦ ground (arith, kj, hole, at)
                | inr (_, t) ↦ ground (arith, hn j, t, at)
              ],
              same,
            )
      ];
      named = λ j n e. elim (key_cases k j) [
        | inl (p, q) ↦
            ground (arith, hn j, q, e, p, hk (node_id n), id_cases (node_id node) (node_id n))
        | inr (p, q) ↦ ground (
          arith,
          hn j,
          q,
          e,
          fresh,
          m.named j n,
          hk (node_id n),
          id_cases (node_id node) (node_id n),
        )
      ];
    }

    -- The node of a key gives way to another of the same id.
    pub replaced :
        (node old : NodeSpec N) (k : SlotKey)
        → keys (node_id node) ≡ some k
        → nodes k ≡ some old
        → ((i : String) → keys' i ≡ keys i)
        → ((j : SlotKey) → nodes' j ≡ (if same_key k j then some node else nodes j))
        → Matches keys nodes
        → Matches keys' nodes'
    replaced node old k known at hk hn m = record {
      bound = λ i j e.
          let (n, found, same) = m.bound i j (sym (hk i) ∙ e) in
          elim (key_cases k j) [
            | inl (p, q) ↦ (
              node,
              ground (arith, hn j, q),
              ground (arith, p, at, found, same, m.bound (node_id node) k known),
            )
            | inr (p, q) ↦ (n, ground (arith, hn j, q, found), same)
          ];
      named = λ j n e. elim (key_cases k j) [
        | inl (p, q) ↦ ground (arith, hn j, q, e, p, hk (node_id n), known)
        | inr (p, q) ↦ ground (arith, hn j, q, e, hk (node_id n), m.named j n)
      ];
    }

    -- An id goes, with the node of its key.
    pub deleted :
        (id : String) (k : SlotKey)
        → keys id ≡ some k
        → ((i : String) → keys' i ≡ (if id == i then none else keys i))
        → ((j : SlotKey) → nodes' j ≡ (if same_key k j then none else nodes j))
        → Matches keys nodes
        → Matches keys' nodes'
    deleted id k known hk hn m = record {
      bound = λ i j e. elim (id_cases id i) [
        | inl (p, q) ↦ ground (arith, hk i, q, e)
        | inr (p, q) ↦
            let (n, found, same) = m.bound i j (ground (arith, hk i, q, e)) in
            elim (key_cases k j) [
              | inl (s, t) ↦ ground (arith, s, p, found, same, m.bound id k known)
              | inr (s, t) ↦ (n, ground (arith, hn j, t, found), same)
            ]
      ];
      named = λ j n e. elim (key_cases k j) [
        | inl (p, q) ↦ ground (arith, hn j, q, e)
        | inr (p, q) ↦
            ground
              (arith, hn j, q, e, p, known, m.named j n, hk (node_id n), id_cases id (node_id n))
      ];
    }

    pub node_of-added :
        (node : NodeSpec N) (k : SlotKey) (i : String)
        → nodes k ≡ none
        → ((i : String) → keys' i ≡ (if node_id node == i then some k else keys i))
        → ((j : SlotKey) → nodes' j ≡ (if same_key k j then some node else nodes j))
        → Matches keys nodes
        → node_of keys' nodes' i ≡ (if node_id node == i then some node else node_of keys nodes i)
    node_of-added node k i hole hk hn m = elim (id_cases (node_id node) i) [
      | inl (p, q) ↦ ground (arith, hk i, q, hn k, key_cases k k)
      | inr (p, q) ↦ elim (Option-cases (keys i)) [
        | inl e ↦ ground (arith, hk i, q, e)
        | inr (j, e) ↦ ground (arith, hk i, q, e, hn j, key_cases k j, hole, m.bound i j e)
      ]
    ]

    pub node_of-replaced :
        (node old : NodeSpec N) (k : SlotKey) (i : String)
        → keys (node_id node) ≡ some k
        → nodes k ≡ some old
        → ((i : String) → keys' i ≡ keys i)
        → ((j : SlotKey) → nodes' j ≡ (if same_key k j then some node else nodes j))
        → Matches keys nodes
        → node_of keys' nodes' i ≡ (if node_id node == i then some node else node_of keys nodes i)
    node_of-replaced node old k i known at hk hn m = elim (Option-cases (keys i)) [
      | inl e ↦ ground (arith, hk i, e, id_cases (node_id node) i, known)
      | inr (j, e) ↦ elim (key_cases k j) [
        | inl (p, q) ↦ ground (
          arith,
          hk i,
          e,
          hn j,
          q,
          p,
          at,
          id_cases (node_id node) i,
          m.bound i j e,
          m.bound (node_id node) k known,
        )
        | inr (p, q) ↦ ground (arith, hk i, e, hn j, q, known, id_cases (node_id node) i)
      ]
    ]

    pub node_of-deleted :
        (id : String) (k : SlotKey) (i : String)
        → keys id ≡ some k
        → ((i : String) → keys' i ≡ (if id == i then none else keys i))
        → ((j : SlotKey) → nodes' j ≡ (if same_key k j then none else nodes j))
        → Matches keys nodes
        → node_of keys' nodes' i ≡ (if id == i then none else node_of keys nodes i)
    node_of-deleted id k i known hk hn m = elim (id_cases id i) [
      | inl (p, q) ↦ ground (arith, hk i, q)
      | inr (p, q) ↦ elim (Option-cases (keys i)) [
        | inl e ↦ ground (arith, hk i, q, e)
        | inr (j, e) ↦
            ground (arith, hk i, q, e, hn j, key_cases k j, m.bound i j e, m.bound id k known, p)
      ]
    ]

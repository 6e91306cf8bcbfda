-- ===== src/SlotTable/Lookup.antt =====
-- src/slot_table.rs: the table as a finite map from keys to values.
use braids_rs.Base.{
  ℕ, Option-cases, eq_of_==, ◌<◌, ◌≡◌, ap, sym, ◌∙◌, inl, inr, Bool, true, none, some, List, ◌==◌,
  ◌&&◌, if◌then◌else◌, length, get_elem?, done, arith, lt-length, Bool-cases, get_elem?-set_self,
  get_elem?-set_ne, get_elem?-push, get_elem?-length, set, ◌⊎◌,
}
use braids_rs.SlotTable.{
  get_mut, fresh_slot, SlotTable, Slot, SlotKey, insert, get, remove, wrapping_add, key_at, u32_mod,
}
use mathlib.Core.Option
use braids_rs.SlotTable.Holes.{vacancy-set_same, live-set, filled}
use braids_rs.SlotTable.Invariant.{
  IsValid, filled_hole, pushed_slot, new_slot, removed, insert_cases, remove_cases,
  filled_hole-IsValid, pushed_slot-IsValid, removed-IsValid,
}

-- The derived equality of keys.
abbrev pub same_key : SlotKey → SlotKey → Bool
same_key k j = (k.index == j.index) && (k.generation == j.generation)

same_key-eq : (k j : SlotKey) → same_key k j ≡ true → k ≡ j
same_key-eq k j h = ground arith

module _ {A : Type 0} where
  get-pushed_slot :
      (t : SlotTable A) (v : A) (j : SlotKey)
      → length t.slots < u32_mod
      → get (pushed_slot t v).0 j ≡ (if same_key (pushed_slot t v).1 j then some v else get t j)
  unfolding get
  get-pushed_slot t v j h =
      ground (arith, get_elem?-push t.slots (new_slot v) j.index, get_elem?-length t.slots j.index)

  get-filled_hole :
      (t : SlotTable A) (v : A) (i : ℕ) (rest : List ℕ) (s : Slot A) (j : SlotKey)
      → length t.slots < u32_mod
      → get_elem? t.slots i ≡ some s
      → s.value ≡ none
      → get (filled_hole t v i rest s).0 j
        ≡ (if same_key (filled_hole t v i rest s).1 j then some v else get t j)
  unfolding get
  get-filled_hole t v i rest s j h at hole = elim (Bool-cases (i == j.index)) [
    | inl e ↦ ground (
      arith,
      at,
      hole,
      lt-length t.slots i at,
      get_elem?-set_self t.slots i (record s { value = some v }),
    )
    | inr e ↦ ground (
      arith,
      at,
      hole,
      lt-length t.slots i at,
      get_elem?-set_ne t.slots i j.index (record s { value = some v }),
    )
  ]

  -- On a valid table with fewer than 2 ^ 32 slots `insert` does not panic, keeps the table valid, and
  -- binds the key that it returns, which was unbound, to the value; every other key reads as before.
  pub get-insert :
      (t : SlotTable A) (v : A)
      → IsValid t
      → length t.slots < u32_mod
      → (u : SlotTable A) × (k : SlotKey) × (insert t v ≡ done (u, k))
        × IsValid u
        × (get t k ≡ none)
        × ((j : SlotKey) → get u j ≡ (if same_key k j then some v else get t j))
  unfolding get
  get-insert t v h bound = elim (insert_cases t v h) [
    | inl (e, r) ↦ (
      (pushed_slot t v).0,
      (pushed_slot t v).1,
      r,
      pushed_slot-IsValid t v e h,
      ground (arith, get_elem?-length t.slots (length t.slots)),
      λ j. get-pushed_slot t v j bound,
    )
    | inr (i, rest, s, e, at, hole, r) ↦ (
      (filled_hole t v i rest s).0,
      key_at i s,
      r,
      filled_hole-IsValid t v i rest s e at hole h,
      ground (arith, at, hole, lt-length t.slots i at),
      λ j. get-filled_hole t v i rest s j bound at hole,
    )
  ]

  get-removed :
      (t : SlotTable A) (k : SlotKey) (s : Slot A) (v : A) (j : SlotKey)
      → get_elem? t.slots k.index ≡ some s
      → s.generation ≡ k.generation
      → s.value ≡ some v
      → get (removed t k.index s) j ≡ (if same_key k j then none else get t j)
  unfolding get
  get-removed t k s v j at g e = elim (Bool-cases (k.index == j.index)) [
    | inl q ↦ ground (
      arith,
      at,
      lt-length t.slots k.index at,
      get_elem?-set_self t.slots k.index
          (record { generation = wrapping_add s.generation 1; value = none }),
    )
    | inr q ↦ ground (
      arith,
      at,
      get_elem?-set_ne t.slots k.index j.index
          (record { generation = wrapping_add s.generation 1; value = none }),
    )
  ]

  get_same :
      (t : SlotTable A) (k j : SlotKey)
      → get t k ≡ none
      → get t j ≡ (if same_key k j then none else get t j)
  get_same t k j e = elim (Bool-cases (same_key k j)) [
    | inl q ↦ rw q (ap (get t) (sym (same_key-eq k j q)) ∙ e)
    | inr q ↦ rw q
  ]

  -- `remove` does not panic on a valid table and keeps it valid. It returns what `get` finds; then the
  -- key reads as nothing and every other key reads as before.
  pub get-remove :
      (t : SlotTable A) (k : SlotKey)
      → IsValid t
      → (u : SlotTable A) × (remove t k ≡ done (u, get t k))
        × IsValid u
        × ((j : SlotKey) → get u j ≡ (if same_key k j then none else get t j))
  get-remove t k h = elim (remove_cases t k h) [
    | inl (e, r) ↦ (t, rw e r, h, λ j. get_same t k j e)
    | inr (s, v, at, g, e, f, r) ↦ (
      removed t k.index s,
      rw f r,
      removed-IsValid t k.index s v at e h,
      λ j. get-removed t k s v j at g e,
    )
  ]

  abbrev pub updated : SlotTable A → ℕ → Slot A → (A → A) → SlotTable A
  updated t i s f = record t { slots = set t.slots i (record s { value = Option.map f s.value }) }

  -- `get_mut` reaches the slot of a fresh key, or nothing.
  pub get_mut_cases :
      (t : SlotTable A) (k : SlotKey) (f : A → A)
      → ((fresh_slot t k ≡ none) × (get_mut t k f ≡ t))
        ⊎ ((s : Slot A) × (get_elem? t.slots k.index ≡ some s)
            × (s.generation ≡ k.generation)
            × (get_mut t k f ≡ updated t k.index s f))
  unfolding get_mut
  get_mut_cases t k f = elim (Option-cases (get_elem? t.slots k.index)) [
    | inl e ↦ inl (ground arith, ground arith)
    | inr (s, e) ↦ elim (Bool-cases (s.generation == k.generation)) [
      | inl g ↦ inr (s, e, eq_of_== s.generation k.generation g, ground arith)
      | inr g ↦ inl (ground arith, ground arith)
    ]
  ]

  updated-IsValid :
      (t : SlotTable A) (i : ℕ) (s : Slot A) (f : A → A)
      → get_elem? t.slots i ≡ some s
      → IsValid t
      → IsValid (updated t i s f)
  updated-IsValid t i s f at h =
      let same : filled (Option.map f s.value) ≡ filled s.value = ground arith in
      record {
        free_exact = λ j.
            h.free_exact j
            ∙ sym (
                vacancy-set_same t.slots i j (record s { value = Option.map f s.value }) s at same);
        len_exact = omega (
          arith,
          h.len_exact,
          same,
          live-set t.slots i (record s { value = Option.map f s.value }) s at,
        );
      }

  get-updated :
      (t : SlotTable A) (k : SlotKey) (s : Slot A) (f : A → A) (j : SlotKey)
      → get_elem? t.slots k.index ≡ some s
      → s.generation ≡ k.generation
      → get (updated t k.index s f) j ≡ (if same_key k j then Option.map f (get t j) else get t j)
  unfolding get
  get-updated t k s f j at g = elim (Bool-cases (k.index == j.index)) [
    | inl q ↦ ground (
      arith,
      at,
      lt-length t.slots k.index at,
      get_elem?-set_self t.slots k.index (record s { value = Option.map f s.value }),
    )
    | inr q ↦ ground (
      arith,
      at,
      get_elem?-set_ne t.slots k.index j.index (record s { value = Option.map f s.value }),
    )
  ]

  get_unreached :
      (t : SlotTable A) (k j : SlotKey) (f : A → A)
      → fresh_slot t k ≡ none
      → get t j ≡ (if same_key k j then Option.map f (get t j) else get t j)
  unfolding get
  get_unreached t k j f e = elim (Bool-cases (same_key k j)) [
    | inl q ↦ rw q (ground (arith, same_key-eq k j q))
    | inr q ↦ rw q
  ]

  -- A write through `get_mut` keeps a valid table valid, and changes what its own key reads and
  -- nothing else.
  pub get-get_mut :
      (t : SlotTable A) (k : SlotKey) (f : A → A)
      → IsValid t
      → IsValid (get_mut t k f)
        × ((j : SlotKey)
            → get (get_mut t k f) j ≡ (if same_key k j then Option.map f (get t j) else get t j))
  get-get_mut t k f h = elim (get_mut_cases t k f) [
    | inl (e, r) ↦ (rw r h, λ j. rw r (get_unreached t k j f e))
    | inr (s, at, g, r) ↦
        (rw r (updated-IsValid t k.index s f at h), λ j. rw r (get-updated t k s f j at g))
  ]

-- ===== src/SlotTable/Invariant.antt =====
-- src/slot_table.rs: what holds of a table between two calls.
use braids_rs.Base.{
  ℕ, ◌+◌, ◌≡◌, ◌⊎◌, refl, inl, inr, Option, none, some, List, [], ◌∷◌, ◌++◌, ◌==◌, length, count,
  get_elem?, set, done, ◌-◌, lt-length, Bool-cases, eq_of_==, arith,
}
use braids_rs.SlotTable.{SlotTable, Slot, SlotKey, insert, get, remove, wrapping_add, key_at}
use braids_rs.SlotTable.Holes.{
  vacancy, live, vacancy-le-one, vacancy-push, live-push, vacancy_hole, vacancy-set_value,
  vacancy-set_hole, live-set, live_pos, vacancy_filled,
}

module _ {ℓ} {A : Type ℓ} where
  -- The free list names each hole once and nothing else, and `len` counts the values.
  pub record IsValid (t : SlotTable A) : Type ℓ where
    pub free_exact : (i : ℕ) → count i t.free ≡ vacancy t.slots i
    pub len_exact : t.len ≡ live t.slots

  hole_of_free :
      {t : SlotTable A} (i : ℕ) (rest : List ℕ)
      → IsValid t
      → t.free ≡ i ∷ rest
      → (s : Slot A) × (get_elem? t.slots i ≡ some s) × (s.value ≡ none)
  hole_of_free {t} i rest h e = vacancy_hole t.slots i (ground (arith, h.free_exact i))

  -- What `insert` returns: the table and key of the branch that it takes.
  abbrev pub filled_hole : SlotTable A → A → ℕ → List ℕ → Slot A → SlotTable A × SlotKey
  filled_hole t v i rest s = (
    record t { slots = set t.slots i (record s { value = some v }); free = rest; len = t.len + 1 },
    key_at i s,
  )

  abbrev pub new_slot : A → Slot A
  new_slot v = record { generation = 0; value = some v }

  abbrev pub pushed_slot : SlotTable A → A → SlotTable A × SlotKey
  pushed_slot t v = (
    record t { slots = t.slots ++ new_slot v ∷ []; len = t.len + 1 },
    key_at (length t.slots) (new_slot v),
  )

  -- The two branches of `insert` on a valid table.
  abbrev pub InsertCases : SlotTable A → A → Type ℓ
  InsertCases t v =
      ((t.free ≡ []) × (insert t v ≡ done (pushed_slot t v)))
      ⊎ ((i : ℕ) × (rest : List ℕ) × (s : Slot A) × (t.free ≡ i ∷ rest)
          × (get_elem? t.slots i ≡ some s)
          × (s.value ≡ none)
          × (insert t v ≡ done (filled_hole t v i rest s)))

  pub insert_cases : (t : SlotTable A) (v : A) → IsValid t → InsertCases t v
  unfolding insert
  insert_cases t v h = go t.free refl
    where
      go : (free : List ℕ) → t.free ≡ free → InsertCases t v
      go [] e = inl (e, ground arith)
      go (i ∷ rest) e =
          let (s, at, hole) = hole_of_free i rest h e in
          inr (i, rest, s, e, at, hole, ground (arith, at))

  pub pushed_slot-IsValid :
      (t : SlotTable A) (v : A) → t.free ≡ [] → IsValid t → IsValid (pushed_slot t v).0
  pushed_slot-IsValid t v e h = record {
    free_exact = λ i. ground (arith, h.free_exact i, vacancy-push t.slots (new_slot v) v i refl);
    len_exact = omega (arith, h.len_exact, live-push t.slots (new_slot v) v refl);
  }

  pub filled_hole-IsValid :
      (t : SlotTable A) (v : A) (i : ℕ) (rest : List ℕ) (s : Slot A)
      → t.free ≡ i ∷ rest
      → get_elem? t.slots i ≡ some s
      → s.value ≡ none
      → IsValid t
      → IsValid (filled_hole t v i rest s).0
  filled_hole-IsValid t v i rest s e at hole h = record {
    free_exact = λ j. ground (
      arith,
      h.free_exact j,
      vacancy-le-one t.slots j,
      vacancy-set_value t.slots i j (record s { value = some v }) v refl,
    );
    len_exact = ground (arith, h.len_exact, live-set t.slots i (record s { value = some v }) s at);
  }

  -- `insert` never panics on a valid table, and leaves a valid one.
  pub insert-IsValid :
      (t : SlotTable A) (v : A)
      → IsValid t
      → (u : SlotTable A) × (k : SlotKey) × (insert t v ≡ done (u, k)) × IsValid u
  insert-IsValid t v h = elim (insert_cases t v h) [
    | inl (e, r) ↦ ((pushed_slot t v).0, (pushed_slot t v).1, r, pushed_slot-IsValid t v e h)
    | inr (i, rest, s, e, at, hole, r) ↦
        ((filled_hole t v i rest s).0, key_at i s, r, filled_hole-IsValid t v i rest s e at hole h)
  ]

  -- What `remove` leaves where the key is that of a value.
  abbrev pub removed : SlotTable A → ℕ → Slot A → SlotTable A
  removed t i s = record {
    slots = set t.slots i (record { generation = wrapping_add s.generation 1; value = none });
    free = i ∷ t.free;
    len = t.len - 1;
  }

  pub removed-IsValid :
      (t : SlotTable A) (i : ℕ) (s : Slot A) (v : A)
      → get_elem? t.slots i ≡ some s
      → s.value ≡ some v
      → IsValid t
      → IsValid (removed t i s)
  removed-IsValid t i s v at e h = record {
    free_exact = λ j. ground (
      arith,
      h.free_exact j,
      vacancy_filled t.slots i s v at e,
      vacancy-set_hole t.slots i j
          (record { generation = wrapping_add s.generation 1; value = none })
          (lt-length t.slots i at) refl,
    );
    len_exact = ground (
      arith,
      h.len_exact,
      live_pos t.slots i s v at e,
      live-set t.slots i (record { generation = wrapping_add s.generation 1; value = none }) s at,
    );
  }

  -- The two branches of `remove` on a valid table: it does nothing where `get` finds nothing.
  abbrev pub RemoveCases : SlotTable A → SlotKey → Type ℓ
  RemoveCases t k =
      ((get t k ≡ none) × (remove t k ≡ done (t, none)))
      ⊎ ((s : Slot A) × (v : A) × (get_elem? t.slots k.index ≡ some s)
          × (s.generation ≡ k.generation)
          × (s.value ≡ some v)
          × (get t k ≡ some v)
          × (remove t k ≡ done (removed t k.index s, some v)))

  pub remove_cases : (t : SlotTable A) (k : SlotKey) → IsValid t → RemoveCases t k
  unfolding remove get
  remove_cases t k h = go (get_elem? t.slots k.index) refl
    where
      with_value :
          (s : Slot A)
          → get_elem? t.slots k.index ≡ some s
          → s.generation ≡ k.generation
          → (o : Option A) → s.value ≡ o
          → RemoveCases t k
      with_value s at g none e = inl (ground arith, ground arith)
      with_value s at g (some v) e = inr (
        s,
        v,
        at,
        g,
        e,
        ground arith,
        ground (arith, h.len_exact, live_pos t.slots k.index s v at e),
      )

      go : (o : Option (Slot A)) → get_elem? t.slots k.index ≡ o → RemoveCases t k
      go none e = inl (ground arith, ground arith)
      go (some s) e = elim (Bool-cases (s.generation == k.generation)) [
        | inl g ↦ with_value s e (eq_of_== s.generation k.generation g) s.value refl
        | inr g ↦ inl (ground arith, ground arith)
      ]

  pub remove-IsValid :
      (t : SlotTable A) (k : SlotKey)
      → IsValid t
      → (u : SlotTable A) × (remove t k ≡ done (u, get t k)) × IsValid u
  remove-IsValid t k h = elim (remove_cases t k h) [
    | inl (e, r) ↦ (t, rw e r, h)
    | inr (s, v, at, g, e, f, r) ↦
        (removed t k.index s, rw f r, removed-IsValid t k.index s v at e h)
  ]

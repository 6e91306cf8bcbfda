-- ===== src/SlotTable/Iteration.antt =====
-- src/slot_table.rs: `iter` and `iter_mut` visit each live value once, under its own key.
use braids_rs.SlotTable.{
  SlotTable, Slot, SlotKey, iter, iter_from, iter_mut, iter_mut_from, key_at, get,
}
use mathlib.Core.Option
use braids_rs.SlotTable.Holes.{live}
use braids_rs.Base.{
  ℕ, zero, suc, ◌+◌, ◌≤◌, ◌<◌, ◌≡◌, ◌∙◌, sym, refl, arith, List, [], ◌∷◌, Option, none, some,
  length, get_elem?, ◌==◌, if◌then◌else◌, Option-cases, inl, inr, ap, lt-length, Bool-cases,
  eq_of_==, ◌%◌,
}
use braids_rs.SlotTable.Lookup.{same_key}
use braids_rs.SlotTable.Invariant.{IsValid}
use braids_rs.SlotTable.{u32_mod}

-- The first value of a list of entries under a key.
abbrev pub find_key {ℓ} : {A : Type ℓ} → SlotKey → List (SlotKey × A) → Option A
find_key k [] = none
find_key k ((j, v) ∷ rest) = let found = find_key k rest in if same_key j k then some v else found

module _ {A : Type 0} where
  length-iter_from : (ss : List (Slot A)) (i : ℕ) → length (iter_from ss i) ≡ live ss
  unfolding iter_from
  length-iter_from [] i = refl
  length-iter_from (s ∷ ss) i = ground (arith, length-iter_from ss (suc i))

  -- The value that a key finds among the slots, the first of which has index `i`.
  read_slots : List (Slot A) → ℕ → SlotKey → Option A
  read_slots [] i k = none
  read_slots (s ∷ ss) i k =
      let rest = read_slots ss (suc i) k in
      if i == k.index then (if s.generation == k.generation then s.value else none) else rest

  read_slots_past :
      (ss : List (Slot A)) (i : ℕ) (k : SlotKey) → k.index < i → read_slots ss i k ≡ none
  unfolding read_slots
  read_slots_past [] i k h = refl
  read_slots_past (s ∷ ss) i k h = ground (arith, read_slots_past ss (suc i) k)

  find_key-iter_from :
      (ss : List (Slot A)) (i : ℕ) (k : SlotKey)
      → i + length ss ≤ u32_mod
      → find_key k (iter_from ss i) ≡ read_slots ss i k
  unfolding iter_from read_slots
  find_key-iter_from [] i k h = refl
  find_key-iter_from (s ∷ ss) i k h =
      ground (arith, find_key-iter_from ss (suc i) k (omega arith), read_slots_past ss (suc i) k)

  read_slots-at :
      (ss : List (Slot A)) (i n : ℕ) (k : SlotKey)
      → k.index ≡ i + n
      → read_slots ss i k ≡ elim (get_elem? ss n) [
        | none ↦ none
        | some s ↦ if s.generation == k.generation then s.value else none
      ]
  unfolding read_slots
  read_slots-at [] i n k h = refl
  read_slots-at (s ∷ ss) i zero k h = ground arith
  read_slots-at (s ∷ ss) i (suc n) k h = ground (arith, read_slots-at ss (suc i) n k (omega arith))

  get-read_slots : (t : SlotTable A) (k : SlotKey) → get t k ≡ read_slots t.slots 0 k
  unfolding get
  get-read_slots t k = ground (arith, read_slots-at t.slots 0 k.index k (omega arith))

  -- On a valid table of at most 2 ^ 32 slots the entries that `iter` gives are as many as `len` says,
  -- and they are the table as a map: looking a key up among them is `get`.
  pub find_key-iter :
      (t : SlotTable A)
      → IsValid t
      → length t.slots ≤ u32_mod
      → (length (iter t) ≡ t.len) × ((k : SlotKey) → find_key k (iter t) ≡ get t k)
  unfolding iter
  find_key-iter t h bound = (
    length-iter_from t.slots 0 ∙ sym h.len_exact,
    λ k. find_key-iter_from t.slots 0 k (omega arith) ∙ sym (get-read_slots t k),
  )

  iter_mut_from-at :
      (f : SlotKey → A → A) (ss : List (Slot A)) (i n : ℕ)
      → get_elem? (iter_mut_from f ss i) n ≡ elim (get_elem? ss n) [
        | none ↦ none
        | some s ↦ some (record s { value = Option.map (f (key_at (i + n) s)) s.value })
      ]
  unfolding iter_mut_from
  iter_mut_from-at f [] i n = refl
  iter_mut_from-at f (s ∷ ss) i zero =
      let same : i ≡ i + 0 = omega arith in
      ap (λ m. some (record s { value = Option.map (f (key_at m s)) s.value })) same
  iter_mut_from-at f (s ∷ ss) i (suc n) =
      let same : suc i + n ≡ i + suc n = omega arith in
      iter_mut_from-at f ss (suc i) n
      ∙ ap
          (λ m. elim (get_elem? ss n) [
            | none ↦ none
            | some s ↦ some (record s { value = Option.map (f (key_at m s)) s.value })
          ])
          same

  key_at_same :
      (s : Slot A) (k : SlotKey)
      → k.index < u32_mod
      → s.generation ≡ k.generation
      → key_at (0 + k.index) s ≡ k
  key_at_same s k h e =
      let whole : (0 + k.index) % u32_mod ≡ k.index = omega arith in
      ap (λ i. record { index = i; generation = s.generation }) whole
      ∙ ap (λ g. record { index = k.index; generation = g }) e

  -- On a table of at most 2 ^ 32 slots a pass of `iter_mut` makes of the value of each key what the
  -- caller makes of it under that key, and binds no other key.
  pub get-iter_mut :
      (f : SlotKey → A → A) (t : SlotTable A) (k : SlotKey)
      → length t.slots ≤ u32_mod
      → get (iter_mut f t) k ≡ Option.map (f k) (get t k)
  unfolding get iter_mut
  get-iter_mut f t k bound = elim (Option-cases (get_elem? t.slots k.index)) [
    | inl e ↦ ground (arith, e, iter_mut_from-at f t.slots 0 k.index)
    | inr (s, e) ↦ elim (Bool-cases (s.generation == k.generation)) [
      | inl g ↦ ground (
        arith,
        e,
        g,
        iter_mut_from-at f t.slots 0 k.index,
        key_at_same s k (omega (arith, lt-length t.slots k.index e))
            (eq_of_== s.generation k.generation g),
      )
      | inr g ↦ ground (arith, e, g, iter_mut_from-at f t.slots 0 k.index)
    ]
  ]

-- ===== src/SlotTable/Clear.antt =====
-- src/slot_table.rs: `clear_reuse`.
use braids_rs.Base.{
  ℕ, zero, suc, ◌+◌, ◌<◌, ◌≡◌, refl, ap, sym, ◌∙◌, inl, inr, none, some, List, [], ◌∷◌,
  if◌then◌else◌, length, count, get_elem?, arith, map, ltb, leb, Option-cases,
}
use braids_rs.SlotTable.{
  SlotTable, Slot, SlotKey, get, clear_reuse, clear_slots, clear_slot, capacity,
}
use braids_rs.SlotTable.Holes.{vacancy, live}
use braids_rs.SlotTable.Invariant.{IsValid}

module _ {A : Type 0} where
  clear_slots_slots :
      (ss : List (Slot A)) (i : ℕ) (free : List ℕ) → (clear_slots ss i free).0 ≡ map clear_slot ss
  unfolding clear_slots
  clear_slots_slots [] i free = refl
  clear_slots_slots (s ∷ ss) i free =
      ap (◌∷◌ (clear_slot s)) (clear_slots_slots ss (suc i) (i ∷ free))

  clear_slots_free :
      (ss : List (Slot A)) (i : ℕ) (free : List ℕ) (a : ℕ)
      → count a (clear_slots ss i free).1
        ≡ count a free + (if leb i a then (if ltb a (i + length ss) then 1 else 0) else 0)
  unfolding clear_slots
  clear_slots_free [] i free a = ground arith
  clear_slots_free (s ∷ ss) i free a = ground (arith, clear_slots_free ss (suc i) (i ∷ free) a)

  vacancy-clear :
      (ss : List (Slot A)) (i : ℕ)
      → vacancy (map clear_slot ss) i ≡ (if ltb i (length ss) then 1 else 0)
  vacancy-clear [] i = ground arith
  vacancy-clear (s ∷ ss) zero = ground arith
  vacancy-clear (s ∷ ss) (suc i) = ground (arith, vacancy-clear ss i)

  live-clear : (ss : List (Slot A)) → live (map clear_slot ss) ≡ 0
  live-clear [] = refl
  live-clear (s ∷ ss) = ground (arith, live-clear ss)

  pub get_elem?-clear :
      (ss : List (Slot A)) (i : ℕ) (s : Slot A)
      → get_elem? ss i ≡ some s
      → get_elem? (map clear_slot ss) i ≡ some (clear_slot s)
  get_elem?-clear [] i s e = cc
  get_elem?-clear (x ∷ ss) zero s e = ground arith
  get_elem?-clear (x ∷ ss) (suc i) s e = get_elem?-clear ss i s e

  pub clear_reuse_slots : (t : SlotTable A) → (clear_reuse t).slots ≡ map clear_slot t.slots
  unfolding clear_reuse
  clear_reuse_slots t = clear_slots_slots t.slots 0 []

  get-cleared :
      (ss : List (Slot A)) (i : ℕ) (s : Slot A)
      → get_elem? (map clear_slot ss) i ≡ some s
      → s.value ≡ none
  get-cleared [] i s e = cc
  get-cleared (x ∷ ss) zero s e = ground arith
  get-cleared (x ∷ ss) (suc i) s e = get-cleared ss i s e

  length-clear : (ss : List (Slot A)) → length (map clear_slot ss) ≡ length ss
  length-clear [] = refl
  length-clear (s ∷ ss) = ap suc (length-clear ss)

  pub clear_reuse-IsValid : (t : SlotTable A) → IsValid (clear_reuse t)
  unfolding clear_reuse
  clear_reuse-IsValid t = record {
    free_exact = λ i.
        rw (clear_slots_free t.slots 0 [] i, clear_slots_slots t.slots 0 [])
          (ground (arith, vacancy-clear t.slots i));
    len_exact = rw (clear_slots_slots t.slots 0 []) (sym (live-clear t.slots));
  }

  -- `clear_reuse` leaves a valid table, whatever it was given: of the same capacity, with no values,
  -- every key unbound, and each slot free for reuse.
  pub get-clear_reuse :
      (t : SlotTable A)
      → IsValid (clear_reuse t)
        × (capacity (clear_reuse t) ≡ capacity t)
        × ((clear_reuse t).len ≡ 0)
        × ((k : SlotKey) → get (clear_reuse t) k ≡ none)
        × ((i : ℕ) → i < capacity t → count i (clear_reuse t).free ≡ 1)
  unfolding capacity
  get-clear_reuse t = (
    clear_reuse-IsValid t,
    ap length (clear_reuse_slots t) ∙ length-clear t.slots,
    unfold clear_reuse in refl,
    (λ k. get_none k),
    λ i h. clear_frees i h,
  )
    where
      get_none : (k : SlotKey) → get (clear_reuse t) k ≡ none
      get_none k = elim (Option-cases (get_elem? (clear_reuse t).slots k.index)) [
        | inl e ↦ unfold get in ground arith
        | inr (s, e) ↦
            unfold get in
            ground (arith, get-cleared t.slots k.index s (rw (← clear_reuse_slots t) e))
      ]

      clear_frees : (i : ℕ) → i < length t.slots → count i (clear_reuse t).free ≡ 1
      clear_frees i h = unfold clear_reuse in ground (arith, clear_slots_free t.slots 0 [] i)

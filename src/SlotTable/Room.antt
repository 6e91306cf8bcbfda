-- ===== src/SlotTable/Room.antt =====
-- src/slot_table.rs: how much the operations lengthen the vector of slots.
use braids_rs.Base.{
  Option, Outcome, [], ap, arith, done, inl, inr, length, length-append, length-set, none, panic,
  refl, some, sym, ℕ, ◌+◌, ◌∙◌, ◌∷◌, ◌≡◌, ◌≤◌,
}
use braids_rs.SlotTable.{SlotTable, SlotKey, insert, remove, get_mut, empty, wrapping_add}
use braids_rs.SlotTable.Invariant.{IsValid, insert_cases, remove_cases, new_slot}
use braids_rs.SlotTable.Lookup.{get_mut_cases}
use mathlib.Core.Option

abbrev outcome_slots : {A B : Type 0} → Outcome (SlotTable A × B) → ℕ
outcome_slots panic = 0
outcome_slots (done (t, b)) = length t.slots

module _ {A : Type 0} where
  pub length-insert :
      (t u : SlotTable A) (v : A) (k : SlotKey)
      → IsValid t
      → insert t v ≡ done (u, k)
      → length u.slots ≤ length t.slots + 1
  length-insert t u v k h e = elim (insert_cases t v h) [
    | inl (f, r) ↦
        omega (arith, ap outcome_slots (sym e ∙ r), length-append t.slots (new_slot v ∷ []))
    | inr (i, rest, s, f, at, hole, r) ↦
        omega
          (arith, ap outcome_slots (sym e ∙ r), length-set t.slots i (record s { value = some v }))
  ]

  pub length-remove :
      (t u : SlotTable A) (k : SlotKey) (o : Option A)
      → IsValid t
      → remove t k ≡ done (u, o)
      → length u.slots ≡ length t.slots
  length-remove t u k o h e = elim (remove_cases t k h) [
    | inl (f, r) ↦ ap outcome_slots (sym e ∙ r)
    | inr (s, v, at, g, f, got, r) ↦
        ap outcome_slots (sym e ∙ r)
        ∙ length-set t.slots k.index
            (record { generation = wrapping_add s.generation 1; value = none })
  ]

  pub length-get_mut :
      (t : SlotTable A) (k : SlotKey) (f : A → A) → length (get_mut t k f).slots ≡ length t.slots
  length-get_mut t k f = elim (get_mut_cases t k f) [
    | inl (e, r) ↦ ap (λ u. length u.slots) r
    | inr (s, at, g, r) ↦
        ap (λ u. length u.slots) r
        ∙ length-set t.slots k.index (record s { value = Option.map f s.value })
  ]

  pub empty-IsValid : IsValid (empty {A = A})
  unfolding empty
  empty-IsValid = record { free_exact = λ i. refl; len_exact = refl }

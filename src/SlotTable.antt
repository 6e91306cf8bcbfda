-- ===== src/SlotTable.antt =====
-- src/slot_table.rs: the table of stable slots with generation keys.
-- A `Vec` used as a stack (`free`) is a list whose head is the end of the vector; `slots` is in order.
-- A `u32` is a number below 2 ^ 32, and its wrap-around is written out.
pub mod Holes
pub mod Invariant
pub mod Lookup
pub mod Clear
pub mod Stale
pub mod Iteration
pub mod Room
mod Examples
use braids_rs.Base.{
  ℕ, suc, ◌+◌, ◌-◌, ◌%◌, Bool, Option, none, some, List, [], ◌∷◌, ◌++◌, ◌==◌, if◌then◌else◌, length,
  get_elem?, set, Outcome, done, panic, and_then, or_panic,
}
use mathlib.Core.Option

abbrev pub u32_mod : ℕ
u32_mod = 4294967296

-- `index as u32`
abbrev pub as_u32 : ℕ → ℕ
as_u32 n = n % u32_mod

abbrev pub wrapping_add : ℕ → ℕ → ℕ
wrapping_add a b = (a + b) % u32_mod

pub record SlotKey : Type 0 where
  pub index : ℕ
  pub generation : ℕ

pub record Slot {ℓ} (A : Type ℓ) : Type ℓ where
  pub generation : ℕ
  pub value : Option A

pub record SlotTable {ℓ} (A : Type ℓ) : Type ℓ where
  pub slots : List (Slot A)
  pub free : List ℕ
  pub len : ℕ

module _ {ℓ} {A : Type ℓ} where
  abbrev pub key_at : ℕ → Slot A → SlotKey
  key_at i s = record { index = as_u32 i; generation = s.generation }

  -- The branch of `insert` that fills the hole `i`; `rest` are the holes left.
  fill_hole : SlotTable A → A → ℕ → List ℕ → Outcome (SlotTable A × SlotKey)
  fill_hole t v i rest = and_then (or_panic (get_elem? t.slots i)) λ s. done (
    record t { slots = set t.slots i (record s { value = some v }); free = rest; len = t.len + 1 },
    key_at i s,
  )

  -- The branch of `insert` that makes a new slot.
  push_slot : SlotTable A → A → Outcome (SlotTable A × SlotKey)
  push_slot t v = done (
    record t { slots = t.slots ++ record { generation = 0; value = some v } ∷ []; len = t.len + 1 },
    record { index = as_u32 (length t.slots); generation = 0 },
  )

  insert_from : List ℕ → SlotTable A → A → Outcome (SlotTable A × SlotKey)
  unfolding fill_hole push_slot
  insert_from [] t v = push_slot t v
  insert_from (i ∷ rest) t v = fill_hole t v i rest

  unfoldable pub insert : SlotTable A → A → Outcome (SlotTable A × SlotKey)
  unfolding insert_from
  insert t v = insert_from t.free t v

  -- The slot of a key, if the key is in bounds and of the slot's generation.
  abbrev pub fresh_slot : SlotTable A → SlotKey → Option (Slot A)
  fresh_slot t k = elim (get_elem? t.slots k.index) [
    | none ↦ none
    | some s ↦ if s.generation == k.generation then some s else none
  ]

  -- `self.len -= 1` panics at 0 where overflow is checked.
  take_value : SlotTable A → ℕ → Slot A → A → Outcome (SlotTable A × Option A)
  take_value t i s v =
      if t.len == 0
      then panic
      else done (
        record {
          slots = set t.slots i (record { generation = wrapping_add s.generation 1; value = none });
          free = i ∷ t.free;
          len = t.len - 1;
        },
        some v,
      )

  remove_slot : SlotTable A → ℕ → Slot A → Option A → Outcome (SlotTable A × Option A)
  unfolding take_value
  remove_slot t i s none = done (t, none)
  remove_slot t i s (some v) = take_value t i s v

  remove_from : SlotTable A → ℕ → Option (Slot A) → Outcome (SlotTable A × Option A)
  unfolding remove_slot
  remove_from t i none = done (t, none)
  remove_from t i (some s) = remove_slot t i s s.value

  unfoldable pub remove : SlotTable A → SlotKey → Outcome (SlotTable A × Option A)
  unfolding remove_from
  remove t k = remove_from t k.index (fresh_slot t k)

  unfoldable pub get : SlotTable A → SlotKey → Option A
  get t k = elim (fresh_slot t k) [ none ↦ none | some s ↦ s.value ]

  -- `get_mut`: the borrowed value is replaced by what the caller writes.
  unfoldable pub get_mut : SlotTable A → SlotKey → (A → A) → SlotTable A
  get_mut t k f = elim (fresh_slot t k) [
    | none ↦ t
    | some s ↦ record t { slots = set t.slots k.index (record s { value = Option.map f s.value }) }
  ]

  unfoldable pub is_empty : SlotTable A → Bool
  is_empty t = t.len == 0

  unfoldable pub capacity : SlotTable A → ℕ
  capacity t = length t.slots

  -- The loop of `clear_reuse` over the slots.
  abbrev pub clear_slot : Slot A → Slot A
  clear_slot s = elim s.value [
    | none ↦ s
    | some v ↦ record { generation = wrapping_add s.generation 1; value = none }
  ]

  unfoldable pub clear_slots : List (Slot A) → ℕ → List ℕ → List (Slot A) × List ℕ
  clear_slots [] i free = ([], free)
  clear_slots (s ∷ ss) i free =
      let (ss', free') = clear_slots ss (suc i) (i ∷ free) in (clear_slot s ∷ ss', free')

  unfoldable pub clear_reuse : SlotTable A → SlotTable A
  unfolding clear_slots
  clear_reuse t =
      let (slots, free) = clear_slots t.slots 0 [] in record { slots = slots; free = free; len = 0 }

  unfoldable pub iter_from : List (Slot A) → ℕ → List (SlotKey × A)
  iter_from [] i = []
  iter_from (s ∷ ss) i =
      let rest = iter_from ss (suc i) in
      elim s.value [ none ↦ rest | some v ↦ (key_at i s, v) ∷ rest ]

  -- `iter_mut`, with what the caller writes into each value.
  unfoldable pub iter_mut_from : (SlotKey → A → A) → List (Slot A) → ℕ → List (Slot A)
  iter_mut_from f [] i = []
  iter_mut_from f (s ∷ ss) i =
      record s { value = Option.map (f (key_at i s)) s.value } ∷ iter_mut_from f ss (suc i)

  unfoldable pub iter_mut : (SlotKey → A → A) → SlotTable A → SlotTable A
  unfolding iter_mut_from
  iter_mut f t = record t { slots = iter_mut_from f t.slots 0 }

  unfoldable pub iter : SlotTable A → List (SlotKey × A)
  unfolding iter_from
  iter t = iter_from t.slots 0

-- `SlotTable::default`
unfoldable pub empty {ℓ} : {A : Type ℓ} → SlotTable A
empty = record { slots = []; free = []; len = 0 }

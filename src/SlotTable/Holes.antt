-- ===== src/SlotTable/Holes.antt =====
-- src/slot_table.rs: holes and values of the slot list, and how a write changes them.
use braids_rs.Base.{
  ℕ, zero, suc, ◌+◌, ◌≤◌, ◌<◌, ◌≡◌, refl, Option, none, some, List, [], ◌∷◌, ◌++◌, ◌==◌,
  if◌then◌else◌, length, get_elem?, set, arith,
}
use braids_rs.SlotTable.{Slot}

-- 1 for a value, 0 for a hole.
abbrev pub filled {ℓ} : {A : Type ℓ} → Option A → ℕ
filled none = 0
filled (some v) = 1

module _ {ℓ} {A : Type ℓ} where
  -- 1 where the slot at an index is a hole, 0 where it holds a value or is out of bounds.
  abbrev pub vacancy : List (Slot A) → ℕ → ℕ
  vacancy [] i = 0
  vacancy (s ∷ ss) zero = elim s.value [ none ↦ 1 | some v ↦ 0 ]
  vacancy (s ∷ ss) (suc i) = vacancy ss i

  -- How many slots hold a value.
  abbrev pub live : List (Slot A) → ℕ
  live [] = 0
  live (s ∷ ss) = filled s.value + live ss

  pub vacancy-le-one : (ss : List (Slot A)) (i : ℕ) → vacancy ss i ≤ 1
  vacancy-le-one [] i = omega arith
  vacancy-le-one (s ∷ ss) zero = ground arith
  vacancy-le-one (s ∷ ss) (suc i) = vacancy-le-one ss i

  pub vacancy-push :
      (ss : List (Slot A)) (s : Slot A) (v : A) (i : ℕ)
      → s.value ≡ some v
      → vacancy (ss ++ s ∷ []) i ≡ vacancy ss i
  vacancy-push [] s v zero e = ground arith
  vacancy-push [] s v (suc i) e = refl
  vacancy-push (x ∷ ss) s v zero e = refl
  vacancy-push (x ∷ ss) s v (suc i) e = vacancy-push ss s v i e

  pub live-push :
      (ss : List (Slot A)) (s : Slot A) (v : A)
      → s.value ≡ some v
      → live (ss ++ s ∷ []) ≡ suc (live ss)
  live-push [] s v e = ground arith
  live-push (x ∷ ss) s v e = omega (arith, live-push ss s v e)

  -- A hole is in bounds and empty.
  pub vacancy_hole :
      (ss : List (Slot A)) (i : ℕ)
      → 0 < vacancy ss i
      → (s : Slot A) × (get_elem? ss i ≡ some s) × (s.value ≡ none)
  vacancy_hole [] i h = absurd (omega arith)
  vacancy_hole (s ∷ ss) zero h = (s, refl, ground arith)
  vacancy_hole (s ∷ ss) (suc i) h = vacancy_hole ss i h

  pub vacancy-set_value :
      (ss : List (Slot A)) (i j : ℕ) (s : Slot A) (v : A)
      → s.value ≡ some v
      → vacancy (set ss i s) j ≡ (if i == j then 0 else vacancy ss j)
  vacancy-set_value [] i j s v e = ground arith
  vacancy-set_value (x ∷ ss) zero zero s v e = ground arith
  vacancy-set_value (x ∷ ss) zero (suc j) s v e = ground arith
  vacancy-set_value (x ∷ ss) (suc i) zero s v e = ground arith
  vacancy-set_value (x ∷ ss) (suc i) (suc j) s v e = ground (arith, vacancy-set_value ss i j s v e)

  pub vacancy-set_hole :
      (ss : List (Slot A)) (i j : ℕ) (s : Slot A)
      → i < length ss
      → s.value ≡ none
      → vacancy (set ss i s) j ≡ (if i == j then 1 else vacancy ss j)
  vacancy-set_hole [] i j s h e = elim h [ ]
  vacancy-set_hole (x ∷ ss) zero zero s h e = ground arith
  vacancy-set_hole (x ∷ ss) zero (suc j) s h e = ground arith
  vacancy-set_hole (x ∷ ss) (suc i) zero s h e = ground arith
  vacancy-set_hole (x ∷ ss) (suc i) (suc j) s h e =
      ground (arith, vacancy-set_hole ss i j s (omega arith) e)

  pub live-set :
      (ss : List (Slot A)) (i : ℕ) (s x : Slot A)
      → get_elem? ss i ≡ some x
      → live (set ss i s) + filled x.value ≡ live ss + filled s.value
  live-set [] i s x e = cc
  live-set (y ∷ ss) zero s x e = ground arith
  live-set (y ∷ ss) (suc i) s x e = omega (arith, live-set ss i s x e)

  pub live_pos :
      (ss : List (Slot A)) (i : ℕ) (s : Slot A) (v : A)
      → get_elem? ss i ≡ some s
      → s.value ≡ some v
      → 0 < live ss
  live_pos [] i s v e f = cc
  live_pos (x ∷ ss) zero s v e f = ground arith
  live_pos (x ∷ ss) (suc i) s v e f = omega (arith, live_pos ss i s v e f)

  pub vacancy_filled :
      (ss : List (Slot A)) (i : ℕ) (s : Slot A) (v : A)
      → get_elem? ss i ≡ some s
      → s.value ≡ some v
      → vacancy ss i ≡ 0
  vacancy_filled [] i s v e f = refl
  vacancy_filled (x ∷ ss) zero s v e f = ground arith
  vacancy_filled (x ∷ ss) (suc i) s v e f = vacancy_filled ss i s v e f

  -- A write that keeps a value a value and a hole a hole.
  pub vacancy-set_same :
      (ss : List (Slot A)) (i j : ℕ) (s x : Slot A)
      → get_elem? ss i ≡ some x
      → filled s.value ≡ filled x.value
      → vacancy (set ss i s) j ≡ vacancy ss j
  vacancy-set_same [] i j s x e f = cc
  vacancy-set_same (y ∷ ss) zero zero s x e f = ground arith
  vacancy-set_same (y ∷ ss) zero (suc j) s x e f = refl
  vacancy-set_same (y ∷ ss) (suc i) zero s x e f = refl
  vacancy-set_same (y ∷ ss) (suc i) (suc j) s x e f = vacancy-set_same ss i j s x e f

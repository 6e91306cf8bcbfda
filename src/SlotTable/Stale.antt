-- ===== src/SlotTable/Stale.antt =====
-- src/slot_table.rs: a key that was removed stays dead, up to the wrap-around of the generations.
use braids_rs.Base.{
  get_elem?-append_left, ℕ, suc, ◌+◌, ◌%◌, ◌≤◌, ◌≡◌, ◌⊎◌, refl, ◌∙◌, inl, inr, some, List, [], ◌∷◌,
  ◌==◌, get_elem?, set, Outcome, done, arith, and_then, lt-length, Bool-cases, get_elem?-set_self,
  get_elem?-set_ne, get_elem?-append_left, ◌<◌, length, ◌≢◌, none,
}
use braids_rs.SlotTable.{
  SlotTable, Slot, SlotKey, insert, get_mut, remove, wrapping_add, clear_reuse, clear_slot, u32_mod,
  get,
}
use braids_rs.SlotTable.Invariant.{
  IsValid, filled_hole, pushed_slot, removed, insert_cases, remove_cases, filled_hole-IsValid,
  pushed_slot-IsValid, removed-IsValid,
}
use braids_rs.SlotTable.Lookup.{get-get_mut, get_mut_cases}
use braids_rs.SlotTable.Clear.{get_elem?-clear, clear_reuse_slots, clear_reuse-IsValid}

-- The calls that change a table.
pub data Op (A : Type 0) : Type 0 where
  inserts : A → Op A
  removes : SlotKey → Op A
  updates : SlotKey → (A → A) → Op A
  clears : Op A

module _ {A : Type 0} where
  unfoldable pub apply_op : SlotTable A → Op A → Outcome (SlotTable A)
  apply_op t (inserts v) = and_then (insert t v) λ r. done r.0
  apply_op t (removes k) = and_then (remove t k) λ r. done r.0
  apply_op t (updates k f) = done (get_mut t k f)
  apply_op t clears = done (clear_reuse t)

  unfoldable pub run_ops : SlotTable A → List (Op A) → Outcome (SlotTable A)
  run_ops t [] = done t
  run_ops t (o ∷ os) = and_then (apply_op t o) λ u. run_ops u os

  -- The slot `i` is there, and its generation is at most `n` steps past `g`.
  abbrev Within : SlotTable A → ℕ → ℕ → ℕ → Type 0
  Within t i g n =
      (s : Slot A) × (m : ℕ) × (get_elem? t.slots i ≡ some s)
      × (m ≤ n)
      × (s.generation ≡ (g + m) % u32_mod)

  -- A call bumps the generation of a slot by one or leaves it.
  abbrev Bumps : SlotTable A → SlotTable A → Type 0
  Bumps t u =
      (i : ℕ) (s : Slot A)
      → get_elem? t.slots i ≡ some s
      → (s' : Slot A) × (get_elem? u.slots i ≡ some s')
        × ((s'.generation ≡ s.generation) ⊎ (s'.generation ≡ wrapping_add s.generation 1))

  bumps_set :
      (t : SlotTable A) (k : ℕ) (x y : Slot A) (i : ℕ) (s : Slot A)
      → get_elem? t.slots k ≡ some x
      → (y.generation ≡ x.generation) ⊎ (y.generation ≡ wrapping_add x.generation 1)
      → get_elem? t.slots i ≡ some s
      → (s' : Slot A) × (get_elem? (set t.slots k y) i ≡ some s')
        × ((s'.generation ≡ s.generation) ⊎ (s'.generation ≡ wrapping_add s.generation 1))
  bumps_set t k x y i s at g e = elim (Bool-cases (k == i)) [
    | inl q ↦
        (y, ground (arith, get_elem?-set_self t.slots k y, lt-length t.slots k at), ground arith)
    | inr q ↦ (s, ground (arith, get_elem?-set_ne t.slots k i y), inl refl)
  ]

  clear_slot_gen :
      (s : Slot A)
      → ((clear_slot s).generation ≡ s.generation)
        ⊎ ((clear_slot s).generation ≡ wrapping_add s.generation 1)
  clear_slot_gen s = ground arith

  -- Every call succeeds on a valid table, and keeps it valid.
  pub apply_op-Bumps :
      (t : SlotTable A) (o : Op A)
      → IsValid t
      → (u : SlotTable A) × (apply_op t o ≡ done u) × IsValid u × Bumps t u
  unfolding apply_op
  apply_op-Bumps t (inserts v) h = elim (insert_cases t v h) [
    | inl (e, r) ↦ (
      (pushed_slot t v).0,
      rw r,
      pushed_slot-IsValid t v e h,
      λ i s at. (s, get_elem?-append_left t.slots _ i (lt-length t.slots i at) ∙ at, inl refl),
    )
    | inr (k, rest, x, e, at, hole, r) ↦ (
      (filled_hole t v k rest x).0,
      rw r,
      filled_hole-IsValid t v k rest x e at hole h,
      λ i s. bumps_set t k x (record x { value = some v }) i s at (inl refl),
    )
  ]
  apply_op-Bumps t (removes k) h = elim (remove_cases t k h) [
    | inl (e, r) ↦ (t, rw r, h, λ i s at. (s, at, inl refl))
    | inr (x, v, at, g, e, f, r) ↦ (
      removed t k.index x,
      rw r,
      removed-IsValid t k.index x v at e h,
      λ i s. bumps_set t k.index x _ i s at (inr refl),
    )
  ]
  apply_op-Bumps t (updates k f) h = (
    get_mut t k f,
    refl,
    (get-get_mut t k f h).0,
    elim (get_mut_cases t k f) [
      | inl (e, r) ↦ rw r (λ i s at. (s, at, inl refl))
      | inr (x, at, g, r) ↦ rw r (λ i s. bumps_set t k.index x _ i s at (inl refl))
    ],
  )
  apply_op-Bumps t clears h = (
    clear_reuse t,
    refl,
    clear_reuse-IsValid t,
    λ i s e.
        (clear_slot s, rw (clear_reuse_slots t) (get_elem?-clear t.slots i s e), clear_slot_gen s),
  )

  Within-step : (t u : SlotTable A) (i g n : ℕ) → Bumps t u → Within t i g n → Within u i g (suc n)
  Within-step t u i g n b (s, m, at, le, e) =
      let (s', at', d) = b i s at in
      elim d [
        | inl q ↦ (s', m, at', omega arith, q ∙ e)
        | inr q ↦ (s', suc m, at', omega arith, ground arith)
      ]

  run_ops-Within :
      (os : List (Op A)) (t : SlotTable A) (i g n : ℕ)
      → IsValid t
      → Within t i g n
      → (u : SlotTable A) × (run_ops t os ≡ done u) × IsValid u × Within u i g (n + length os)
  unfolding run_ops
  run_ops-Within [] t i g n h (s, m, at, le, e) = (t, refl, h, (s, m, at, omega arith, e))
  run_ops-Within (o ∷ os) t i g n h w =
      let (t', r, h', b) = apply_op-Bumps t o h in
      let (u, r', hu, (s, m, at, le, e)) =
        run_ops-Within os t' i g (suc n) h' (Within-step t t' i g n b w) in
      (u, rw r r', hu, (s, m, at, omega arith, e))

  -- From a valid table no sequence of calls panics, and the table at its end is valid.
  pub run_ops-IsValid :
      (t : SlotTable A) (os : List (Op A))
      → IsValid t
      → (u : SlotTable A) × (run_ops t os ≡ done u) × IsValid u
  unfolding run_ops
  run_ops-IsValid t [] h = (t, refl, h)
  run_ops-IsValid t (o ∷ os) h =
      let (t', r, h', b) = apply_op-Bumps t o h in
      let (u, r', hu) = run_ops-IsValid t' os h' in (u, rw r r', hu)

  get_other_generation :
      (w : SlotTable A) (k : SlotKey) (s : Slot A)
      → get_elem? w.slots k.index ≡ some s
      → s.generation ≢ k.generation
      → get w k ≡ none
  unfolding get
  get_other_generation w k s at ne = ground arith

  -- Once a key's value is removed, the key reads as nothing after any calls of which there are fewer
  -- than 2 ^ 32 - 1, though its slot may be filled again; and none of those calls panics.
  pub get-run_ops_removed :
      (t u : SlotTable A) (k : SlotKey) (v : A) (os : List (Op A))
      → IsValid t
      → k.generation < u32_mod
      → remove t k ≡ done (u, some v)
      → length os + 1 < u32_mod
      → (w : SlotTable A) × (run_ops u os ≡ done w) × (get w k ≡ none)
  get-run_ops_removed t u k v os h small r few = elim (remove_cases t k h) [
    | inl (e, r') ↦ cc
    | inr (s, x, at, g, e, f, r') ↦
        let same : removed t k.index s ≡ u = cc in
        let bumped : Slot A = record { generation = wrapping_add s.generation 1; value = none } in
        let start : Within u k.index (k.generation + 1) 0 = rw (← same) (
          bumped,
          0,
          get_elem?-set_self t.slots k.index bumped (lt-length t.slots k.index at),
          omega arith,
          ground arith,
        ) in
        let (w, ran, hw, (s', m, at', le, gen)) =
          run_ops-Within os u k.index (k.generation + 1) 0
            (rw (← same) (removed-IsValid t k.index s x at e h)) start in
        (w, ran, get_other_generation w k s' at' (omega arith))
  ]

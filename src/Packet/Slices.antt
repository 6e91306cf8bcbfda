-- ===== src/Packet/Slices.antt =====
-- src/job.rs: several typed slices of a packet, lent at once (`with_slices`), and groups of values (`slice_many_mut`).
-- A slice that is lent keeps its length; the packet does not become dirty by it.
pub mod Lends
pub mod Writes
pub mod Aliasing
use braids_rs.Base.{
  Bool, Bool-cases, List, Option-cases, Outcome, [], and_then, ap, append-nil, append_assoc, arith,
  done, false, get_elem?, if◌then◌else◌, inl, inr, length, map, none, or_panic, panic, refl, set,
  some, suc, sym, true, ℕ, ◌++◌, ◌==◌, ◌||◌, ◌∙◌, ◌∷◌, ◌≡◌, ◌⊎◌,
}
use braids_rs.Error.{
  invalid_spec, text, BraidError, BraidResult, ok, err, missing_buffer, invalid_buffer_type,
  from_text,
}
use braids_rs.Call.{Call}
use braids_rs.Pipeline.{data_kind, data_values}
use braids_rs.Pipeline.Kinds.{ElementKind, same_kind}
use braids_rs.Packet.{
  as_chunks, slice_mut, group_values, JobPacket, PacketBuffer, slot_index, typed_values, of_kind,
}
use braids_rs.Packet.Invariant.{IsValid}
use mathlib.Core.Path.{subst}

-- `*other == index` for one of those before
abbrev pub is_taken : ℕ → List ℕ → Bool
is_taken index [] = false
is_taken index (i ∷ is) = (i == index) || is_taken index is

-- The check of one slot, with the indices of those before it.
unfoldable pub index_slot : ElementKind → JobPacket → List ℕ → ℕ → Outcome (BraidResult ℕ)
unfolding slot_index
index_slot k p taken slot = elim (slot_index p slot) [
  | none ↦ done (err (missing_buffer slot))
  | some index ↦
      if is_taken index taken
      then done (err (from_text "duplicate typed buffer slot request"))
      else and_then (or_panic (get_elem? p.buffers index)) λ b.
        if same_kind (data_kind b.contents) k
        then done (ok index)
        else done (err (invalid_buffer_type slot k))
]

-- The first loop of `with_slices`.
unfoldable pub index_slots :
    ElementKind → JobPacket → List ℕ → List ℕ → Outcome (BraidResult (List ℕ))
unfolding index_slot
index_slots k p taken [] = done (ok taken)
index_slots k p taken (slot ∷ slots) = elim (index_slot k p taken slot) [
  | panic ↦ panic
  | done (err e) ↦ done (err e)
  | done (ok index) ↦ index_slots k p (taken ++ index ∷ []) slots
]

-- The second loop: the slices that are lent.
unfoldable pub lend : ElementKind → JobPacket → List ℕ → Outcome (List (List ℕ))
lend k p [] = done []
lend k p (index ∷ indices) = and_then (or_panic (get_elem? p.buffers index)) λ b.
    and_then (or_panic (typed_values k b.contents))
      λ vals. and_then (lend k p indices) λ rest. done (vals ∷ rest)

-- What the caller wrote into each.
unfoldable pub give_back_slices : ElementKind → List ℕ → List (List ℕ) → JobPacket → JobPacket
give_back_slices k [] views p = p
give_back_slices k (index ∷ indices) [] p = p
give_back_slices k (index ∷ indices) (vals ∷ views) p =
    give_back_slices k indices views (elim (get_elem? p.buffers index) [
      | none ↦ p
      | some b ↦ record p { buffers = set p.buffers index (record b { contents = of_kind k vals }) }
    ])

unfoldable pub with_slices :
    {R : Type 0}
    → ElementKind
    → JobPacket
    → List ℕ
    → (List (List ℕ) → Call R (List (List ℕ)))
    → Call R JobPacket
unfolding index_slots lend give_back_slices
with_slices k p slots f = elim (index_slots k p [] slots) [
  | panic ↦ (panic, p)
  | done (err e) ↦ (done (err e), p)
  | done (ok indices) ↦ elim (lend k p indices) [
    | panic ↦ (panic, p)
    | done views ↦ let (r, views') = f views in (r, give_back_slices k indices views' p)
  ]
]

abbrev pub joined : List (List ℕ) → List ℕ
joined [] = []
joined (g ∷ gs) = g ++ joined gs

-- What the caller writes into the groups, where nothing is left over.
unfoldable pub write_groups : ℕ → (List (List ℕ) → List (List ℕ)) → List ℕ → List ℕ
unfolding as_chunks
write_groups n write vals =
    let r = as_chunks n vals in if length r.1 == 0 then joined (write r.0) else vals

-- The packet is dirty even where no slice is lent.
unfoldable pub slice_many_mut :
    ElementKind
    → ℕ
    → JobPacket
    → ℕ
    → (List (List ℕ) → List (List ℕ))
    → Outcome (BraidResult (List (List ℕ)) × JobPacket)
unfolding slice_mut write_groups group_values
slice_many_mut k n p slot write =
    if n == 0
    then done (err (invalid_spec (text "slice_many_mut requires width greater than zero")), p)
    else and_then (slice_mut k (record p { is_dirty = true }) slot (write_groups n write))
        λ r. done (elim r.0 [ err e ↦ err e | ok vals ↦ group_values slot n vals ], r.1)

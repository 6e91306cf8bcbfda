-- ===== src/Packet/Views.antt =====
-- src/job.rs: the typed views of a packet, and clearing it for reuse.
use braids_rs.Base.{
  All, Bool-cases, List, Option, Option-cases, [], arith, done, false, get_elem?, if◌then◌else◌,
  inl, inr, map, none, refl, some, suc, zero, ℕ, ◌∷◌, ◌≡◌,
}
use braids_rs.Error.{BraidResult, ok, err, missing_buffer, invalid_buffer_type}
use braids_rs.Pipeline.Kinds.{ElementKind, same_kind}
use braids_rs.Pipeline.{BufferData, u32s, u64s, f32s, data_kind, data_values, data_len, clear_data}
use braids_rs.Packet.{
  JobPacket, PacketBuffer, slot_index, of_kind, slice, slice_mut, clear_for_reuse, clear_buffer,
  index_at,
}
use braids_rs.Packet.Invariant.{IsValid, put, contents, put-IsValid, buffer_of}
use mathlib.Core.Option

-- What a typed view of a slot gives, from what the slot holds.
abbrev pub view : ElementKind → ℕ → Option BufferData → BraidResult (List ℕ)
view k slot none = err (missing_buffer slot)
view k slot (some d) =
    if same_kind (data_kind d) k then ok (data_values d) else err (invalid_buffer_type slot k)

-- A slot is there exactly if the table has an index for it.
contents-known_slot :
    (p : JobPacket) (slot i : ℕ)
    → IsValid p
    → slot_index p slot ≡ some i
    → (b : PacketBuffer) × (get_elem? p.buffers i ≡ some b)
      × (b.slot ≡ slot)
      × (contents p slot ≡ some b.contents)
unfolding contents
contents-known_slot p slot i h at =
    let (b, found, name) = h.index_sound slot i at in (b, found, name, ground arith)

-- Where a slot holds something there is a buffer with it.
pub contents-found :
    (p : JobPacket) (slot : ℕ) (d : BufferData)
    → IsValid p
    → contents p slot ≡ some d
    → (i : ℕ) × (b : PacketBuffer) × (get_elem? p.buffers i ≡ some b)
      × (b.slot ≡ slot)
      × (b.contents ≡ d)
contents-found p slot d h e = elim (Option-cases (slot_index p slot)) [
  | inl q ↦ absurd (unfold contents in ground arith)
  | inr (i, q) ↦
      let (b, found, name, c) = contents-known_slot p slot i h q in
      (i, b, found, name, ground arith)
]

-- `slice` on a valid packet never panics: it gives the values of a slot of the asked kind, and
-- distinguishes a missing slot from one of another kind.
pub slice-view :
    (k : ElementKind) (p : JobPacket) (slot : ℕ)
    → IsValid p
    → slice k p slot ≡ done (view k slot (contents p slot))
unfolding slice
slice-view k p slot h = elim (Option-cases (slot_index p slot)) [
  | inl e ↦ unfold contents in ground arith
  | inr (i, e) ↦
      let (b, found, name, c) = contents-known_slot p slot i h e in
      rw (c, e, slice) (rw found (ground arith))
]

-- The packet after a mutable view: untouched where the view fails.
abbrev pub written :
    ElementKind → JobPacket → ℕ → (List ℕ → List ℕ) → BraidResult (List ℕ) → JobPacket
written k p slot write (ok vals) = put p slot (of_kind k (write vals))
written k p slot write (err e) = p

written-IsValid :
    (k : ElementKind) (p : JobPacket) (slot : ℕ) (write : List ℕ → List ℕ)
    (r : BraidResult (List ℕ))
    → IsValid p
    → IsValid (written k p slot write r)
written-IsValid k p slot write (ok vals) h = put-IsValid p slot (of_kind k (write vals)) h
written-IsValid k p slot write (err e) h = h

slice_mut_found :
    (k : ElementKind) (p : JobPacket) (slot i : ℕ) (write : List ℕ → List ℕ) (d : BufferData)
    → slot_index p slot ≡ some i
    → get_elem? p.buffers i ≡ some (buffer_of slot d)
    → slice_mut k p slot write
      ≡ done (view k slot (some d), written k p slot write (view k slot (some d)))
unfolding slice_mut put
slice_mut_found k p slot i write d at found = elim (Bool-cases (same_kind (data_kind d) k)) [
  | inl q ↦ rw (at, slice_mut) (rw found (rw q (rw (at, put))))
  | inr q ↦ rw (at, slice_mut) (rw found (rw q))
]

-- `slice_mut` on a valid packet gives what `slice` gives, and leaves a valid packet. Where it succeeds
-- the slot holds what the caller wrote, as data of the same kind; where it fails nothing is changed.
pub slice_mut-view :
    (k : ElementKind) (p : JobPacket) (slot : ℕ) (write : List ℕ → List ℕ)
    → IsValid p
    → (slice_mut k p slot write
        ≡ done
            (view k slot (contents p slot), written k p slot write (view k slot (contents p slot))))
      × IsValid (written k p slot write (view k slot (contents p slot)))
unfolding slice_mut
slice_mut-view k p slot write h = (
  elim (Option-cases (slot_index p slot)) [
    | inl e ↦ unfold contents in ground arith
    | inr (i, e) ↦
        let (b, found, name, c) = contents-known_slot p slot i h e in
        rw c (slice_mut_found k p slot i write b.contents e (ground arith))
  ],
  written-IsValid k p slot write _ h,
)

clear-All : (bs : List PacketBuffer) → All (λ b. data_len b.contents ≡ 0) (map clear_buffer bs)
clear-All [] = tt
clear-All (b ∷ bs) = (ground arith, clear-All bs)

cleared_index :
    (bs : List PacketBuffer) (i : ℕ)
    → get_elem? (map clear_buffer bs) i ≡ Option.map clear_buffer (get_elem? bs i)
cleared_index [] i = refl
cleared_index (b ∷ bs) zero = refl
cleared_index (b ∷ bs) (suc i) = cleared_index bs i

empty_cleared : (d : BufferData) → data_len d ≡ 0 → clear_data d ≡ d
empty_cleared (u32s []) e = refl
empty_cleared (u64s []) e = refl
empty_cleared (f32s []) e = refl
empty_cleared (u32s (v ∷ vs)) e = absurd (omega arith)
empty_cleared (u64s (v ∷ vs)) e = absurd (omega arith)
empty_cleared (f32s (v ∷ vs)) e = absurd (omega arith)

clear_empty :
    (bs : List PacketBuffer) → All (λ b. data_len b.contents ≡ 0) bs → map clear_buffer bs ≡ bs
clear_empty [] a = refl
clear_empty (b ∷ bs) a = ground (arith, empty_cleared b.contents a.0, clear_empty bs a.1)

-- What clearing a valid packet amounts to, whether the packet was dirty or not.
clear_for_reuse_eq :
    (p : JobPacket)
    → IsValid p
    → clear_for_reuse p
      ≡ record p { query_count = 0; buffers = map clear_buffer p.buffers; is_dirty = false }
unfolding clear_for_reuse
clear_for_reuse_eq p h = elim (Bool-cases p.is_dirty) [
  | inl q ↦ ground arith
  | inr q ↦ ground (arith, clear_empty p.buffers (h.clean_empty q))
]

abbrev cleared : JobPacket → JobPacket
cleared p = record p { query_count = 0; buffers = map clear_buffer p.buffers; is_dirty = false }

cleared-IsValid : (p : JobPacket) → IsValid p → IsValid (cleared p)
unfolding slot_index
cleared-IsValid p h = record {
  index_sound = sound;
  index_complete = complete;
  clean_empty = λ e. clear-All p.buffers;
}
  where
    sound :
        (s j : ℕ)
        → slot_index p s ≡ some j
        → (b : PacketBuffer) × (get_elem? (map clear_buffer p.buffers) j ≡ some b) × (b.slot ≡ s)
    sound s j e =
        let (b, found, name) = h.index_sound s j e in
        (clear_buffer b, ground (arith, cleared_index p.buffers j), name)

    complete :
        (j : ℕ) (b : PacketBuffer)
        → get_elem? (map clear_buffer p.buffers) j ≡ some b
        → slot_index p b.slot ≡ some j
    complete j b e = elim (Option-cases (get_elem? p.buffers j)) [
      | inl q ↦ absurd (ground (arith, cleared_index p.buffers j))
      | inr (c, q) ↦ ground (arith, cleared_index p.buffers j, h.index_complete j c q)
    ]

contents-cleared :
    (p : JobPacket) (s : ℕ) → contents (cleared p) s ≡ Option.map clear_data (contents p s)
unfolding contents slot_index
contents-cleared p s = elim (Option-cases (index_at p.slot_indices s)) [
  | inl e ↦ ground arith
  | inr (i, e) ↦ ground (arith, cleared_index p.buffers i)
]

-- Clearing a valid packet leaves a valid one that counts no query, with the same slots, each of its old
-- kind and empty. The dirty flag is only an optimisation: the result does not depend on it.
pub clear_for_reuse_lem :
    (p : JobPacket)
    → IsValid p
    → IsValid (clear_for_reuse p)
      × ((clear_for_reuse p).query_count ≡ 0)
      × ((s : ℕ) → contents (clear_for_reuse p) s ≡ Option.map clear_data (contents p s))
clear_for_reuse_lem p h =
    rw (clear_for_reuse_eq p h) (cleared-IsValid p h, refl, contents-cleared p)

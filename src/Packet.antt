-- ===== src/Packet.antt =====
-- src/job.rs: the job packet, a reusable set of typed buffers that planner and backend share.
-- A borrow that the caller writes through is an argument `write` of the model's operation: what the
-- caller makes of the values. The element type `T` of the source is its `ElementKind`.
pub mod Invariant
pub mod Contents
pub mod Views
pub mod Check
pub mod Groups
pub mod Slices
mod Examples
use braids_rs.Base.{
  ℕ, zero, suc, ◌+◌, ◌-◌, ◌≤◌, Bool, true, false, not, Option, none, some, List, [], ◌∷◌, ◌++◌, map,
  ◌==◌, ltb, leb, if◌then◌else◌, length, get_elem?, set, take, drop, replicate, Outcome, done,
  panic, and_then, or_panic,
}
use braids_rs.Error.{
  BraidError, BraidResult, ok, err, ◌>>=◌, ◌>>◌, missing_buffer, invalid_buffer_type, invalid_spec,
  text, not_divisible, undeclared_packet_slot, from_text,
}
use braids_rs.Pipeline.Kinds.{ElementKind, u32, u64, f32, same_kind}
use braids_rs.Pipeline.{
  find_spec, BufferData, u32s, u64s, f32s, empty_data, data_kind, clear_data, data_values, data_len,
  BufferSpec, CompiledPlan, validate_len, StaticBuffer,
}

pub record PacketBuffer : Type 0 where
  pub slot : ℕ
  pub contents : BufferData

pub record JobPacket : Type 0 where
  pub query_count : ℕ
  pub buffers : List PacketBuffer
  pub slot_indices : List (Option ℕ)
  pub is_dirty : Bool

-- `JobPacket::default`
unfoldable pub new_packet : JobPacket
new_packet = record { query_count = 0; buffers = []; slot_indices = []; is_dirty = false }

-- `PacketElement::get`, and the vector that `get_mut` lends, with what was written.
abbrev pub typed_values : ElementKind → BufferData → Option (List ℕ)
typed_values k d = if same_kind (data_kind d) k then some (data_values d) else none

abbrev pub of_kind : ElementKind → List ℕ → BufferData
of_kind u32 vals = u32s vals
of_kind u64 vals = u64s vals
of_kind f32 vals = f32s vals

abbrev pub clear_buffer : PacketBuffer → PacketBuffer
clear_buffer b = record b { contents = clear_data b.contents }

unfoldable pub clear_for_reuse : JobPacket → JobPacket
clear_for_reuse p =
    if not p.is_dirty
    then record p { query_count = 0 }
    else record p { query_count = 0; buffers = map clear_buffer p.buffers; is_dirty = false }

-- `get(..).copied().flatten()`
abbrev pub index_at : List (Option ℕ) → ℕ → Option ℕ
index_at [] s = none
index_at (i ∷ is) zero = i
index_at (i ∷ is) (suc s) = index_at is s

unfoldable pub slot_index : JobPacket → ℕ → Option ℕ
slot_index p slot = index_at p.slot_indices slot

-- `Vec::resize` and `Vec::resize_with`, for a filler that is always the same.
abbrev pub resize {ℓ} : {A : Type ℓ} → ℕ → A → List A → List A
resize n a xs = take n xs ++ replicate (n - length xs) a

unfoldable pub record_slot_index : JobPacket → ℕ → ℕ → JobPacket
record_slot_index p slot index =
    let indices =
      if leb (length p.slot_indices) slot
      then resize (slot + 1) none p.slot_indices
      else p.slot_indices in
    record p { slot_indices = set indices slot (some index) }

abbrev pub retype : ElementKind → PacketBuffer → PacketBuffer
retype k b = if same_kind (data_kind b.contents) k then b else record b { contents = empty_data k }

-- The branch of `ensure_slot` for a slot that has a buffer.
reuse_slot : JobPacket → ElementKind → ℕ → Outcome (JobPacket × ℕ)
reuse_slot p k idx =
    and_then (or_panic (get_elem? p.buffers idx))
      λ b. done (record p { buffers = set p.buffers idx (retype k b) }, idx)

-- The branch for a new one.
add_slot : JobPacket → ℕ → ElementKind → JobPacket × ℕ
add_slot p slot k =
    let index = length p.buffers in
    let grown = record p {
      buffers = p.buffers ++ record { slot = slot; contents = empty_data k } ∷ [];
    } in
    (record_slot_index grown slot index, index)

unfoldable pub ensure_slot : JobPacket → ℕ → ElementKind → Outcome (JobPacket × ℕ)
unfolding slot_index reuse_slot add_slot
ensure_slot p slot k = elim (slot_index p slot) [
  | some idx ↦ reuse_slot p k idx
  | none ↦ done (add_slot p slot k)
]

-- `values.resize_with(..)`, and what the caller writes into the vector that is lent.
abbrev pub fill_buffer : ElementKind → ℕ → (List ℕ → List ℕ) → PacketBuffer → Outcome PacketBuffer
fill_buffer k len write b =
    and_then (or_panic (typed_values k b.contents))
      λ vals. done (record b { contents = of_kind k (write (resize len 0 vals)) })

-- `ensure`, once its slot is there.
unfoldable pub finish_ensure :
    ElementKind → ℕ → (List ℕ → List ℕ) → JobPacket × ℕ → Outcome JobPacket
finish_ensure k len write (q, idx) = and_then (or_panic (get_elem? q.buffers idx)) λ b.
    and_then (fill_buffer k len write b)
      λ b'. done (record q { buffers = set q.buffers idx b'; is_dirty = true })

unfoldable pub ensure : ElementKind → JobPacket → ℕ → ℕ → (List ℕ → List ℕ) → Outcome JobPacket
unfolding ensure_slot finish_ensure
ensure k p slot len write = and_then (ensure_slot p slot k) (finish_ensure k len write)

-- `copy_from_slice` overwrites the whole of a slice of the same length.
unfoldable pub load_static_buffer : JobPacket → ℕ → BufferData → Outcome JobPacket
unfolding ensure
load_static_buffer p slot d = ensure (data_kind d) p slot (data_len d) (λ _. data_values d)

-- `slice`: the index is in the table of slots, and the buffer must be there.
unfoldable pub slice : ElementKind → JobPacket → ℕ → Outcome (BraidResult (List ℕ))
unfolding slot_index
slice k p slot = elim (slot_index p slot) [
  | none ↦ done (err (missing_buffer slot))
  | some idx ↦ and_then (or_panic (get_elem? p.buffers idx)) λ b. elim (typed_values k b.contents) [
    | none ↦ done (err (invalid_buffer_type slot k))
    | some vals ↦ done (ok vals)
  ]
]

-- `slice_mut`: the packet is dirty once the slice is lent.
unfoldable pub slice_mut :
    ElementKind → JobPacket → ℕ → (List ℕ → List ℕ) → Outcome (BraidResult (List ℕ) × JobPacket)
unfolding slot_index
slice_mut k p slot write = elim (slot_index p slot) [
  | none ↦ done (err (missing_buffer slot), p)
  | some idx ↦ and_then (or_panic (get_elem? p.buffers idx)) λ b. elim (typed_values k b.contents) [
    | none ↦ done (err (invalid_buffer_type slot k), p)
    | some vals ↦ done (
      ok vals,
      record p {
        buffers = set p.buffers idx (record b { contents = of_kind k (write vals) });
        is_dirty = true;
      },
    )
  ]
]

-- `as_chunks`: the groups of `n`, and what is left over. The fuel bounds the number of groups.
unfoldable pub chunks_from {ℓ} : {A : Type ℓ} → ℕ → ℕ → List A → List (List A) × List A
chunks_from zero n xs = ([], xs)
chunks_from (suc fuel) n xs =
    let rest = chunks_from fuel n (drop n xs) in
    if ltb (length xs) n then ([], xs) else (take n xs ∷ rest.0, rest.1)

unfoldable pub as_chunks {ℓ} : {A : Type ℓ} → ℕ → List A → List (List A) × List A
unfolding chunks_from
as_chunks n xs = chunks_from (length xs) n xs

unfoldable pub group_values : ℕ → ℕ → List ℕ → BraidResult (List (List ℕ))
group_values slot n vals =
    let r = as_chunks n vals in
    if length r.1 == 0 then ok r.0 else err (invalid_spec (not_divisible slot (length vals) n))

abbrev pub and_try :
    {A B : Type 0}
    → Outcome (BraidResult A)
    → (A → Outcome (BraidResult B))
    → Outcome (BraidResult B)
and_try (done (ok a)) f = f a
and_try (done (err e)) f = done (err e)
and_try panic f = panic

unfoldable pub slice_many : ElementKind → ℕ → JobPacket → ℕ → Outcome (BraidResult (List (List ℕ)))
unfolding slice as_chunks group_values
slice_many k n p slot =
    if n == 0
    then done (err (invalid_spec (text "slice_many requires width greater than zero")))
    else and_try (slice k p slot) (λ vals. done (group_values slot n vals))

-- src/pipeline.rs: the check of one buffer, and the loop of `validate_packet`.
unfoldable pub check_buffer : List BufferSpec → ℕ → PacketBuffer → BraidResult (Unit {0})
check_buffer specs query_count b = elim (find_spec b.slot specs) [
  | none ↦
      if data_len b.contents == 0 then ok tt else err (invalid_spec (undeclared_packet_slot b.slot))
  | some spec ↦
      if same_kind spec.element_kind (data_kind b.contents)
      then validate_len spec query_count (data_len b.contents)
      else err (invalid_buffer_type b.slot spec.element_kind)
]

unfoldable pub check_buffers : List BufferSpec → ℕ → List PacketBuffer → BraidResult (Unit {0})
unfolding check_buffer
check_buffers specs query_count [] = ok tt
check_buffers specs query_count (b ∷ bs) =
    check_buffer specs query_count b >> check_buffers specs query_count bs

unfoldable pub validate_packet : {M : Type 0} → CompiledPlan M → JobPacket → BraidResult (Unit {0})
unfolding check_buffers
validate_packet plan p = check_buffers plan.pipeline.buffers p.query_count p.buffers

-- ===== src/Packet/Contents.antt =====
-- src/job.rs: the packet as a map from slots to typed values.
use braids_rs.Base.{
  ==-refl, Bool-cases, List, Option, Option-cases, [], ap, arith, done, get_elem?, get_elem?-push,
  get_elem?-set_ne, get_elem?-set_self, if◌then◌else◌, inl, inr, length, lt-length, none, refl, set,
  set-append_length, set-set, some, true, ℕ, ◌++◌, ◌==◌, ◌∙◌, ◌∷◌, ◌≡◌, ◌≢◌,
}
use braids_rs.Pipeline.Kinds.{ElementKind, same_kind, u32}
use braids_rs.Pipeline.{BufferData, data_kind, data_values, empty_data, u32s}
use braids_rs.Packet.{
  JobPacket, PacketBuffer, slot_index, ensure, ensure_slot, retype, of_kind, typed_values, resize,
  record_slot_index, finish_ensure, load_static_buffer, u32s, data_len,
}
use braids_rs.Packet.Invariant.{
  IsValid, put, contents, buffer_of, known_packet, grown_packet, slot_index-grown, grown_buffers,
  pushed_packet, put-IsValid,
}

contents-known :
    (p : JobPacket) (i slot s : ℕ) (d : BufferData)
    → IsValid p
    → slot_index p slot ≡ some i
    → contents (known_packet p i slot d) s ≡ (if slot == s then some d else contents p s)
unfolding contents slot_index
contents-known p i slot s d h at =
    let (c, found, name) = h.index_sound slot i at in
    let written = get_elem?-set_self p.buffers i (buffer_of slot d) (lt-length p.buffers i found) in
    elim (Bool-cases (slot == s)) [
      | inl q ↦ ground (arith, written)
      | inr q ↦ elim (Option-cases (slot_index p s)) [
        | inl e ↦ ground (arith, e)
        | inr (j, e) ↦
            let (b, found', name') = h.index_sound s j e in
            let apart : i ≢ j = ground arith in
            ground (arith, get_elem?-set_ne p.buffers i j (buffer_of slot d) apart)
      ]
    ]

contents-grown :
    (p : JobPacket) (slot s : ℕ) (d : BufferData)
    → IsValid p
    → slot_index p slot ≡ none
    → contents (grown_packet p slot d) s ≡ (if slot == s then some d else contents p s)
unfolding contents
contents-grown p slot s d h at = elim (Bool-cases (slot == s)) [
  | inl q ↦ ground (
    arith,
    slot_index-grown p slot s d,
    grown_buffers p slot d,
    get_elem?-push p.buffers (buffer_of slot d) (length p.buffers),
  )
  | inr q ↦ elim (Option-cases (slot_index p s)) [
    | inl e ↦ ground (arith, e, slot_index-grown p slot s d)
    | inr (j, e) ↦
        let (b, found, name) = h.index_sound s j e in
        ground (
          arith,
          e,
          slot_index-grown p slot s d,
          grown_buffers p slot d,
          lt-length p.buffers j found,
          get_elem?-push p.buffers (buffer_of slot d) j,
        )
  ]
]

-- After a write the slot has the new data, and every other slot has what it had.
pub contents-put :
    (p : JobPacket) (slot s : ℕ) (d : BufferData)
    → IsValid p
    → contents (put p slot d) s ≡ (if slot == s then some d else contents p s)
unfolding put
contents-put p slot s d h = elim (Option-cases (slot_index p slot)) [
  | inl e ↦ rw (e, put) (contents-grown p slot s d h e)
  | inr (i, e) ↦ rw (e, put) (contents-known p i slot s d h e)
]

-- The values of a kind that a slot holds: none where it holds another kind, or nothing.
abbrev pub old_values : ElementKind → Option BufferData → List ℕ
old_values k none = []
old_values k (some d) = if same_kind (data_kind d) k then data_values d else []

same_kind_refl : (k : ElementKind) → same_kind k k ≡ true
same_kind_refl u32 = refl
same_kind_refl _ = refl

of_kind_kind : (k : ElementKind) (vals : List ℕ) → data_kind (of_kind k vals) ≡ k
of_kind_kind u32 vals = refl
of_kind_kind _ vals = refl

typed_retype :
    (k : ElementKind) (b : PacketBuffer)
    → typed_values k (retype k b).contents ≡ some (old_values k (some b.contents))
typed_retype u32 b = ground arith
typed_retype _ b = ground arith

slot-retype : (k : ElementKind) (b : PacketBuffer) → (retype k b).slot ≡ b.slot
slot-retype k b = ground arith

-- What `ensure` writes.
abbrev pub ensured : ElementKind → ℕ → (List ℕ → List ℕ) → Option BufferData → BufferData
ensured k len write old = of_kind k (write (resize len 0 (old_values k old)))

finish_ensure_lem :
    (k : ElementKind) (len : ℕ) (write : List ℕ → List ℕ) (q : JobPacket) (i : ℕ) (b : PacketBuffer)
    (vals : List ℕ)
    → get_elem? q.buffers i ≡ some b
    → typed_values k b.contents ≡ some vals
    → finish_ensure k len write (q, i)
      ≡ done (record q {
        buffers = set q.buffers i (buffer_of b.slot (of_kind k (write (resize len 0 vals))));
        is_dirty = true;
      })
unfolding finish_ensure
finish_ensure_lem k len write q i b vals found typed = rw (found, typed)

ensure_slot-known :
    (k : ElementKind) (p : JobPacket) (slot i : ℕ) (b : PacketBuffer)
    → slot_index p slot ≡ some i
    → get_elem? p.buffers i ≡ some b
    → ensure_slot p slot k ≡ done (record p { buffers = set p.buffers i (retype k b) }, i)
unfolding ensure_slot
ensure_slot-known k p slot i b at found = rw (at, ensure_slot) (rw found)

ensure-known :
    (k : ElementKind) (p : JobPacket) (slot len i : ℕ) (write : List ℕ → List ℕ)
    → IsValid p
    → slot_index p slot ≡ some i
    → ensure k p slot len write
      ≡ done (known_packet p i slot (ensured k len write (contents p slot)))
unfolding ensure
ensure-known k p slot len i write h at =
    let (b, found, name) = h.index_sound slot i at in
    let old : contents p slot ≡ some b.contents = unfold contents in ground arith in
    rw (ensure_slot-known k p slot i b at found) (
      rw old (
        finish_ensure_lem k len write (record p { buffers = set p.buffers i (retype k b) }) i
          (retype k b) _ (get_elem?-set_self p.buffers i (retype k b) (lt-length p.buffers i found))
          (typed_retype k b)
        ∙ rw (set-set p.buffers i (retype k b), slot-retype k b, name)))

abbrev grown_empty : JobPacket → ℕ → ElementKind → JobPacket
grown_empty p slot k =
    record_slot_index (pushed_packet p slot (empty_data k)) slot (length p.buffers)

ensure_slot-new :
    (k : ElementKind) (p : JobPacket) (slot : ℕ)
    → slot_index p slot ≡ none
    → ensure_slot p slot k ≡ done (grown_empty p slot k, length p.buffers)
unfolding ensure_slot
ensure_slot-new k p slot at = rw (at, ensure_slot)

typed_empty : (k : ElementKind) → typed_values k (empty_data k) ≡ some []
typed_empty u32 = refl
typed_empty _ = refl

grown_empty_buffers :
    (k : ElementKind) (p : JobPacket) (slot : ℕ)
    → (grown_empty p slot k).buffers ≡ p.buffers ++ buffer_of slot (empty_data k) ∷ []
unfolding record_slot_index
grown_empty_buffers k p slot = refl

grown_empty-set :
    (k : ElementKind) (p : JobPacket) (slot : ℕ) (d : BufferData)
    → record (grown_empty p slot k) {
      buffers = set (grown_empty p slot k).buffers (length p.buffers) (buffer_of slot d);
      is_dirty = true;
    }
      ≡ grown_packet p slot d
unfolding record_slot_index
grown_empty-set k p slot d =
    rw (set-append_length p.buffers (buffer_of slot (empty_data k)) (buffer_of slot d))

ensure-new :
    (k : ElementKind) (p : JobPacket) (slot len : ℕ) (write : List ℕ → List ℕ)
    → slot_index p slot ≡ none
    → ensure k p slot len write ≡ done (grown_packet p slot (ensured k len write (contents p slot)))
unfolding ensure
ensure-new k p slot len write at =
    let old : contents p slot ≡ none = unfold contents in ground arith in
    rw (ensure_slot-new k p slot at) (
      rw old (
        finish_ensure_lem k len write (grown_empty p slot k) (length p.buffers)
          (buffer_of slot (empty_data k)) []
          (rw (
            grown_empty_buffers k p slot,
            get_elem?-push p.buffers (buffer_of slot (empty_data k)) (length p.buffers),
            ==-refl (length p.buffers),
          ))
          (typed_empty k)
        ∙ ap done (grown_empty-set k p slot (ensured k len write none))))

query_count-put :
    (p : JobPacket) (slot : ℕ) (d : BufferData) → (put p slot d).query_count ≡ p.query_count
unfolding put record_slot_index
query_count-put p slot d = ground arith

pub ensure-put :
    (k : ElementKind) (p : JobPacket) (slot len : ℕ) (write : List ℕ → List ℕ)
    → IsValid p
    → ensure k p slot len write ≡ done (put p slot (ensured k len write (contents p slot)))
unfolding put
ensure-put k p slot len write h = elim (Option-cases (slot_index p slot)) [
  | inl e ↦ rw (e, put) (ensure-new k p slot len write e)
  | inr (i, e) ↦ rw (e, put) (ensure-known k p slot len i write h e)
]

-- `ensure` never panics on a valid packet. It leaves a valid packet with the same query count, in which
-- the slot has the asked kind and holds what the caller makes of its old values of that kind, cut or
-- filled up with zeros to the asked length, and in which every other slot is as it was.
pub ensure_lem :
    (k : ElementKind) (p : JobPacket) (slot len : ℕ) (write : List ℕ → List ℕ)
    → IsValid p
    → (q : JobPacket) × (ensure k p slot len write ≡ done q)
      × IsValid q
      × (q.query_count ≡ p.query_count)
      × ((s : ℕ)
          → contents q s
            ≡ (if slot == s then some (ensured k len write (contents p slot)) else contents p s))
ensure_lem k p slot len write h =
    let d = ensured k len write (contents p slot) in
    (
      put p slot d,
      ensure-put k p slot len write h,
      put-IsValid p slot d h,
      query_count-put p slot d,
      λ s. contents-put p slot s d h,
    )

of_own_kind : (d : BufferData) → of_kind (data_kind d) (data_values d) ≡ d
of_own_kind (u32s vals) = refl
of_own_kind _ = refl

-- Loading a static buffer into a valid packet makes its slot hold the very data, and changes no other.
pub load_static_buffer_lem :
    (p : JobPacket) (slot : ℕ) (d : BufferData)
    → IsValid p
    → (q : JobPacket) × (load_static_buffer p slot d ≡ done q)
      × IsValid q
      × (q.query_count ≡ p.query_count)
      × ((s : ℕ) → contents q s ≡ (if slot == s then some d else contents p s))
unfolding load_static_buffer
load_static_buffer_lem p slot d h =
    let (q, r, v, c, l) = ensure_lem (data_kind d) p slot (data_len d) (λ _. data_values d) h in
    (q, r, v, c, λ s. l s ∙ ap (λ e. if slot == s then some e else contents p s) (of_own_kind d))

-- ===== src/Packet/Invariant.antt =====
-- src/job.rs: what holds of a packet between two calls, and what every write to it amounts to.
use braids_rs.Packet.{
  JobPacket, PacketBuffer, slot_index, index_at, record_slot_index, resize, new_packet, ℕ, List,
  Option, replicate, length, ◌≤◌, none,
}
use braids_rs.Pipeline.{BufferData, data_len}
use braids_rs.Base.{
  All, Bool-cases, List, Option, Option-cases, [], arith, false, get_elem?, get_elem?-append_left,
  get_elem?-push, get_elem?-set_ne, get_elem?-set_self, if◌then◌else◌, inl, inr, leb, length,
  length-append, length-replicate, lt-length, ne_of_==, none, refl, replicate, set, some, suc, take,
  true, zero, ℕ, ◌++◌, ◌+◌, ◌-◌, ◌<◌, ◌==◌, ◌∙◌, ◌∷◌, ◌≡◌, ◌≤◌, sym,
}

-- The table of slots and the buffers name one another, and a packet that is not dirty is empty.
pub record IsValid (p : JobPacket) : Type 0 where
  pub index_sound :
      (s i : ℕ)
      → slot_index p s ≡ some i
      → (b : PacketBuffer) × (get_elem? p.buffers i ≡ some b) × (b.slot ≡ s)
  pub index_complete :
      (i : ℕ) (b : PacketBuffer) → get_elem? p.buffers i ≡ some b → slot_index p b.slot ≡ some i
  pub clean_empty : p.is_dirty ≡ false → All (λ b. data_len b.contents ≡ 0) p.buffers

index_at-set :
    (is : List (Option ℕ)) (s s' : ℕ) (i : Option ℕ)
    → s < length is
    → index_at (set is s i) s' ≡ (if s == s' then i else index_at is s')
index_at-set [] s s' i h = elim h [ ]
index_at-set (x ∷ is) zero zero i h = ground arith
index_at-set (x ∷ is) zero (suc s') i h = ground arith
index_at-set (x ∷ is) (suc s) zero i h = ground arith
index_at-set (x ∷ is) (suc s) (suc s') i h = ground (arith, index_at-set is s s' i (omega arith))

index_at-replicate : (n s : ℕ) → index_at (replicate n none) s ≡ none
index_at-replicate zero s = refl
index_at-replicate (suc n) zero = refl
index_at-replicate (suc n) (suc s) = index_at-replicate n s

index_at-take :
    (is : List (Option ℕ)) (n m s : ℕ)
    → length is ≤ n
    → index_at (take n is ++ replicate m none) s ≡ index_at is s
index_at-take [] zero m s h = index_at-replicate m s
index_at-take [] (suc n) m s h = index_at-replicate m s
index_at-take (x ∷ is) zero m s h = absurd (omega arith)
index_at-take (x ∷ is) (suc n) m zero h = refl
index_at-take (x ∷ is) (suc n) m (suc s) h = index_at-take is n m s (omega arith)

length-take_le {ℓ} : {A : Type ℓ} (xs : List A) (n : ℕ) → length (take n xs) + (n - length xs) ≡ n
length-take_le [] zero = omega arith
length-take_le [] (suc n) = omega arith
length-take_le (x ∷ xs) zero = omega arith
length-take_le (x ∷ xs) (suc n) = omega (arith, length-take_le xs n)

pub length-resize {ℓ} : {A : Type ℓ} (xs : List A) (n : ℕ) (a : A) → length (resize n a xs) ≡ n
length-resize xs n a = omega (
  arith,
  length-append (take n xs) (replicate (n - length xs) a),
  length-replicate (n - length xs) a,
  length-take_le xs n,
)

-- The table after `record_slot_index`: one slot has the new index, the others their old ones.
pub slot_index-record :
    (p : JobPacket) (slot i s : ℕ)
    → slot_index (record_slot_index p slot i) s ≡ (if slot == s then some i else slot_index p s)
unfolding slot_index record_slot_index
slot_index-record p slot i s = elim (Bool-cases (leb (length p.slot_indices) slot)) [
  | inl q ↦ rw q (
      index_at-set (resize (slot + 1) none p.slot_indices) slot s (some i)
        (omega (arith, length-resize p.slot_indices (slot + 1) none))
      ∙ ground
          (arith, index_at-take p.slot_indices (slot + 1) (slot + 1 - length p.slot_indices) s))
  | inr q ↦ rw q (index_at-set p.slot_indices slot s (some i) (ground arith))
]

-- What a slot holds.
unfoldable pub contents : JobPacket → ℕ → Option BufferData
contents p slot = elim (slot_index p slot) [
  | none ↦ none
  | some i ↦ elim (get_elem? p.buffers i) [ none ↦ none | some b ↦ some b.contents ]
]

abbrev pub buffer_of : ℕ → BufferData → PacketBuffer
buffer_of slot d = record { slot = slot; contents = d }

-- The packet with the data of a slot set, which is what every write leaves: the buffer `i` of the slot
-- is replaced, or a new one is added.
abbrev pub known_packet : JobPacket → ℕ → ℕ → BufferData → JobPacket
known_packet p i slot d = record p { buffers = set p.buffers i (buffer_of slot d); is_dirty = true }

abbrev pub pushed_packet : JobPacket → ℕ → BufferData → JobPacket
pushed_packet p slot d = record p { buffers = p.buffers ++ buffer_of slot d ∷ [] }

abbrev pub grown_packet : JobPacket → ℕ → BufferData → JobPacket
grown_packet p slot d =
    record (record_slot_index (pushed_packet p slot d) slot (length p.buffers)) { is_dirty = true }

unfoldable pub put : JobPacket → ℕ → BufferData → JobPacket
put p slot d = elim (slot_index p slot) [
  | some i ↦ known_packet p i slot d
  | none ↦ grown_packet p slot d
]

pub new_packet-IsValid : IsValid new_packet
unfolding new_packet slot_index
new_packet-IsValid = record {
  index_sound = λ s i e. cc;
  index_complete = λ i b e. cc;
  clean_empty = λ e. tt;
}

known_packet-IsValid :
    (p : JobPacket) (i slot : ℕ) (d : BufferData)
    → IsValid p
    → slot_index p slot ≡ some i
    → IsValid (known_packet p i slot d)
unfolding slot_index
known_packet-IsValid p i slot d h at = record {
  index_sound = sound;
  index_complete = complete;
  clean_empty = λ e. absurd (cc);
}
  where
    sound :
        (s j : ℕ)
        → slot_index p s ≡ some j
        → (b : PacketBuffer) × (get_elem? (set p.buffers i (buffer_of slot d)) j ≡ some b)
          × (b.slot ≡ s)
    sound s j e =
        let (b, found, name) = h.index_sound s j e in
        let (c, found', name') = h.index_sound slot i at in
        elim (Bool-cases (i == j)) [
          | inl q ↦ (
            buffer_of slot d,
            ground (
              arith,
              get_elem?-set_self p.buffers i (buffer_of slot d) (lt-length p.buffers i found'),
            ),
            ground arith,
          )
          | inr q ↦
              (b, get_elem?-set_ne p.buffers i j (buffer_of slot d) (ne_of_== i j q) ∙ found, name)
        ]

    complete :
        (j : ℕ) (b : PacketBuffer)
        → get_elem? (set p.buffers i (buffer_of slot d)) j ≡ some b
        → slot_index p b.slot ≡ some j
    complete j b e =
        let (c, found', name') = h.index_sound slot i at in
        elim (Bool-cases (i == j)) [
          | inl q ↦ ground (
            arith,
            get_elem?-set_self p.buffers i (buffer_of slot d) (lt-length p.buffers i found'),
          )
          | inr q ↦
              h.index_complete j b
                (sym (get_elem?-set_ne p.buffers i j (buffer_of slot d) (ne_of_== i j q)) ∙ e)
        ]

pub slot_index-grown :
    (p : JobPacket) (slot s : ℕ) (d : BufferData)
    → slot_index (grown_packet p slot d) s
      ≡ (if slot == s then some (length p.buffers) else slot_index p s)
unfolding slot_index
slot_index-grown p slot s d = slot_index-record (pushed_packet p slot d) slot (length p.buffers) s

pub grown_buffers :
    (p : JobPacket) (slot : ℕ) (d : BufferData)
    → (grown_packet p slot d).buffers ≡ p.buffers ++ buffer_of slot d ∷ []
unfolding record_slot_index
grown_buffers p slot d = refl

grown_packet-IsValid :
    (p : JobPacket) (slot : ℕ) (d : BufferData)
    → IsValid p
    → slot_index p slot ≡ none
    → IsValid (grown_packet p slot d)
grown_packet-IsValid p slot d h at = record {
  index_sound = sound;
  index_complete = complete;
  clean_empty = λ e. absurd (cc);
}
  where
    sound :
        (s j : ℕ)
        → slot_index (grown_packet p slot d) s ≡ some j
        → (b : PacketBuffer) × (get_elem? (grown_packet p slot d).buffers j ≡ some b) × (b.slot ≡ s)
    sound s j e = rw (grown_buffers p slot d) (elim (Bool-cases (slot == s)) [
      | inl q ↦ (
        buffer_of slot d,
        ground (arith, slot_index-grown p slot s d, get_elem?-push p.buffers (buffer_of slot d) j),
        ground arith,
      )
      | inr q ↦
          let (b, found, name) = h.index_sound s j (ground (arith, slot_index-grown p slot s d)) in
          (b, get_elem?-append_left p.buffers _ j (lt-length p.buffers j found) ∙ found, name)
    ])

    complete :
        (j : ℕ) (b : PacketBuffer)
        → get_elem? (grown_packet p slot d).buffers j ≡ some b
        → slot_index (grown_packet p slot d) b.slot ≡ some j
    complete j b e = elim (Bool-cases (j == length p.buffers)) [
      | inl q ↦ ground (
        arith,
        slot_index-grown p slot b.slot d,
        get_elem?-push p.buffers (buffer_of slot d) j,
        grown_buffers p slot d,
      )
      | inr q ↦ ground (
        arith,
        slot_index-grown p slot b.slot d,
        get_elem?-push p.buffers (buffer_of slot d) j,
        grown_buffers p slot d,
        h.index_complete j b,
      )
    ]

pub put-IsValid : (p : JobPacket) (slot : ℕ) (d : BufferData) → IsValid p → IsValid (put p slot d)
unfolding put
put-IsValid p slot d h = elim (Option-cases (slot_index p slot)) [
  | inl e ↦ rw (e, put) (grown_packet-IsValid p slot d h e)
  | inr (i, e) ↦ rw (e, put) (known_packet-IsValid p i slot d h e)
]

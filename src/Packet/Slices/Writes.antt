-- ===== src/Packet/Slices/Writes.antt =====
-- src/job.rs: what a caller writes into the slices that `with_slices` lends.
use braids_rs.Base.{
  All, All-get_elem?, All-set, Bool-cases, List, Option, Option-cases, [], ap, arith, eq_of_==,
  get_elem?, get_elem?-set_ne, get_elem?-set_self, if◌then◌else◌, inl, inr, length, lt-length, map,
  ne_of_==, refl, set, some, sym, ℕ, ◌==◌, ◌∙◌, ◌∷◌, ◌≡◌, ◌≢◌,
}
use mathlib.Core.Path.{subst}
use braids_rs.Pipeline.{BufferData, data_len}
use braids_rs.Pipeline.Kinds.{ElementKind, u32, u64, f32}
use braids_rs.Packet.{JobPacket, PacketBuffer, slot_index, of_kind}
use braids_rs.Packet.Invariant.{IsValid, contents}
use braids_rs.Packet.Slices.{give_back_slices, subst}
use braids_rs.Packet.Slices.Lends.{Lends}

-- What a slot holds after the slots of a list have been written: the values for it, if it is one of them.
abbrev pub overwritten :
    ElementKind → List ℕ → List (List ℕ) → ℕ → Option BufferData → Option BufferData
overwritten k [] ws s old = old
overwritten k (slot ∷ slots) [] s old = old
overwritten k (slot ∷ slots) (w ∷ ws) s old =
    let rest = overwritten k slots ws s old in if slot == s then some (of_kind k w) else rest

overwritten_not :
    (k : ElementKind) (slots : List ℕ) (ws : List (List ℕ)) (s : ℕ) (old : Option BufferData)
    → All (λ other. other ≢ s) slots
    → overwritten k slots ws s old ≡ old
overwritten_not k [] ws s old h = refl
overwritten_not k (slot ∷ slots) [] s old h = refl
overwritten_not k (slot ∷ slots) (w ∷ ws) s old h =
    ground (arith, overwritten_not k slots ws s old h.1, h.0)

overwritten_step :
    (k : ElementKind) (slot : ℕ) (slots w : List ℕ) (ws : List (List ℕ)) (s : ℕ)
    (old new : Option BufferData)
    → All (λ other. other ≢ slot) slots
    → new ≡ (if slot == s then some (of_kind k w) else old)
    → overwritten k slots ws s new ≡ overwritten k (slot ∷ slots) (w ∷ ws) s old
overwritten_step k slot slots w ws s old new apart e = elim (Bool-cases (slot == s)) [
  | inl q ↦
      let same : slot ≡ s = eq_of_== slot s q in
      let others = subst (λ x. All (λ other. other ≢ x) slots) same apart in
      rw q (overwritten_not k slots ws s new others ∙ ground (arith, e, q))
  | inr q ↦ rw q (ap (overwritten k slots ws s) (ground (arith, e, q)))
]

abbrev written : ElementKind → JobPacket → ℕ → PacketBuffer → List ℕ → JobPacket
written k p i b w = record p { buffers = set p.buffers i (record b { contents = of_kind k w }) }

data_len-of_kind : (k : ElementKind) (w : List ℕ) → data_len (of_kind k w) ≡ length w
data_len-of_kind u32 w = refl
data_len-of_kind u64 w = refl
data_len-of_kind f32 w = refl

written-IsValid :
    (k : ElementKind) (p : JobPacket) (i : ℕ) (b : PacketBuffer) (w : List ℕ)
    → IsValid p
    → get_elem? p.buffers i ≡ some b
    → length w ≡ data_len b.contents
    → IsValid (written k p i b w)
unfolding slot_index
written-IsValid k p i b w h found size = record {
  index_sound = sound;
  index_complete = complete;
  clean_empty = λ e.
      All-set (λ b. data_len b.contents ≡ 0) p.buffers i new (h.clean_empty e)
        (data_len-of_kind k w ∙ size ∙ All-get_elem? _ p.buffers i b (h.clean_empty e) found);
}
  where
    new : PacketBuffer
    new = record b { contents = of_kind k w }

    self : get_elem? (set p.buffers i new) i ≡ some new
    self = get_elem?-set_self p.buffers i new (lt-length p.buffers i found)

    sound :
        (s j : ℕ)
        → slot_index p s ≡ some j
        → (c : PacketBuffer) × (get_elem? (set p.buffers i new) j ≡ some c) × (c.slot ≡ s)
    sound s j e =
        let (c, found', name) = h.index_sound s j e in
        elim (Bool-cases (i == j)) [
          | inl q ↦ (new, ground (arith, self), ground arith)
          | inr q ↦ (c, get_elem?-set_ne p.buffers i j new (ne_of_== i j q) ∙ found', name)
        ]

    complete :
        (j : ℕ) (c : PacketBuffer)
        → get_elem? (set p.buffers i new) j ≡ some c
        → slot_index p c.slot ≡ some j
    complete j c e = elim (Bool-cases (i == j)) [
      | inl q ↦ ground (arith, self, h.index_complete i b found)
      | inr q ↦ h.index_complete j c (sym (get_elem?-set_ne p.buffers i j new (ne_of_== i j q)) ∙ e)
    ]

contents-written :
    (k : ElementKind) (p : JobPacket) (i slot s : ℕ) (b : PacketBuffer) (w : List ℕ)
    → IsValid p
    → slot_index p slot ≡ some i
    → get_elem? p.buffers i ≡ some b
    → contents (written k p i b w) s ≡ (if slot == s then some (of_kind k w) else contents p s)
unfolding contents slot_index
contents-written k p i slot s b w h at found =
    let new : PacketBuffer = record b { contents = of_kind k w } in
    let (c, found', name) = h.index_sound slot i at in
    let self = get_elem?-set_self p.buffers i new (lt-length p.buffers i found) in
    elim (Bool-cases (slot == s)) [
      | inl q ↦ ground (arith, self)
      | inr q ↦ elim (Option-cases (slot_index p s)) [
        | inl e ↦ ground (arith, e)
        | inr (j, e) ↦
            let (d, found'', name') = h.index_sound s j e in
            let apart : i ≢ j = ground arith in
            ground (arith, get_elem?-set_ne p.buffers i j new apart)
      ]
    ]

Lends-same :
    (k : ElementKind) (p q : JobPacket) (slot : ℕ) (slots : List ℕ) (vs : List (List ℕ))
    → ((s : ℕ) → s ≢ slot → contents q s ≡ contents p s)
    → All (λ other. other ≢ slot) slots
    → Lends k p slots vs
    → Lends k q slots vs
Lends-same k p q slot [] [] same apart l = tt
Lends-same k p q slot [] (v ∷ vs) same apart l = l
Lends-same k p q slot (s ∷ slots) [] same apart l = l
Lends-same k p q slot (s ∷ slots) (v ∷ vs) same apart (held, others, l) =
    (same s apart.0 ∙ held, others, Lends-same k p q slot slots vs same apart.1 l)

same_indices :
    (p q : JobPacket) (slots is : List ℕ)
    → q.slot_indices ≡ p.slot_indices
    → map (slot_index p) slots ≡ map some is
    → map (slot_index q) slots ≡ map some is
unfolding slot_index
same_indices p q slots is e same = rw e same

buffer_at :
    (p : JobPacket) (slot i : ℕ) (d : BufferData)
    → slot_index p slot ≡ some i
    → contents p slot ≡ some d
    → (b : PacketBuffer) × (get_elem? p.buffers i ≡ some b) × (b.contents ≡ d)
unfolding contents
buffer_at p slot i d at held = elim (Option-cases (get_elem? p.buffers i)) [
  | inl e ↦ absurd (ground (arith, at, held, e))
  | inr (b, e) ↦ (b, e, ground (arith, at, held, e))
]

give_back_slices_step :
    (k : ElementKind) (p : JobPacket) (i : ℕ) (is w : List ℕ) (ws : List (List ℕ))
    (b : PacketBuffer)
    → get_elem? p.buffers i ≡ some b
    → give_back_slices k (i ∷ is) (w ∷ ws) p ≡ give_back_slices k is ws (written k p i b w)
unfolding give_back_slices
give_back_slices_step k p i is w ws b found = rw (give_back_slices, found) refl

-- Writing slices of the lengths that were lent leaves a valid packet, in which the slots hold what was
-- written for them and the others what they held.
pub give_back_slices_lem :
    (k : ElementKind) (p : JobPacket) (slots is : List ℕ) (vs ws : List (List ℕ))
    → IsValid p
    → map (slot_index p) slots ≡ map some is
    → Lends k p slots vs
    → map length ws ≡ map length vs
    → IsValid (give_back_slices k is ws p)
      × ((s : ℕ)
          → contents (give_back_slices k is ws p) s ≡ overwritten k slots ws s (contents p s))
unfolding give_back_slices
give_back_slices_lem k p [] [] vs ws h same lent sizes = (h, λ s. refl)
give_back_slices_lem k p [] (i ∷ is) vs ws h same lent sizes = cc
give_back_slices_lem k p (slot ∷ slots) [] vs ws h same lent sizes = cc
give_back_slices_lem k p (slot ∷ slots) (i ∷ is) [] ws h same lent sizes = elim lent [ ]
give_back_slices_lem k p (slot ∷ slots) (i ∷ is) (v ∷ vs) [] h same lent sizes = cc
give_back_slices_lem k p (slot ∷ slots) (i ∷ is) (v ∷ vs) (w ∷ ws) h same (held, apart, l) sizes =
    let at : slot_index p slot ≡ some i = cc in
    let (b, found, what) = buffer_at p slot i (of_kind k v) at held in
    let size : length w ≡ data_len b.contents =
      first_size ∙ sym (data_len-of_kind k v) ∙ ap data_len (sym what) in
    let q = written k p i b w in
    let now : (s : ℕ) → contents q s ≡ (if slot == s then some (of_kind k w) else contents p s) =
      λ s. contents-written k p i slot s b w h at found in
    let (valid, told) =
      give_back_slices_lem k q slots is vs ws (written-IsValid k p i b w h found size)
        (same_indices p q slots is refl (cc))
        (Lends-same k p q slot slots vs (λ s other. ground (arith, now s, other)) apart l) (cc) in
    let step = give_back_slices_step k p i is w ws b found in
    (
      rw step valid,
      λ s.
          ap (λ r. contents r s) step
          ∙ told s
          ∙ overwritten_step k slot slots w ws s _ _ apart (now s),
    )
  where
    first_size : length w ≡ length v
    first_size = cc

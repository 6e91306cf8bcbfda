-- ===== src/Packet/Slices/Lends.antt =====
-- src/job.rs: which slices there are to lend for some slots.
use braids_rs.Base.{
  All, List, [], ap, arith, done, false, get_elem?, map, refl, some, sym, true, ℕ, ◌∙◌, ◌∷◌, ◌≡◌,
  ◌≢◌,
}
use braids_rs.Pipeline.{BufferData, data_kind, data_values}
use braids_rs.Pipeline.Kinds.{ElementKind, same_kind, u32, u64, f32}
use braids_rs.Packet.{JobPacket, PacketBuffer, slot_index, of_kind}
use braids_rs.Packet.Invariant.{contents}
use braids_rs.Packet.Slices.{is_taken, lend}

-- Each slot holds the values of its slice, of the asked kind, and no slot is asked for twice.
abbrev pub Lends : ElementKind → JobPacket → List ℕ → List (List ℕ) → Type 0
Lends k p [] [] = Unit
Lends k p [] (v ∷ vs) = ⊥
Lends k p (slot ∷ slots) [] = ⊥
Lends k p (slot ∷ slots) (v ∷ vs) =
    (contents p slot ≡ some (of_kind k v)) × All (λ other. other ≢ slot) slots × Lends k p slots vs

-- The buffers at the indices have the kind, and no index is there twice.
abbrev pub AreLent : ElementKind → JobPacket → List ℕ → Type 0
AreLent k p [] = Unit
AreLent k p (index ∷ indices) =
    ((b : PacketBuffer) × (get_elem? p.buffers index ≡ some b)
      × (same_kind (data_kind b.contents) k ≡ true))
    × (is_taken index indices ≡ false)
    × AreLent k p indices

of_same_kind :
    (k : ElementKind) (d : BufferData)
    → same_kind (data_kind d) k ≡ true
    → d ≡ of_kind k (data_values d)
of_same_kind u32 d h = ground arith
of_same_kind u64 d h = ground arith
of_same_kind f32 d h = ground arith

-- Slots with other indices are other slots.
others_apart :
    (p : JobPacket) (slot i : ℕ) (slots is : List ℕ)
    → slot_index p slot ≡ some i
    → is_taken i is ≡ false
    → map (slot_index p) slots ≡ map some is
    → All (λ other. other ≢ slot) slots
others_apart p slot i [] is at apart same = tt
others_apart p slot i (other ∷ slots) [] at apart same = cc
others_apart p slot i (other ∷ slots) (j ∷ is) at apart same = (
  λ e.
      let at_other : slot_index p other ≡ some j = cc in
      let one : some j ≡ some i = sym at_other ∙ ap (slot_index p) e ∙ at in
      ground (arith, one, apart),
  others_apart p slot i slots is at (ground arith) (cc),
)

contents-at :
    (p : JobPacket) (slot i : ℕ) (b : PacketBuffer)
    → slot_index p slot ≡ some i
    → get_elem? p.buffers i ≡ some b
    → contents p slot ≡ some b.contents
unfolding contents
contents-at p slot i b at found = ground (arith, at, found)

pub lend-Lends :
    (k : ElementKind) (p : JobPacket) (slots is : List ℕ)
    → map (slot_index p) slots ≡ map some is
    → AreLent k p is
    → (views : List (List ℕ)) × (lend k p is ≡ done views) × Lends k p slots views
unfolding lend
lend-Lends k p [] [] same lent = ([], refl, tt)
lend-Lends k p [] (i ∷ is) same lent = cc
lend-Lends k p (slot ∷ slots) [] same lent = cc
lend-Lends k p (slot ∷ slots) (i ∷ is) same ((b, found, s), apart, lent) =
    let at : slot_index p slot ≡ some i = cc in
    let more : map (slot_index p) slots ≡ map some is = cc in
    let (views, e, l) = lend-Lends k p slots is more lent in
    (
      data_values b.contents ∷ views,
      ground (arith, found, s, e),
      (
        contents-at p slot i b at found ∙ ap some (of_same_kind k b.contents s),
        others_apart p slot i slots is at apart more,
        l,
      ),
    )

-- ===== src/Packet/Slices/Aliasing.antt =====
-- src/job.rs: `with_slices` lends several slots of a packet at once.
use braids_rs.Base.{
  Bool-cases, List, Option-cases, [], ap, append-nil, append_assoc, arith, done, false, get_elem?,
  inl, inr, length, map, refl, some, sym, true, ℕ, ◌++◌, ◌==◌, ◌∙◌, ◌∷◌, ◌≡◌, ◌⊎◌, All, ◌≢◌,
}
use braids_rs.Error.{BraidError, ok, err, missing_buffer, invalid_buffer_type, from_text}
use braids_rs.Call.{Call}
use braids_rs.Pipeline.{BufferData, data_kind}
use braids_rs.Pipeline.Kinds.{ElementKind, same_kind, u32, u64, f32}
use braids_rs.Packet.Slices.Lends.{AreLent, Lends, lend-Lends}
use braids_rs.Packet.Slices.Writes.{overwritten, give_back_slices_lem}
use braids_rs.Packet.{of_kind, JobPacket, PacketBuffer, slot_index}
use braids_rs.Packet.Invariant.{IsValid, contents}
use mathlib.Core.Path.{subst}
use braids_rs.Packet.Slices.{is_taken, index_slot, index_slots, give_back_slices, with_slices}

other_kind :
    (k : ElementKind) (d : BufferData) (v : List ℕ)
    → same_kind (data_kind d) k ≡ false
    → d ≡ of_kind k v
    → ⊥
other_kind u32 d v h e = ground (arith, h, e)
other_kind u64 d v h e = ground (arith, h, e)
other_kind f32 d v h e = ground (arith, h, e)

-- The indices of the slots are not among those taken.
abbrev AreFree : JobPacket → List ℕ → List ℕ → Type 0
AreFree p taken slots =
    All (λ slot. (i : ℕ) → slot_index p slot ≡ some i → is_taken i taken ≡ false) slots

none_free : (p : JobPacket) (slots : List ℕ) → AreFree p [] slots
none_free p [] = tt
none_free p (slot ∷ slots) = (λ i e. refl, none_free p slots)

index_slot_cases :
    (k : ElementKind) (p : JobPacket) (taken : List ℕ) (slot : ℕ)
    → IsValid p
    → ((e : BraidError) × (index_slot k p taken slot ≡ done (err e))
        × ((v : List ℕ)
            → contents p slot ≡ some (of_kind k v)
            → ((i : ℕ) → slot_index p slot ≡ some i → is_taken i taken ≡ false)
            → ⊥))
      ⊎ ((i : ℕ) × (index_slot k p taken slot ≡ done (ok i))
          × (slot_index p slot ≡ some i)
          × (is_taken i taken ≡ false)
          × ((b : PacketBuffer) × (get_elem? p.buffers i ≡ some b)
              × (same_kind (data_kind b.contents) k ≡ true)))
unfolding index_slot
index_slot_cases k p taken slot h = elim (Option-cases (slot_index p slot)) [
  | inl e ↦ inl (
    missing_buffer slot,
    ground (arith, e),
    λ v held free. unfold contents in ground (arith, held, e),
  )
  | inr (i, e) ↦
      let (b, found, name) = h.index_sound slot i e in
      elim (Bool-cases (is_taken i taken)) [
        | inl q ↦ inl (
          from_text "duplicate typed buffer slot request",
          ground (arith, e, q),
          λ v held free. ground (arith, free i e, q),
        )
        | inr q ↦ elim (Bool-cases (same_kind (data_kind b.contents) k)) [
          | inl s ↦ inr (i, ground (arith, e, q, found, s), e, q, (b, found, s))
          | inr s ↦ inl (
            invalid_buffer_type slot k,
            ground (arith, e, q, found, s),
            λ v held free.
                other_kind k b.contents v s (unfold contents in ground (arith, held, e, found)),
          )
        ]
      ]
]

is_taken-snoc :
    (i index : ℕ) (is : List ℕ)
    → is_taken i is ≡ false
    → (index == i) ≡ false
    → is_taken i (is ++ index ∷ []) ≡ false
is_taken-snoc i index [] h e = ground arith
is_taken-snoc i index (j ∷ is) h e = ground (arith, is_taken-snoc i index is)

AreLent-snoc :
    (k : ElementKind) (p : JobPacket) (index : ℕ) (is : List ℕ)
    → ((b : PacketBuffer) × (get_elem? p.buffers index ≡ some b)
        × (same_kind (data_kind b.contents) k ≡ true))
    → is_taken index is ≡ false
    → AreLent k p is
    → AreLent k p (is ++ index ∷ [])
AreLent-snoc k p index [] b h lent = (b, refl, tt)
AreLent-snoc k p index (i ∷ is) b h (c, apart, lent) = (
  c,
  is_taken-snoc i index is apart (ground arith),
  AreLent-snoc k p index is b (ground arith) lent,
)

still_free :
    (p : JobPacket) (taken slots : List ℕ) (slot i : ℕ)
    → IsValid p
    → slot_index p slot ≡ some i
    → All (λ other. other ≢ slot) slots
    → AreFree p taken slots
    → AreFree p (taken ++ i ∷ []) slots
still_free p taken [] slot i h at apart free = tt
still_free p taken (other ∷ slots) slot i h at apart free = (
  λ j e. is_taken-snoc j i taken (free.0 j e) (elim (Bool-cases (i == j)) [
    | inl q ↦
        let (b, found, name) = h.index_sound slot i at in
        let (c, found', name') = h.index_sound other j e in
        absurd (apart.0 (ground (arith, q, found, found', name, name')))
    | inr q ↦ q
  ]),
  still_free p taken slots slot i h at apart.1 free.1,
)

index_slots_cases :
    (k : ElementKind) (p : JobPacket) (taken slots : List ℕ)
    → IsValid p
    → AreLent k p taken
    → ((e : BraidError) × (index_slots k p taken slots ≡ done (err e))
        × ((views : List (List ℕ)) → Lends k p slots views → AreFree p taken slots → ⊥))
      ⊎ ((more : List ℕ) × (index_slots k p taken slots ≡ done (ok (taken ++ more)))
          × AreLent k p (taken ++ more)
          × (map (slot_index p) slots ≡ map some more))
unfolding index_slots
index_slots_cases k p taken [] h lent = inr (
  [],
  ap (λ l. done (ok l)) (sym (append-nil taken)),
  subst (AreLent k p) (sym (append-nil taken)) lent,
  refl,
)
index_slots_cases k p taken (slot ∷ slots) h lent = elim (index_slot_cases k p taken slot h) [
  | inl (e, r, never) ↦
      inl (e, rw (index_slots, r) refl, λ views lends free. refused_first views never lends free)
  | inr (i, r, at, apart, b) ↦
      elim (index_slots_cases k p (taken ++ i ∷ []) slots h
        (AreLent-snoc k p i taken b apart lent)) [
          | inl (e, s, never) ↦ inl (
            e,
            rw (index_slots, r) s,
            λ views lends free. refused_later i at views never lends free,
          )
          | inr (more, s, all, same) ↦ inr (
            i ∷ more,
            rw (index_slots, r) (s ∙ ap (λ l. done (ok l)) (append_assoc taken (i ∷ []) more)),
            subst (AreLent k p) (append_assoc taken (i ∷ []) more) all,
            cons_same i more at same,
          )
        ]
]
  where
    cons_same :
        (i : ℕ) (more : List ℕ)
        → slot_index p slot ≡ some i
        → map (slot_index p) slots ≡ map some more
        → map (slot_index p) (slot ∷ slots) ≡ map some (i ∷ more)
    cons_same i more at same = ap (λ o. o ∷ map (slot_index p) slots) at ∙ ap (λ l. some i ∷ l) same

    refused_first :
        (views : List (List ℕ))
        → ((v : List ℕ)
            → contents p slot ≡ some (of_kind k v)
            → ((i : ℕ) → slot_index p slot ≡ some i → is_taken i taken ≡ false)
            → ⊥)
        → Lends k p (slot ∷ slots) views
        → AreFree p taken (slot ∷ slots)
        → ⊥
    refused_first [] never lends free = lends
    refused_first (v ∷ vs) never lends free = never v lends.0 free.0

    refused_later :
        (i : ℕ)
        → slot_index p slot ≡ some i
        → (views : List (List ℕ))
        → ((views : List (List ℕ)) → Lends k p slots views → AreFree p (taken ++ i ∷ []) slots → ⊥)
        → Lends k p (slot ∷ slots) views
        → AreFree p taken (slot ∷ slots)
        → ⊥
    refused_later i at [] never lends free = lends
    refused_later i at (v ∷ vs) never (held, apart, l) free =
        never vs l (still_free p taken slots slot i h at apart free.1)

-- For a caller who keeps the number and the lengths of the slices, `with_slices` never panics by itself
-- on a valid packet. Either there is no lending of the slots (each holding values of the asked kind, no
-- slot asked for twice), and it refuses them and leaves the packet as it was; or it lends the values of
-- each slot, and then the answer is that of the caller, the packet stays valid, and each slot asked for
-- holds what the caller wrote into its slice, while every other slot holds what it held.
pub with_slices_lem :
    {R : Type 0} (k : ElementKind) (p : JobPacket) (slots : List ℕ)
    (f : List (List ℕ) → Call R (List (List ℕ)))
    → IsValid p
    → ((views : List (List ℕ)) → map length (f views).1 ≡ map length views)
    → ((e : BraidError) × (with_slices k p slots f ≡ (done (err e), p))
        × ((views : List (List ℕ)) → ¬ Lends k p slots views))
      ⊎ ((views : List (List ℕ)) × (q : JobPacket) × Lends k p slots views
          × (with_slices k p slots f ≡ ((f views).0, q))
          × IsValid q
          × ((s : ℕ) → contents q s ≡ overwritten k slots (f views).1 s (contents p s)))
unfolding with_slices
with_slices_lem k p slots f h keeps = elim (index_slots_cases k p [] slots h tt) [
  | inl (e, r, never) ↦
      inl (e, rw (with_slices, r) refl, λ views lends. never views lends (none_free p slots))
  | inr (indices, r, lent, same) ↦
      let (views, e, lends) = lend-Lends k p slots indices same lent in
      let (valid, told) =
        give_back_slices_lem k p slots indices views (f views).1 h same lends (keeps views) in
      inr (
        views,
        give_back_slices k indices (f views).1 p,
        lends,
        rw (with_slices, r, e) refl,
        valid,
        told,
      )
]

-- ===== src/Packet/Groups.antt =====
-- src/job.rs: a slot read as groups of a fixed width, and several slots lent at once.
use braids_rs.Base.{
  ==_of_ne, All, Bool-cases, List, [], ap, append-nil, append_assoc, arith, count, done, drop,
  eq_of_==, inl, inr, length, ltb, refl, some, suc, sym, take, true, zero, ℕ, ◌%◌, ◌*◌, ◌++◌, ◌+◌,
  ◌-◌, ◌<◌, ◌==◌, ◌∙◌, ◌∷◌, ◌≡◌, ◌≤◌, ◌⊎◌,
}
use braids_rs.Error.{BraidResult, ok, err, invalid_spec, not_divisible}
use braids_rs.Pipeline.Kinds.{ElementKind, same_kind}
use braids_rs.Pipeline.{BufferData, data_kind, data_values}
use braids_rs.Packet.{JobPacket, slice_many, chunks_from, as_chunks, group_values}
use braids_rs.Packet.Invariant.{IsValid, contents}
use braids_rs.Packet.Views.{slice-view}
use mathlib.Core.List.{flatten}

-- Every group has the width, and the groups with what is left over are the list, in order.
abbrev AllWide : ℕ → List (List ℕ) → Type 0
AllWide n = All (λ g. length g ≡ n)

length-take_full {ℓ} : {A : Type ℓ} (n : ℕ) (xs : List A) → n ≤ length xs → length (take n xs) ≡ n
length-take_full zero xs h = refl
length-take_full (suc n) [] h = absurd (omega arith)
length-take_full (suc n) (x ∷ xs) h = ap suc (length-take_full n xs (omega arith))

length-drop_lem {ℓ} :
    {A : Type ℓ} (n : ℕ) (xs : List A) → length (drop n xs) + n ≡ length xs + (n - length xs)
length-drop_lem zero xs = omega arith
length-drop_lem (suc n) [] = omega arith
length-drop_lem (suc n) (x ∷ xs) = omega (arith, length-drop_lem n xs)

take-append-drop {ℓ} : {A : Type ℓ} (n : ℕ) (xs : List A) → take n xs ++ drop n xs ≡ xs
take-append-drop zero xs = refl
take-append-drop (suc n) [] = refl
take-append-drop (suc n) (x ∷ xs) = ap (◌∷◌ x) (take-append-drop n xs)

abbrev Groups : ℕ → List ℕ → List (List ℕ) × List ℕ → Type 0
Groups n xs r =
    (flatten r.0 ++ r.1 ≡ xs)
    × AllWide n r.0
    × (length r.1 < n)
    × (length xs ≡ n * length r.0 + length r.1)

chunks_from-Groups :
    (fuel n : ℕ) (xs : List ℕ) → 0 < n → length xs ≤ fuel → Groups n xs (chunks_from fuel n xs)
unfolding chunks_from flatten
chunks_from-Groups zero n [] pos h = (refl, tt, pos, omega arith)
chunks_from-Groups zero n (x ∷ xs) pos h = absurd (omega arith)
chunks_from-Groups (suc fuel) n xs pos h = elim (Bool-cases (ltb (length xs) n)) [
  | inl q ↦ rw q (refl, tt, ground arith, omega arith)
  | inr q ↦
      let le : n ≤ length xs = ground arith in
      let (same, wide, small, count) =
        chunks_from-Groups fuel n (drop n xs) pos (omega (arith, length-drop_lem n xs)) in
      rw q (
        append_assoc (take n xs) _ _ ∙ ap (◌++◌ (take n xs)) same ∙ take-append-drop n xs,
        (length-take_full n xs le, wide),
        small,
        omega (arith, count, length-drop_lem n xs),
      )
]

as_chunks-Groups : (n : ℕ) (xs : List ℕ) → 0 < n → Groups n xs (as_chunks n xs)
unfolding as_chunks
as_chunks-Groups n xs pos = chunks_from-Groups (length xs) n xs pos (omega arith)

-- What `slice_many` gives for the values of a slot: the groups, each of the width, which together are
-- the values in order, if the width divides their number; an error that names all three if not.
abbrev pub Grouped : ℕ → ℕ → List ℕ → BraidResult (List (List ℕ)) → Type 0
Grouped slot n vals r =
    ((groups : List (List ℕ)) × (r ≡ ok groups)
      × (length vals % n ≡ 0)
      × (flatten groups ≡ vals)
      × AllWide n groups)
    ⊎ ((r ≡ err (invalid_spec (not_divisible slot (length vals) n))) × (0 < length vals % n))

no_rest {ℓ} : {A : Type ℓ} (xs : List A) → length xs ≡ 0 → xs ≡ []
no_rest [] h = refl
no_rest (x ∷ xs) h = absurd (omega arith)

multiple_mod : (n g r m : ℕ) → r < n → m ≡ n * g + r → m % n ≡ r
multiple_mod n g r m small e = grind arith

group_values-Grouped :
    (slot n : ℕ) (vals : List ℕ) → 0 < n → Grouped slot n vals (group_values slot n vals)
unfolding group_values
group_values-Grouped slot n vals pos =
    let (same, wide, small, count) = as_chunks-Groups n vals pos in
    let rest =
      multiple_mod n (length (as_chunks n vals).0) (length (as_chunks n vals).1) (length vals) small
        count in
    elim (Bool-cases (length (as_chunks n vals).1 == 0)) [
      | inl q ↦
          let none_left = eq_of_== _ 0 q in
          inl (
            (as_chunks n vals).0,
            rw q,
            rest ∙ none_left,
            sym (append-nil _) ∙ rw (no_rest (as_chunks n vals).1 none_left) at same,
            wide,
          )
      | inr q ↦ inr (rw q, ground (arith, rest))
    ]

-- On a valid packet with data of the asked kind in the slot, and for a width above 0, `slice_many`
-- never panics: it gives the groups of that width, or the error where the width does not divide.
pub slice_many-Grouped :
    (k : ElementKind) (n : ℕ) (p : JobPacket) (slot : ℕ) (d : BufferData)
    → IsValid p
    → contents p slot ≡ some d
    → same_kind (data_kind d) k ≡ true
    → 0 < n
    → (r : BraidResult (List (List ℕ))) × (slice_many k n p slot ≡ done r)
      × Grouped slot n (data_values d) r
unfolding slice_many
slice_many-Grouped k n p slot d h holds kind pos = (
  group_values slot n (data_values d),
  rw (==_of_ne n 0 (omega arith), slice-view k p slot h, holds) (rw kind),
  group_values-Grouped slot n (data_values d) pos,
)

-- ===== src/FastNoise/Codec/Truncation.antt =====
-- fastnoise/src/runtime.rs: a payload that is cut short is refused as truncated.
use braids_rs.Base.{
  Bool-cases, List, [], ap, arith, drop, inl, inr, length, length-append, ltb, refl, suc, sym, take,
  zero, ℕ, ◌++◌, ◌+◌, ◌∷◌, ◌≡◌, ◌≤◌, ◌⊎◌, append-nil, ◌∙◌,
}
use mathlib.Core.Path.{subst}
use braids_rs.Error.{BraidResult, ok, err, invalid_spec, text, BraidError}
use braids_rs.FastNoise.Codec.{
  PayloadReader, Read, ◌>>=◌, continue, return, lift, read_exact, read_u16, read_u32, read_times,
  NoiseLibrary, read_noise,
}
use braids_rs.FastNoise.Codec.Reads.{Reads}
use braids_rs.FastNoise.Codec.Payloads.{read_combine, read_warp, read_sample, read_position_slots}

abbrev pub truncated : BraidError
truncated = invalid_spec (text "kernel payload truncated")

-- The answer of a read with fewer bytes, against its answer with `more` bytes at the end: it lacks
-- bytes, or it is the same, and the offset is within the bytes.
abbrev Agrees :
    {A : Type 0}
    → List ℕ
    → List ℕ
    → BraidResult (A × PayloadReader)
    → BraidResult (A × PayloadReader)
    → Type 0
Agrees bytes more (err e) r = (e ≡ truncated) ⊎ (r ≡ err e)
Agrees bytes more (ok (a, r')) r =
    (r'.bytes ≡ bytes)
    × (r'.offset ≤ length bytes)
    × (r ≡ ok (a, record { bytes = bytes ++ more; offset = r'.offset }))

-- A read sees the bytes only by taking them in order.
pub IsForward : {A : Type 0} → Read A → Type 0
IsForward m =
    (bytes more : List ℕ) (offset : ℕ)
    → offset ≤ length bytes
    → Agrees bytes more (m (record { bytes = bytes; offset = offset }))
        (m (record { bytes = bytes ++ more; offset = offset }))

take-append_le : (n : ℕ) (xs ys : List ℕ) → n ≤ length xs → take n (xs ++ ys) ≡ take n xs
take-append_le zero xs ys h = refl
take-append_le (suc n) [] ys h = absurd (omega arith)
take-append_le (suc n) (x ∷ xs) ys h = ap (◌∷◌ x) (take-append_le n xs ys (omega arith))

take-drop-append :
    (n k : ℕ) (xs ys : List ℕ) → k + n ≤ length xs → take n (drop k (xs ++ ys)) ≡ take n (drop k xs)
take-drop-append n zero xs ys h = take-append_le n xs ys (omega arith)
take-drop-append n (suc k) [] ys h = absurd (omega arith)
take-drop-append n (suc k) (x ∷ xs) ys h = take-drop-append n k xs ys (omega arith)

IsForward-return : {A : Type 0} (a : A) → IsForward (return a)
unfolding IsForward
IsForward-return a bytes more offset h = (refl, h, refl)

IsForward-lift : {A : Type 0} (r : BraidResult A) → IsForward (lift r)
unfolding IsForward
IsForward-lift (ok a) bytes more offset h = (refl, h, refl)
IsForward-lift (err e) bytes more offset h = inr refl

IsForward-read_exact : (n : ℕ) → IsForward (read_exact n)
unfolding IsForward read_exact
IsForward-read_exact n bytes more offset h = elim (Bool-cases (ltb (length bytes) (offset + n))) [
  | inl q ↦ rw q (inl refl)
  | inr q ↦ rw q (
    refl,
    ground arith,
    ground (arith, length-append bytes more, take-drop-append n offset bytes more),
  )
]

continue-Agrees :
    {A B : Type 0} (f : A → Read B) (bytes more : List ℕ) (r s : BraidResult (A × PayloadReader))
    → ((a : A) → IsForward (f a))
    → Agrees bytes more r s
    → Agrees bytes more (continue r f) (continue s f)
unfolding IsForward
continue-Agrees f bytes more (err e) s hf (inl q) = inl q
continue-Agrees f bytes more (err e) s hf (inr q) = inr (ap (λ r. continue r f) q)
continue-Agrees f bytes more (ok (a, r)) s hf (b, o, q) =
    subst (λ t. Agrees bytes more (f a r) (continue t f)) (sym q)
      (subst
        (λ bs.
          Agrees bytes more (f a (record { bytes = bs; offset = r.offset }))
            (f a (record { bytes = bytes ++ more; offset = r.offset })))
        (sym b) (hf a bytes more r.offset o))

IsForward-bind :
    {A B : Type 0} (m : Read A) (f : A → Read B)
    → IsForward m
    → ((a : A) → IsForward (f a))
    → IsForward (m >>= f)
unfolding IsForward
IsForward-bind m f hm hf bytes more offset h =
    continue-Agrees f bytes more (m (record { bytes = bytes; offset = offset }))
      (m (record { bytes = bytes ++ more; offset = offset })) hf (hm bytes more offset h)

ruleset forward = (IsForward-return, IsForward-lift, IsForward-read_exact, IsForward-bind)

IsForward-read_u16 : IsForward read_u16
unfolding read_u16
IsForward-read_u16 = search (forward)

IsForward-read_u32 : IsForward read_u32
unfolding read_u32
IsForward-read_u32 = search (forward)

IsForward-read_times : {A : Type 0} (n : ℕ) (m : Read A) → IsForward m → IsForward (read_times n m)
unfolding read_times
IsForward-read_times zero m h = IsForward-return []
IsForward-read_times (suc n) m h = search (forward, IsForward-read_times n m h)

module _ (L : NoiseLibrary) where
  IsForward-read_noise : IsForward (read_noise L)
  unfolding read_noise
  IsForward-read_noise = search (forward, IsForward-read_u32) depth 60 fits 4000

  pub IsForward-read_warp : (n : ℕ) → IsForward (read_warp L n)
  unfolding read_warp read_position_slots
  IsForward-read_warp n =
      search (forward, IsForward-read_noise, IsForward-read_times, IsForward-read_u16)

  pub IsForward-read_sample : (n : ℕ) → IsForward (read_sample L n)
  unfolding read_sample read_position_slots
  IsForward-read_sample n =
      search (forward, IsForward-read_noise, IsForward-read_times, IsForward-read_u16)

pub IsForward-read_combine : IsForward read_combine
unfolding read_combine
IsForward-read_combine =
    search (forward, IsForward-read_times, IsForward-read_u16, IsForward-read_u32) depth 30 fits
      4000

agreed_cut :
    {A : Type 0} (front back : List ℕ) (x : ℕ) (a : A) (r s : BraidResult (A × PayloadReader))
    → Agrees front (x ∷ back) r s
    → s ≡ ok (a, record { bytes = front ++ (x ∷ back); offset = length (front ++ (x ∷ back)) })
    → r ≡ err truncated
agreed_cut front back x a (err e) s (inl q) h = ap err q
agreed_cut front back x a (err e) s (inr q) h = cc
agreed_cut {A} front back x a (ok (b, r)) s (same, o, q) h =
    absurd (omega (arith, length-append front (x ∷ back), ends))
  where
    offset_of : BraidResult (A × PayloadReader) → ℕ
    offset_of r = elim r [ err e ↦ 0 | ok (b, r') ↦ r'.offset ]

    ends : r.offset ≡ length (front ++ (x ∷ back))
    ends = ap offset_of (sym q ∙ h)

-- A read that goes forward, and that takes all of some bytes, refuses each proper prefix of them.
pub truncated_prefix :
    {A : Type 0} (m : Read A) (front back : List ℕ) (x : ℕ) (a : A)
    → IsForward m
    → Reads m (front ++ (x ∷ back)) a
    → m (record { bytes = front; offset = 0 }) ≡ err truncated
unfolding IsForward Reads
truncated_prefix m front back x a forward reads =
    agreed_cut front back x a _ _ (forward front (x ∷ back) 0 (omega arith)) (
      ap (λ bs. m (record { bytes = bs; offset = 0 })) (sym (append-nil (front ++ (x ∷ back))))
      ∙ reads [] []
      ∙ ap (λ bs. ok (a, record { bytes = bs; offset = length (front ++ (x ∷ back)) }))
          (append-nil (front ++ (x ∷ back))))

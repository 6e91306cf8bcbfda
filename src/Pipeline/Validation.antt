-- ===== src/Pipeline/Validation.antt =====
-- src/pipeline.rs: `CompiledPlan::validate` decides whether a plan is well formed.
use braids_rs.Base.{
  ℕ, suc, ◌≡◌, ◌↔◌, refl, true, false, Option, none, some, List, [], ◌∷◌, map, arith, All,
  Option-cases, inl, inr,
}
use braids_rs.Error.{ok, >>=-eq-ok, if-err-eq-ok}
use braids_rs.Pipeline.Kinds.{same_kind}
use braids_rs.Pipeline.{
  find_spec, BufferSpec, StaticBuffer, BufferBinding, KernelSpec, StageSpec, CompiledPlan, contains,
  lookup_spec, specs_from, specs_by_slot, check_static_spec, check_statics, check_bindings,
  check_kernels, check_stages, validate, data_kind,
}

-- No number stands in the list twice.
abbrev pub Distinct : List ℕ → Type 0
Distinct [] = Unit {0}
Distinct (k ∷ ks) = (contains k ks ≡ false) × Distinct ks

abbrev pub Declared : List BufferSpec → ℕ → Type 0
Declared specs k = (spec : BufferSpec) × (find_spec k specs ≡ some spec)

-- What a plan must satisfy: no slot is declared twice or has two static buffers, each static buffer
-- has a declared slot of its own kind, and each kernel binding names a declared slot.
pub record WellFormed {M : Type 0} (plan : CompiledPlan M) : Type 0 where
  pub slots_distinct : Distinct (map (λ s. s.slot) plan.pipeline.buffers)
  pub statics_distinct : Distinct (map (λ b. b.slot) plan.static_buffers)
  pub statics_declared :
      All
        (λ b.
          (spec : BufferSpec) × (find_spec b.slot plan.pipeline.buffers ≡ some spec)
          × (same_kind spec.element_kind (data_kind b.contents) ≡ true))
        plan.static_buffers
  pub bindings_declared :
      All
        (λ s. All (λ k. All (λ b. Declared plan.pipeline.buffers b.slot) k.bindings) s.kernels)
        plan.pipeline.stages

abbrev or_else : Option BufferSpec → Option BufferSpec → Option BufferSpec
or_else (some a) b = some a
or_else none b = b

abbrev Unseen : List (ℕ × BufferSpec) → List BufferSpec → Type 0
Unseen m = All (λ s. lookup_spec s.slot m ≡ none)

Unseen-cons :
    (m : List (ℕ × BufferSpec)) (spec : BufferSpec) (specs : List BufferSpec)
    → Unseen ((spec.slot, spec) ∷ m) specs
    → Unseen m specs × (contains spec.slot (map (λ s. s.slot) specs) ≡ false)
Unseen-cons m spec [] u = (tt, refl)
Unseen-cons m spec (s ∷ specs) u = ground (arith, Unseen-cons m spec specs u.1, u.0)

Unseen-extend :
    (m : List (ℕ × BufferSpec)) (spec : BufferSpec) (specs : List BufferSpec)
    → Unseen m specs
    → contains spec.slot (map (λ s. s.slot) specs) ≡ false
    → Unseen ((spec.slot, spec) ∷ m) specs
Unseen-extend m spec [] u c = tt
Unseen-extend m spec (s ∷ specs) u c =
    (ground (arith, u.0), Unseen-extend m spec specs u.1 (ground arith))

lookup-specs_from :
    (specs : List BufferSpec) (m m' : List (ℕ × BufferSpec))
    → specs_from m specs ≡ ok m'
    → Distinct (map (λ s. s.slot) specs)
      × Unseen m specs
      × ((k : ℕ) → lookup_spec k m' ≡ or_else (lookup_spec k m) (find_spec k specs))
unfolding specs_from
lookup-specs_from [] m m' e = (tt, tt, λ k. ground arith)
lookup-specs_from (spec ∷ specs) m m' e = elim (Option-cases (lookup_spec spec.slot m)) [
  | inl new ↦
      let (d, u, l) = lookup-specs_from specs ((spec.slot, spec) ∷ m) m' (ground arith) in
      let (u', c) = Unseen-cons m spec specs u in ((c, d), (new, u'), λ k. ground (arith, l k))
  | inr (s, old) ↦ absurd (ground arith)
]

specs_from-ok :
    (specs : List BufferSpec) (m : List (ℕ × BufferSpec))
    → Distinct (map (λ s. s.slot) specs)
    → Unseen m specs
    → (m' : List (ℕ × BufferSpec)) × (specs_from m specs ≡ ok m')
unfolding specs_from
specs_from-ok [] m d u = (m, refl)
specs_from-ok (spec ∷ specs) m d u =
    let (m', e) =
      specs_from-ok specs ((spec.slot, spec) ∷ m) d.1 (Unseen-extend m spec specs u.1 d.0) in
    (m', ground (arith, u.0))

Unseen-nil : (specs : List BufferSpec) → Unseen [] specs
Unseen-nil [] = tt
Unseen-nil (s ∷ specs) = (refl, Unseen-nil specs)

-- The static buffers, over any map that reads as the declarations do.
module _ (m : List (ℕ × BufferSpec)) (specs : List BufferSpec)
    (same : (k : ℕ) → lookup_spec k m ≡ find_spec k specs) where
  abbrev StaticOk : StaticBuffer → Type 0
  StaticOk b =
      (spec : BufferSpec) × (find_spec b.slot specs ≡ some spec)
      × (same_kind spec.element_kind (data_kind b.contents) ≡ true)

  abbrev NotSeen : List ℕ → List StaticBuffer → Type 0
  NotSeen seen = All (λ b. contains b.slot seen ≡ false)

  NotSeen-cons :
      (seen : List ℕ) (b : StaticBuffer) (bs : List StaticBuffer)
      → NotSeen (b.slot ∷ seen) bs
      → NotSeen seen bs × (contains b.slot (map (λ s. s.slot) bs) ≡ false)
  NotSeen-cons seen b [] u = (tt, refl)
  NotSeen-cons seen b (c ∷ bs) u = ground (arith, NotSeen-cons seen b bs u.1, u.0)

  NotSeen-extend :
      (seen : List ℕ) (b : StaticBuffer) (bs : List StaticBuffer)
      → NotSeen seen bs
      → contains b.slot (map (λ s. s.slot) bs) ≡ false
      → NotSeen (b.slot ∷ seen) bs
  NotSeen-extend seen b [] u c = tt
  NotSeen-extend seen b (s ∷ bs) u c =
      (ground (arith, u.0), NotSeen-extend seen b bs u.1 (ground arith))

  check_static_spec-ok :
      (b : StaticBuffer) → check_static_spec b (lookup_spec b.slot m) ≡ ok tt → StaticOk b
  check_static_spec-ok b e = elim (Option-cases (lookup_spec b.slot m)) [
    | inl none_there ↦ absurd (ground arith)
    | inr (spec, there) ↦ (spec, ground (arith, same b.slot), ground arith)
  ]

  check_statics_sound :
      (seen : List ℕ) (bs : List StaticBuffer)
      → check_statics m seen bs ≡ ok tt
      → Distinct (map (λ b. b.slot) bs) × NotSeen seen bs × All StaticOk bs
  unfolding check_statics
  check_statics_sound seen [] e = (tt, tt, tt)
  check_statics_sound seen (b ∷ bs) e =
      let (new, rest) = if-err-eq-ok (contains b.slot seen) _ _ e in
      let (u, first, more) = >>=-eq-ok (check_static_spec b (lookup_spec b.slot m)) _ rest in
      let (d, n, a) = check_statics_sound (b.slot ∷ seen) bs more in
      let (n', c) = NotSeen-cons seen b bs n in
      ((c, d), (new, n'), (check_static_spec-ok b first, a))

  check_statics_complete :
      (seen : List ℕ) (bs : List StaticBuffer)
      → Distinct (map (λ b. b.slot) bs)
      → NotSeen seen bs
      → All StaticOk bs
      → check_statics m seen bs ≡ ok tt
  unfolding check_statics
  check_statics_complete seen [] d n a = refl
  check_statics_complete seen (b ∷ bs) d n a = ground (
    arith,
    n.0,
    same b.slot,
    a.0.1,
    a.0.2,
    check_statics_complete (b.slot ∷ seen) bs d.1 (NotSeen-extend seen b bs n.1 d.0) a.1,
  )

  check_bindings_sound :
      (i j : ℕ) (bs : List BufferBinding)
      → check_bindings m i j bs ≡ ok tt
      → All (λ b. Declared specs b.slot) bs
  unfolding check_bindings
  check_bindings_sound i j [] e = tt
  check_bindings_sound i j (b ∷ bs) e = elim (Option-cases (lookup_spec b.slot m)) [
    | inl none_there ↦ absurd (ground arith)
    | inr (spec, there) ↦
        ((spec, ground (arith, same b.slot)), check_bindings_sound i j bs (ground arith))
  ]

  check_bindings_complete :
      (i j : ℕ) (bs : List BufferBinding)
      → All (λ b. Declared specs b.slot) bs
      → check_bindings m i j bs ≡ ok tt
  unfolding check_bindings
  check_bindings_complete i j [] a = refl
  check_bindings_complete i j (b ∷ bs) a =
      ground (arith, same b.slot, a.0.1, check_bindings_complete i j bs a.1)

  check_kernels_sound :
      (i j : ℕ) (ks : List KernelSpec)
      → check_kernels m i j ks ≡ ok tt
      → All (λ k. All (λ b. Declared specs b.slot) k.bindings) ks
  unfolding check_kernels
  check_kernels_sound i j [] e = tt
  check_kernels_sound i j (k ∷ ks) e =
      let (u, p, q) = >>=-eq-ok (check_bindings m i j k.bindings) _ e in
      (check_bindings_sound i j k.bindings p, check_kernels_sound i (suc j) ks q)

  check_kernels_complete :
      (i j : ℕ) (ks : List KernelSpec)
      → All (λ k. All (λ b. Declared specs b.slot) k.bindings) ks
      → check_kernels m i j ks ≡ ok tt
  unfolding check_kernels
  check_kernels_complete i j [] a = refl
  check_kernels_complete i j (k ∷ ks) a =
      rw (check_bindings_complete i j k.bindings a.0) (check_kernels_complete i (suc j) ks a.1)

  check_stages_sound :
      (i : ℕ) (ss : List StageSpec)
      → check_stages m i ss ≡ ok tt
      → All (λ s. All (λ k. All (λ b. Declared specs b.slot) k.bindings) s.kernels) ss
  unfolding check_stages
  check_stages_sound i [] e = tt
  check_stages_sound i (s ∷ ss) e =
      let (u, p, q) = >>=-eq-ok (check_kernels m i 0 s.kernels) _ e in
      (check_kernels_sound i 0 s.kernels p, check_stages_sound (suc i) ss q)

  check_stages_complete :
      (i : ℕ) (ss : List StageSpec)
      → All (λ s. All (λ k. All (λ b. Declared specs b.slot) k.bindings) s.kernels) ss
      → check_stages m i ss ≡ ok tt
  unfolding check_stages
  check_stages_complete i [] a = refl
  check_stages_complete i (s ∷ ss) a =
      rw (check_kernels_complete i 0 s.kernels a.0) (check_stages_complete (suc i) ss a.1)

NotSeen-nil : (bs : List StaticBuffer) → All (λ b. contains b.slot [] ≡ false) bs
NotSeen-nil [] = tt
NotSeen-nil (b ∷ bs) = (refl, NotSeen-nil bs)

-- `validate` accepts the well-formed plans, and no others.
pub validate-WellFormed :
    {M : Type 0} (plan : CompiledPlan M) → (validate plan ≡ ok tt) ↔ WellFormed plan
unfolding validate
validate-WellFormed {M} plan = (sound, complete)
  where
    sound : validate plan ≡ ok tt → WellFormed plan
    sound e =
        let (m, p, q) = >>=-eq-ok (specs_by_slot plan.pipeline.buffers) _ e in
        let (d, u, l) = lookup-specs_from plan.pipeline.buffers [] m p in
        let (v, r, s) = >>=-eq-ok (check_statics m [] plan.static_buffers) _ q in
        let (d', n, a) = check_statics_sound m plan.pipeline.buffers l [] plan.static_buffers r in
        record {
          slots_distinct = d;
          statics_distinct = d';
          statics_declared = a;
          bindings_declared = check_stages_sound m plan.pipeline.buffers l 0 plan.pipeline.stages s;
        }

    complete : WellFormed plan → validate plan ≡ ok tt
    complete w =
        let (m, p) =
          specs_from-ok plan.pipeline.buffers [] w.slots_distinct
            (Unseen-nil plan.pipeline.buffers) in
        let (d, u, l) = lookup-specs_from plan.pipeline.buffers [] m p in
        rw
          (
            p,
            check_statics_complete m plan.pipeline.buffers l [] plan.static_buffers
                w.statics_distinct (NotSeen-nil plan.static_buffers) w.statics_declared,
          )
          (check_stages_complete m plan.pipeline.buffers l 0 plan.pipeline.stages
            w.bindings_declared)

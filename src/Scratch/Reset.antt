-- ===== src/Scratch/Reset.antt =====
-- src/scratch.rs: what is lent is empty, and a reset leaves nothing behind.
use braids_rs.Base.{All, List, [], ap, length, map, refl, suc, ◌∷◌, ◌≡◌}
use braids_rs.Scratch.{
  SpareVecs, clear_vec, checkout, give_back, reset_spares, PlannerScratch, BatchScratch,
  ComputeScratch, reset_planner_scratch, reset_batch_scratch, reset_compute_scratch,
}

-- Every spare vector is empty.
abbrev pub AllEmpty : {A : Type 0} → SpareVecs A → Type 0
AllEmpty s = All (λ v. v ≡ []) s.buffers

clear_vec-nil {ℓ} : {A : Type ℓ} (v : List A) → clear_vec v ≡ []
clear_vec-nil [] = refl
clear_vec-nil (x ∷ v) = refl

map-clear_vec {ℓ} :
    {A : Type ℓ} (vs : List (List A))
    → All (λ v. v ≡ []) (map clear_vec vs) × (length (map clear_vec vs) ≡ length vs)
map-clear_vec [] = (tt, refl)
map-clear_vec (v ∷ vs) = let (a, l) = map-clear_vec vs in ((clear_vec-nil v, a), ap suc l)

lent_from :
    {A : Type 0} (vs : List (List A))
    → All (λ v. v ≡ []) vs
    → ((checkout (record { buffers = vs })).1 ≡ [])
      × AllEmpty (checkout (record { buffers = vs })).0
unfolding checkout
lent_from [] a = (refl, tt)
lent_from (v ∷ vs) a = a

lent : {A : Type 0} (s : SpareVecs A) → AllEmpty s → ((checkout s).1 ≡ []) × AllEmpty (checkout s).0
lent s a = lent_from s.buffers a

-- A vector that is given back is lent next, and empty; the other spares are as before. So where all
-- spares are empty, `checkout` lends an empty vector, and giving anything back keeps it so.
pub checkout-give_back :
    {A : Type 0} (s : SpareVecs A) (v : List A)
    → (checkout (give_back s v) ≡ (s, []))
      × (AllEmpty s → ((checkout s).1 ≡ []) × AllEmpty (checkout s).0 × AllEmpty (give_back s v))
unfolding checkout give_back
checkout-give_back s v =
    (ap (λ w. (s, w)) (clear_vec-nil v), λ a. ((lent s a).0, (lent s a).1, (clear_vec-nil v, a)))

spares_reset :
    {A : Type 0} (s : SpareVecs A)
    → AllEmpty (reset_spares s) × (length (reset_spares s).buffers ≡ length s.buffers)
unfolding reset_spares
spares_reset s = map-clear_vec s.buffers

-- A reset planner scratch has no values anywhere, and as many spare vectors as before, all empty.
pub reset_planner_scratch_lem :
    (s : PlannerScratch)
    → let r = reset_planner_scratch s in
      (r.bytes ≡ [])
      × (r.u32s ≡ [])
      × (r.u64s ≡ [])
      × (r.f32s ≡ [])
      × AllEmpty r.spare_u32s
      × AllEmpty r.spare_u64s
      × AllEmpty r.spare_f32s
      × (length r.spare_u32s.buffers ≡ length s.spare_u32s.buffers)
      × (length r.spare_u64s.buffers ≡ length s.spare_u64s.buffers)
      × (length r.spare_f32s.buffers ≡ length s.spare_f32s.buffers)
unfolding reset_planner_scratch
reset_planner_scratch_lem s = (
  clear_vec-nil s.bytes,
  clear_vec-nil s.u32s,
  clear_vec-nil s.u64s,
  clear_vec-nil s.f32s,
  (spares_reset s.spare_u32s).0,
  (spares_reset s.spare_u64s).0,
  (spares_reset s.spare_f32s).0,
  (spares_reset s.spare_u32s).1,
  (spares_reset s.spare_u64s).1,
  (spares_reset s.spare_f32s).1,
)

-- A reset batch scratch has no values anywhere.
pub reset_batch_scratch_lem :
    (s : BatchScratch)
    → let r = reset_batch_scratch s in
      (r.u32s ≡ [])
      × (r.u64s ≡ [])
      × (r.f32s ≡ [])
      × AllEmpty r.spare_u32s
      × AllEmpty r.spare_u64s
      × AllEmpty r.spare_f32s
unfolding reset_batch_scratch
reset_batch_scratch_lem s = (
  clear_vec-nil s.u32s,
  clear_vec-nil s.u64s,
  clear_vec-nil s.f32s,
  (spares_reset s.spare_u32s).0,
  (spares_reset s.spare_u64s).0,
  (spares_reset s.spare_f32s).0,
)

-- A reset compute scratch has no values anywhere.
pub reset_compute_scratch_lem :
    (s : ComputeScratch)
    → let r = reset_compute_scratch s in
      (r.bytes ≡ []) × (r.u32s ≡ []) × (r.f32s ≡ []) × AllEmpty r.spare_u32s × AllEmpty r.spare_f32s
unfolding reset_compute_scratch
reset_compute_scratch_lem s = (
  clear_vec-nil s.bytes,
  clear_vec-nil s.u32s,
  clear_vec-nil s.f32s,
  (spares_reset s.spare_u32s).0,
  (spares_reset s.spare_f32s).0,
)

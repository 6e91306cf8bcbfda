-- ===== src/Scratch/Examples.antt =====
-- src/scratch.rs: the file's own test of the spare vectors.
use braids_rs.Base.{[], refl, ◌∷◌, ◌≡◌}
use braids_rs.Scratch.{checkout, give_back, PlannerScratch, BatchScratch, no_spares}
use braids_rs.Scratch.Reset.{AllEmpty, checkout-give_back}

recycled : (checkout (give_back (checkout no_spares).0 (7 ∷ []))).1 ≡ []
unfolding checkout give_back
recycled = refl

checkout-give_back_example :
    (checkout (give_back no_spares (1 ∷ 2 ∷ 3 ∷ [])) ≡ (no_spares, []))
    × (AllEmpty no_spares
        → ((checkout no_spares).1 ≡ [])
          × AllEmpty (checkout no_spares).0
          × AllEmpty (give_back no_spares (1 ∷ 2 ∷ 3 ∷ [])))
checkout-give_back_example = checkout-give_back no_spares (1 ∷ 2 ∷ 3 ∷ [])

abbrev used : PlannerScratch
used = record {
  bytes = 1 ∷ [];
  u32s = 2 ∷ [];
  u64s = [];
  f32s = 3 ∷ [];
  spare_u32s = record { buffers = (10 ∷ 11 ∷ []) ∷ [] };
  spare_u64s = no_spares;
  spare_f32s = no_spares;
}

abbrev used_batch : BatchScratch
used_batch = record {
  u32s = 2 ∷ [];
  u64s = 4 ∷ [];
  f32s = [];
  spare_u32s = no_spares;
  spare_u64s = no_spares;
  spare_f32s = no_spares;
}

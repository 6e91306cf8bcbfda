-- ===== src/Packet/Examples.antt =====
-- src/job.rs: a packet with a typed buffer in two slots, and the theorems at it.
use braids_rs.Base.{
  All, List, [], arith, done, if◌then◌else◌, refl, some, suc, ℕ, ◌==◌, ◌↔◌, ◌∷◌, ◌≡◌, ◌⊎◌,
}
use braids_rs.Error.{BraidResult, ok, err, invalid_spec, not_divisible, BraidError}
use braids_rs.Pipeline.Kinds.{u32, f32, per_query_scalar}
use braids_rs.Pipeline.{BufferSpec, CompiledPlan, f32s, clear_data}
use braids_rs.Packet.{
  JobPacket, new_packet, ensure, slice_many, clear_for_reuse, validate_packet, slot_index,
  record_slot_index,
}
use braids_rs.Packet.Invariant.{IsValid, contents, new_packet-IsValid, put, put-IsValid}
use braids_rs.Packet.Contents.{ensure_lem, ensured}
use braids_rs.Packet.Views.{clear_for_reuse_lem}
use braids_rs.Packet.Check.{Fits, validate_packet-Fits, validate_packet_recycled}
use braids_rs.Call.{Call}
use braids_rs.Packet.Slices.{with_slices}
use braids_rs.Packet.Slices.Aliasing.{with_slices_lem}
use braids_rs.Packet.Slices.Lends.{Lends}
use braids_rs.Packet.Slices.Writes.{overwritten}
use braids_rs.Packet.Groups.{Grouped, slice_many-Grouped}
use mathlib.Core.Option

pairs : JobPacket
pairs = put new_packet 3 (f32s (10 ∷ 20 ∷ 30 ∷ 40 ∷ []))

pairs-IsValid : IsValid pairs
unfolding pairs
pairs-IsValid = put-IsValid new_packet 3 (f32s (10 ∷ 20 ∷ 30 ∷ 40 ∷ [])) new_packet-IsValid

contents_pairs : contents pairs 3 ≡ some (f32s (10 ∷ 20 ∷ 30 ∷ 40 ∷ []))
unfolding pairs put contents new_packet slot_index record_slot_index
contents_pairs = refl

grouped_in_two : slice_many f32 2 pairs 3 ≡ done (ok ((10 ∷ 20 ∷ []) ∷ (30 ∷ 40 ∷ []) ∷ []))
unfolding pairs put contents new_packet slot_index record_slot_index slice_many
grouped_in_two = refl

grouped_in_three : slice_many f32 3 pairs 3 ≡ done (err (invalid_spec (not_divisible 3 4 3)))
unfolding pairs put contents new_packet slot_index record_slot_index slice_many
grouped_in_three = refl

abbrev add_one : List ℕ → List ℕ
add_one [] = []
add_one (x ∷ xs) = suc x ∷ add_one xs

ensure_lem_example :
    (q : JobPacket) × (ensure u32 pairs 5 2 add_one ≡ done q)
    × IsValid q
    × (q.query_count ≡ pairs.query_count)
    × ((s : ℕ)
        → contents q s
          ≡ (if 5 == s then some (ensured u32 2 add_one (contents pairs 5)) else contents pairs s))
ensure_lem_example = ensure_lem u32 pairs 5 2 add_one pairs-IsValid

clear_for_reuse_lem_example :
    IsValid (clear_for_reuse pairs)
    × ((clear_for_reuse pairs).query_count ≡ 0)
    × ((s : ℕ) → contents (clear_for_reuse pairs) s ≡ Option.map clear_data (contents pairs s))
clear_for_reuse_lem_example = clear_for_reuse_lem pairs pairs-IsValid

slice_many-Grouped_example :
    (r : BraidResult (List (List ℕ))) × (slice_many f32 2 pairs 3 ≡ done r)
    × Grouped 3 2 (10 ∷ 20 ∷ 30 ∷ 40 ∷ []) r
slice_many-Grouped_example =
    slice_many-Grouped f32 2 pairs 3 (f32s (10 ∷ 20 ∷ 30 ∷ 40 ∷ [])) pairs-IsValid contents_pairs
      refl (omega arith)

abbrev scalar_spec : BufferSpec
scalar_spec = record { slot = 3; element_kind = f32; layout = per_query_scalar }

abbrev scalar_plan : CompiledPlan (Unit {0})
scalar_plan = record {
  pipeline = record { buffers = scalar_spec ∷ []; stages = [] };
  static_buffers = [];
  planner_meta = tt;
}

validate_packet-Fits_example :
    (validate_packet scalar_plan pairs ≡ ok tt)
    ↔ All (Fits (scalar_spec ∷ []) pairs.query_count) pairs.buffers
validate_packet-Fits_example = validate_packet-Fits scalar_plan pairs

validate_packet_recycled_example :
    ¬ (validate_packet scalar_plan (record (clear_for_reuse pairs) { query_count = 4 }) ≡ ok tt)
    × (validate_packet scalar_plan (record new_packet { query_count = 4 }) ≡ ok tt)
validate_packet_recycled_example =
    validate_packet_recycled scalar_plan pairs 3 4 scalar_spec (f32s (10 ∷ 20 ∷ 30 ∷ 40 ∷ []))
      pairs-IsValid contents_pairs refl refl (omega arith)

abbrev same_slices : List (List ℕ) → Call ℕ (List (List ℕ))
same_slices views = (done (ok 1), views)

with_slices_lem_example :
    ((e : BraidError) × (with_slices f32 pairs (3 ∷ []) same_slices ≡ (done (err e), pairs))
      × ((views : List (List ℕ)) → ¬ Lends f32 pairs (3 ∷ []) views))
    ⊎ ((views : List (List ℕ)) × (q : JobPacket) × Lends f32 pairs (3 ∷ []) views
        × (with_slices f32 pairs (3 ∷ []) same_slices ≡ ((same_slices views).0, q))
        × IsValid q
        × ((s : ℕ)
            → contents q s ≡ overwritten f32 (3 ∷ []) (same_slices views).1 s (contents pairs s)))
with_slices_lem_example = with_slices_lem f32 pairs (3 ∷ []) same_slices pairs-IsValid λ views. refl

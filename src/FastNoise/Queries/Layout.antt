-- ===== src/FastNoise/Queries/Layout.antt =====
-- fastnoise/src/runtime.rs and fastnoise/src/model.rs: what a batch of queries amounts to.
use braids_rs.Base.{
  All, Bool, List, [], false, map, ℕ, ◌%◌, ◌*◌, ◌++◌, ◌+◌, ◌<◌, ◌^◌, ◌∷◌, ◌≡◌, ◌⊎◌,
}
use braids_rs.FastNoise.Model.{GraphDimension, d2, d3, ChunkQuery, grid_2d, grid_3d}

-- The query is of the dimension.
abbrev pub IsOf : GraphDimension → ChunkQuery → Type 0
IsOf d2 (grid_2d width height origin step) = Unit {0}
IsOf d3 (grid_3d width height depth origin step) = Unit {0}
IsOf d2 (grid_3d width height depth origin step) = ⊥
IsOf d3 (grid_2d width height origin step) = ⊥

-- The size of the grid: a flat grid is 1 deep.
abbrev pub meta_values : ChunkQuery → List ℕ
meta_values (grid_2d width height origin step) = width % 2 ^ 32 ∷ height % 2 ^ 32 ∷ 1 ∷ []
meta_values (grid_3d width height depth origin step) =
    width % 2 ^ 32 ∷ height % 2 ^ 32 ∷ depth % 2 ^ 32 ∷ []

-- The origin and the step of the grid: a flat grid is at depth 0.0, and its step there is 1.0.
abbrev pub float_values : ChunkQuery → List ℕ
float_values (grid_2d width height (x, y) (dx, dy)) = x ∷ y ∷ 0 ∷ dx ∷ dy ∷ 0x3F800000 ∷ []
float_values (grid_3d width height depth (x, y, z) (dx, dy, dz)) = x ∷ y ∷ z ∷ dx ∷ dy ∷ dz ∷ []

abbrev pub area : ChunkQuery → ℕ
area (grid_2d width height origin step) = width * height
area (grid_3d width height depth origin step) = width * height

-- How many samples the grid has.
abbrev pub sample_count : ChunkQuery → ℕ
sample_count (grid_2d width height origin step) = width * height
sample_count (grid_3d width height depth origin step) = width * height * depth

abbrev pub total : List ℕ → ℕ
total [] = 0
total (n ∷ ns) = n + total ns

-- Where each of the sizes ends, as a `u32`, when the first begins at the cursor.
abbrev pub ends : ℕ → List ℕ → List ℕ
ends cursor [] = []
ends cursor (n ∷ ns) = (cursor + n) % 2 ^ 32 ∷ ends (cursor + n) ns

-- The parts of queries, one after the other.
abbrev pub parts : (ChunkQuery → List ℕ) → List ChunkQuery → List ℕ
parts part [] = []
parts part (q ∷ qs) = part q ++ parts part qs

-- Either overflow is not checked, or nothing overflows: not the area of a grid, and not the count of all
-- samples.
abbrev pub FitsUsize : Bool → ℕ → List ChunkQuery → Type 0
FitsUsize checked cursor qs =
    (checked ≡ false)
    ⊎ (All (λ q. area q < 2 ^ 64) qs × (cursor + total (map sample_count qs) < 2 ^ 64))

-- ===== src/FastNoise/Queries/Rows.antt =====
-- fastnoise/src/runtime.rs: what the loop of `encode_batch` leaves in each vector.
use braids_rs.Base.{
  List, [], ap, append-nil, append_assoc, arith, drop, inl, inr, length, length-append, refl, set,
  some, suc, sym, take, true, zero, ℕ, ◌%◌, ◌*◌, ◌++◌, ◌+◌, ◌-◌, ◌∙◌, ◌∷◌, ◌≡◌, ◌≤◌, ◌^◌, Bool,
  done, All, false, ◌⊎◌, map, and_then, ◌<◌, ◌/◌,
}
use braids_rs.FastNoise.Model.{d2, d3, grid_2d, grid_3d, GraphDimension, ChunkQuery}
use braids_rs.FastNoise.Queries.{
  QueryRow, query_row, set_row, write_rows, write_offsets, reaches_end, advance, times, plus,
  u32_of, sample_count_2d, sample_count_3d,
}
use braids_rs.FastNoise.Queries.Layout.{
  IsOf, meta_values, float_values, sample_count, ends, parts, FitsUsize,
}

pub set-append {ℓ} :
    {A : Type ℓ} (front back : List A) (b x : A)
    → set (front ++ b ∷ back) (length front) x ≡ front ++ x ∷ back
set-append [] back b x = refl
set-append (a ∷ front) back b x = ap (λ l. a ∷ l) (set-append front back b x)

snoc_append {ℓ} :
    {A : Type ℓ} (front back : List A) (x : A) → (front ++ x ∷ []) ++ back ≡ front ++ x ∷ back
snoc_append front back x = append_assoc front (x ∷ []) back

length-snoc {ℓ} :
    {A : Type ℓ} (front : List A) (x : A) → length (front ++ x ∷ []) ≡ length front + 1
length-snoc front x = length-append front (x ∷ [])

-- A row is written over as many values behind the ones in front.
set_row_lem :
    (front back rest xs : List ℕ) (base : ℕ)
    → length front ≡ base
    → length back ≡ length xs
    → set_row (front ++ (back ++ rest)) base xs ≡ (front ++ xs) ++ rest
set_row_lem front [] rest [] base at e = ap (λ l. l ++ rest) (sym (append-nil front))
set_row_lem front (b ∷ back) rest [] base at e = ground arith
set_row_lem front [] rest (x ∷ xs) base at e = ground arith
set_row_lem front (b ∷ back) rest (x ∷ xs) base at e =
    ap (λ l. set_row l (suc base) xs)
      (ap (λ n. set (front ++ b ∷ (back ++ rest)) n x) (sym at)
        ∙ set-append front (back ++ rest) b x
        ∙ sym (snoc_append front (back ++ rest) x))
    ∙ set_row_lem (front ++ x ∷ []) back rest xs (suc base) (omega (arith, length-snoc front x))
        (omega arith)
    ∙ ap (λ l. l ++ rest) (snoc_append front xs x)

pub append-take : (n : ℕ) (xs : List ℕ) → take n xs ++ drop n xs ≡ xs
append-take zero xs = refl
append-take (suc n) [] = refl
append-take (suc n) (x ∷ xs) = ap (λ l. x ∷ l) (append-take n xs)

pub length-take : (n : ℕ) (xs : List ℕ) → n ≤ length xs → length (take n xs) ≡ n
length-take zero xs h = refl
length-take (suc n) [] h = omega arith
length-take (suc n) (x ∷ xs) h = ap suc (length-take n xs (omega arith))

pub length-drop : (n : ℕ) (xs : List ℕ) → length (drop n xs) ≡ length xs - n
length-drop zero xs = omega arith
length-drop (suc n) [] = omega arith
length-drop (suc n) (x ∷ xs) = omega (arith, length-drop n xs)

times_mod : (x d : ℕ) → ((x % 2 ^ 64) * d) % 2 ^ 64 ≡ (x * d) % 2 ^ 64
times_mod x d =
    let split : x ≡ x % 2 ^ 64 + x / 2 ^ 64 * 2 ^ 64 = omega arith in
    let spread : (x % 2 ^ 64 + x / 2 ^ 64 * 2 ^ 64) * d
        ≡ (x % 2 ^ 64) * d + (x / 2 ^ 64 * d) * 2 ^ 64 =
      omega arith in
    let same : x * d ≡ (x % 2 ^ 64) * d + (x / 2 ^ 64 * d) * 2 ^ 64 =
      ap (λ k. k * d) split ∙ spread in
    omega (arith, same)

times_done :
    (checked : Bool) (a b : ℕ)
    → (checked ≡ false) ⊎ (a * b < 2 ^ 64)
    → times checked a b ≡ done ((a * b) % 2 ^ 64)
times_done false a b h = refl
times_done true a b (inl e) = cc
times_done true a b (inr h) = ground arith

plus_done :
    (checked : Bool) (a b : ℕ)
    → (checked ≡ false) ⊎ (a + b < 2 ^ 64)
    → plus checked (a % 2 ^ 64) (b % 2 ^ 64) ≡ done ((a + b) % 2 ^ 64)
plus_done false a b h = ap (λ n. done n) (omega arith)
plus_done true a b (inl e) = cc
plus_done true a b (inr h) = ground arith

-- A query of the dimension has a row, and its count of samples is added to the cursor.
pub query_row-advance :
    (checked : Bool) (dim : GraphDimension) (q : ChunkQuery) (qs : List ChunkQuery) (n : ℕ)
    → IsOf dim q
    → FitsUsize checked n (q ∷ qs)
    → (r : QueryRow) × (query_row checked dim q ≡ some r)
      × (advance checked (n % 2 ^ 64) r ≡ done ((n + sample_count q) % 2 ^ 64))
unfolding query_row
query_row-advance checked d2 (grid_2d w h (x, y) (dx, dy)) qs n of fits = (
  record {
    metas = meta_values (grid_2d w h (x, y) (dx, dy));
    floats = float_values (grid_2d w h (x, y) (dx, dy));
    samples = sample_count_2d checked w h;
  },
  refl,
  ap (λ c. and_then c λ k. plus checked (n % 2 ^ 64) k)
        (times_done checked w h (elim fits [ inl e ↦ inl e | inr (areas, few) ↦ inr areas.0 ]))
      ∙ plus_done checked n (w * h)
          (elim fits [ inl e ↦ inl e | inr (areas, few) ↦ inr (omega arith) ]),
)
query_row-advance checked d3 (grid_3d w h d (x, y, z) (dx, dy, dz)) qs n of fits = (
  record {
    metas = meta_values (grid_3d w h d (x, y, z) (dx, dy, dz));
    floats = float_values (grid_3d w h d (x, y, z) (dx, dy, dz));
    samples = sample_count_3d checked w h d;
  },
  refl,
  ap (λ c. and_then c λ k. plus checked (n % 2 ^ 64) k)
        (ap (λ c. and_then c λ a. times checked a d)
            (times_done checked w h (elim fits [ inl e ↦ inl e | inr (areas, few) ↦ inr areas.0 ]))
          ∙ times_done checked ((w * h) % 2 ^ 64) d (elim fits [
            | inl e ↦ inl e
            | inr (areas, few) ↦
                let small : (w * h) % 2 ^ 64 ≡ w * h = omega (arith, areas.0) in
                inr (rw small (omega arith))
          ])
          ∙ ap (λ c. done c) (times_mod (w * h) d))
      ∙ plus_done checked n (w * h * d)
          (elim fits [ inl e ↦ inl e | inr (areas, few) ↦ inr (omega arith) ]),
)
query_row-advance checked d2 (grid_3d w h d o s) qs n of fits = elim of [ ]
query_row-advance checked d3 (grid_2d w h o s) qs n of fits = elim of [ ]

FitsUsize-rest :
    (checked : Bool) (n : ℕ) (q : ChunkQuery) (qs : List ChunkQuery)
    → FitsUsize checked n (q ∷ qs)
    → FitsUsize checked (n + sample_count q) qs
FitsUsize-rest checked n q qs (inl e) = inl e
FitsUsize-rest checked n q qs (inr (areas, few)) = inr (areas.1, omega arith)

module _ (checked : Bool) (dim : GraphDimension) where
  module _ (width : ℕ) (part : QueryRow → List ℕ) (said : ChunkQuery → List ℕ)
      (sized : (q : ChunkQuery) → length (said q) ≡ width)
      (agree : (q : ChunkQuery) (r : QueryRow)
        → query_row checked dim q ≡ some r
        → part r ≡ said q) where
    write_rows_row :
        (q : ChunkQuery) (r : QueryRow) (index cursor next : ℕ) (qs : List ChunkQuery) (v : List ℕ)
        → query_row checked dim q ≡ some r
        → advance checked cursor r ≡ done next
        → write_rows checked width part dim index cursor (q ∷ qs) v
          ≡ write_rows checked width part dim
              (index + 1)
              next
              qs
              (set_row v (index * width) (said q))
    unfolding write_rows
    write_rows_row q r index cursor next qs v e f =
        rw (write_rows, e)
          (rw (write_rows, f)
            (ap
              (λ l.
                write_rows checked width part dim (index + 1) next qs (set_row v (index * width) l))
              (agree q r e)))

    pub write_rows_lem :
        (front back : List ℕ) (index n : ℕ) (qs : List ChunkQuery)
        → All (IsOf dim) qs
        → FitsUsize checked n qs
        → length front ≡ index * width
        → length back ≡ length qs * width
        → write_rows checked width part dim index (n % 2 ^ 64) qs (front ++ back)
          ≡ front ++ parts said qs
    unfolding write_rows
    write_rows_lem front [] index n [] h fits at size = refl
    write_rows_lem front (b ∷ back) index n [] h fits at size = ground arith
    write_rows_lem front back index n (q ∷ qs) h fits at size =
        let (r, e, f) = query_row-advance checked dim q qs n h.0 fits in
        let few = length-take width back (omega arith) in
        write_rows_row q r index (n % 2 ^ 64) ((n + sample_count q) % 2 ^ 64) qs (front ++ back) e f
        ∙ ap (write_rows checked width part dim (index + 1) ((n + sample_count q) % 2 ^ 64) qs) (
            ap (λ l. set_row (front ++ l) (index * width) (said q)) (sym (append-take width back))
            ∙ set_row_lem front (take width back) (drop width back) (said q) (index * width) at
                (few ∙ sym (sized q)))
        ∙ write_rows_lem (front ++ said q) (drop width back) (index + 1) (n + sample_count q) qs h.1
            (FitsUsize-rest checked n q qs fits)
            (omega (arith, length-append front (said q), sized q))
            (omega (arith, length-drop width back))
        ∙ append_assoc front (said q) (parts said qs)

  write_offsets_row :
      (q : ChunkQuery) (r : QueryRow) (index cursor next : ℕ) (qs : List ChunkQuery) (v : List ℕ)
      → query_row checked dim q ≡ some r
      → advance checked cursor r ≡ done next
      → write_offsets checked dim index cursor (q ∷ qs) v
        ≡ write_offsets checked dim (index + 1) next qs (set v (index + 1) (u32_of next))
  unfolding write_offsets
  write_offsets_row q r index cursor next qs v e f =
      rw (write_offsets, e) (rw (write_offsets, f) refl)

  pub write_offsets_lem :
      (front back : List ℕ) (index n : ℕ) (qs : List ChunkQuery)
      → All (IsOf dim) qs
      → FitsUsize checked n qs
      → length front ≡ index + 1
      → length back ≡ length qs
      → write_offsets checked dim index (n % 2 ^ 64) qs (front ++ back)
        ≡ front ++ ends n (map sample_count qs)
  unfolding write_offsets
  write_offsets_lem front [] index n [] h fits at size = refl
  write_offsets_lem front (b ∷ back) index n [] h fits at size = ground arith
  write_offsets_lem front [] index n (q ∷ qs) h fits at size = ground arith
  write_offsets_lem front (b ∷ back) index n (q ∷ qs) h fits at size =
      let (r, e, f) = query_row-advance checked dim q qs n h.0 fits in
      let next = (n + sample_count q) % 2 ^ 64 in
      let end = (n + sample_count q) % 2 ^ 32 in
      let narrow : u32_of next ≡ end = omega arith in
      write_offsets_row q r index (n % 2 ^ 64) next qs (front ++ b ∷ back) e f
      ∙ ap (write_offsets checked dim (index + 1) next qs) (
          ap (λ k. set (front ++ b ∷ back) k (u32_of next)) (sym at)
          ∙ set-append front back b (u32_of next)
          ∙ sym (snoc_append front back (u32_of next))
          ∙ ap (λ k. (front ++ k ∷ []) ++ back) narrow)
      ∙ write_offsets_lem (front ++ end ∷ []) back (index + 1) (n + sample_count q) qs h.1
          (FitsUsize-rest checked n q qs fits) (omega (arith, length-snoc front end)) (omega arith)
      ∙ snoc_append front (ends (n + sample_count q) (map sample_count qs)) end

  reaches_end_row :
      (q : ChunkQuery) (r : QueryRow) (cursor next : ℕ) (qs : List ChunkQuery)
      → query_row checked dim q ≡ some r
      → advance checked cursor r ≡ done next
      → reaches_end checked dim cursor (q ∷ qs) ≡ reaches_end checked dim next qs
  unfolding reaches_end
  reaches_end_row q r cursor next qs e f = rw (reaches_end, e) (rw (reaches_end, f) refl)

  pub reaches_end_lem :
      (n : ℕ) (qs : List ChunkQuery)
      → All (IsOf dim) qs
      → FitsUsize checked n qs
      → reaches_end checked dim (n % 2 ^ 64) qs ≡ true
  unfolding reaches_end
  reaches_end_lem n [] h fits = refl
  reaches_end_lem n (q ∷ qs) h fits =
      let (r, e, f) = query_row-advance checked dim q qs n h.0 fits in
      reaches_end_row q r (n % 2 ^ 64) ((n + sample_count q) % 2 ^ 64) qs e f
      ∙ reaches_end_lem (n + sample_count q) qs h.1 (FitsUsize-rest checked n q qs fits)

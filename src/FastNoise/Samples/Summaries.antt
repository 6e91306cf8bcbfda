-- ===== src/FastNoise/Samples/Summaries.antt =====
-- fastnoise/src/runtime.rs: a summary is made of any samples.
use braids_rs.Base.{
  Bool-cases, List, [], ap, arith, done, get_elem?, get_elem?-some, inl, inr, length, refl, suc,
  sym, zero, ℕ, ◌*◌, ◌+◌, ◌-◌, ◌/◌, ◌<◌, ◌==◌, ◌∷◌, ◌≡◌, ◌≤◌, some, ◌∙◌,
}
use braids_rs.FastNoise.Samples.{
  tap_index, taps_from, summarize_samples, ChunkSummary, tap_count, FloatOps, summary_of, scan,
  first_running,
}

mul_bound : (index bound m : ℕ) → index ≤ bound → index * m ≤ bound * m
mul_bound index bound zero h = omega arith
mul_bound index bound (suc m) h = omega (arith, mul_bound index bound m h)

div_lt : (x n : ℕ) → x ≤ 7 * (n - 1) → 1 ≤ n → x / 7 < n
div_lt x n h pos = omega arith

tap_in_bounds : (n index : ℕ) → index ≤ 7 → 1 ≤ n → tap_index n index < n
tap_in_bounds n index h pos = elim (Bool-cases (n == 1)) [
  | inl e ↦ rw e pos
  | inr e ↦ rw e (div_lt (index * (n - 1)) n (mul_bound index 7 (n - 1) h) pos)
]

-- Each tap is the value at its index.
abbrev pub Taps : List ℕ → ℕ → ℕ → List ℕ → Type 0
Taps values index k taps =
    (i : ℕ) → i < k → get_elem? taps i ≡ get_elem? values (tap_index (length values) (index + i))

cons_each :
    (values : List ℕ) (index k tap : ℕ) (taps : List ℕ)
    → get_elem? values (tap_index (length values) index) ≡ some tap
    → Taps values (index + 1) k taps
    → Taps values index (suc k) (tap ∷ taps)
cons_each values index k tap taps at each zero small =
    let same : index ≡ index + 0 = omega arith in
    sym at ∙ ap (λ n. get_elem? values (tap_index (length values) n)) same
cons_each values index k tap taps at each (suc i) small =
    let same : index + 1 + i ≡ index + suc i = omega arith in
    each i (omega arith) ∙ ap (λ n. get_elem? values (tap_index (length values) n)) same

taps_from_lem :
    (k index : ℕ) (values : List ℕ)
    → index + k ≤ 8
    → 1 ≤ length values
    → (taps : List ℕ) × (taps_from k index values ≡ done taps)
      × (length taps ≡ k)
      × ((i : ℕ)
          → i < k
          → get_elem? taps i ≡ get_elem? values (tap_index (length values) (index + i)))
unfolding taps_from
taps_from_lem zero index values h pos = ([], refl, refl, λ i small. ground arith)
taps_from_lem (suc k) index values h pos =
    let (tap, at) =
      get_elem?-some values (tap_index (length values) index)
        (tap_in_bounds (length values) index (omega arith) pos) in
    let (taps, e, size, each) = taps_from_lem k (index + 1) values (omega arith) pos in
    (tap ∷ taps, rw (taps_from, at, e) refl, ap suc size, cons_each values index k tap taps at each)

-- What a summary says of its samples: their number, and eight of them, from the first to the last.
abbrev pub Summarizes : List ℕ → ChunkSummary → Type 0
Summarizes values s =
    (s.samples ≡ length values)
    × (length s.taps ≡ tap_count)
    × (1 ≤ length values
        → (get_elem? s.taps 0 ≡ get_elem? values 0)
          × (get_elem? s.taps 7 ≡ get_elem? values (length values - 1)))

first_tap : (n : ℕ) → tap_index n 0 ≡ 0
first_tap n = ground arith

last_tap : (n : ℕ) → 1 ≤ n → tap_index n 7 ≡ n - 1
last_tap n pos = elim (Bool-cases (n == 1)) [
  | inl e ↦ ground (arith, e)
  | inr e ↦ rw e (omega arith)
]

-- A summary is made of any samples, with no index out of bounds: it counts them, and its taps are eight
-- of them, the first and the last included.
pub summarize_samples_lem :
    (F : FloatOps) (values : List ℕ)
    → (s : ChunkSummary) × (summarize_samples F values ≡ done s) × Summarizes values s
unfolding summarize_samples
summarize_samples_lem F [] = (_, refl, (refl, refl, λ pos. ground arith))
summarize_samples_lem F (first ∷ values) =
    let (taps, e, size, each) = taps_from_lem 8 0 (first ∷ values) (omega arith) (omega arith) in
    let n = suc (length values) in
    let all = first ∷ values in
    (
      summary_of F all (scan F (first_running F first) all) taps,
      rw e refl,
      (
        refl,
        size,
        λ pos. (
          each 0 (omega arith) ∙ ap (get_elem? all) (first_tap n),
          each 7 (omega arith) ∙ ap (get_elem? all) (last_tap n (omega arith)),
        ),
      ),
    )

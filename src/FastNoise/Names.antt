-- ===== src/FastNoise/Names.antt =====
-- The hash maps of fastnoise/src/model.rs and fastnoise/src/runtime.rs, whose keys are ids: an association
-- list. The order of a hash map is not observed.
use braids_rs.Base.{
  List, [], ◌∷◌, Option, none, some, ◌≡◌, ◌≢◌, ◌⊎◌, inl, inr, true, false, String, if◌then◌else◌,
  arith, Bool-cases, Bool,
}
use text.Mathlib.Text.{◌==◌}
use text.Mathlib.TextEquality.{eq_iff}

abbrev pub NameMap {ℓ} : Type ℓ → Type ℓ
NameMap V = List (String × V)

module _ {ℓ} {V : Type ℓ} where
  -- `get`
  unfoldable pub lookup : String → NameMap V → Option V
  lookup id [] = none
  lookup id ((k, v) ∷ m) = let rest = lookup id m in if k == id then some v else rest

  -- `remove`
  unfoldable pub without : String → NameMap V → NameMap V
  without id [] = []
  without id ((k, v) ∷ m) = let rest = without id m in if k == id then rest else (k, v) ∷ rest

  -- `insert`
  unfoldable pub bind : String → V → NameMap V → NameMap V
  unfolding without
  bind id v m = (id, v) ∷ without id m

  pub lookup-without :
      (id i : String) (m : NameMap V)
      → lookup i (without id m) ≡ (if id == i then none else lookup i m)
  unfolding lookup without
  lookup-without id i [] = ground arith
  lookup-without id i ((k, v) ∷ m) =
      ground (arith, lookup-without id i m, eq_iff k id, eq_iff k i, eq_iff id i)

  pub lookup-bind :
      (id i : String) (v : V) (m : NameMap V)
      → lookup i (bind id v m) ≡ (if id == i then some v else lookup i m)
  unfolding bind lookup
  lookup-bind id i v m = simp lookup-without (ground arith)

abbrev pub same_id : String → String → Bool
same_id a b = a == b

-- Two ids are the same or not, and the test says which.
pub id_cases : (a b : String) → ((a ≡ b) × (same_id a b ≡ true)) ⊎ ((a ≢ b) × (same_id a b ≡ false))
id_cases a b = elim (Bool-cases (a == b)) [
  | inl e ↦ inl (ground (arith, eq_iff a b), e)
  | inr e ↦ inr (ground (arith, eq_iff a b), e)
]

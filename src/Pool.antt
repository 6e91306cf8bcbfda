-- ===== src/Pool.antt =====
-- src/buffer_pool.rs: a pool of reusable values behind a mutex, and the return of a version's prepared
-- state to its pool (src/version.rs).
use braids_rs.Base.{Bool, List, String, [], if◌then◌else◌, ◌∷◌}
use braids_rs.Error.{BraidResult, ok, err, poisoned}

-- `locked_up` is the poison flag of the mutex; the head of the list is the end of the vector.
pub record ReusablePool {ℓ} (A : Type ℓ) : Type ℓ where
  pub items : List A
  pub locked_up : Bool

-- `pop().unwrap_or_default()`
abbrev pub pop_or {ℓ} : {A : Type ℓ} → A → List A → A × List A
pop_or d [] = (d, [])
pop_or d (x ∷ xs) = (x, xs)

module _ {ℓ} {A : Type ℓ} (fresh : A) where
  unfoldable pub checkout : ReusablePool A → String → BraidResult (A × ReusablePool A)
  checkout p label =
      if p.locked_up
      then err (poisoned label)
      else ok ((pop_or fresh p.items).0, record p { items = (pop_or fresh p.items).1 })

unfoldable pub give_back {ℓ} :
    {A : Type ℓ} → ReusablePool A → String → A → BraidResult (ReusablePool A)
give_back p label item =
    if p.locked_up then err (poisoned label) else ok (record p { items = item ∷ p.items })

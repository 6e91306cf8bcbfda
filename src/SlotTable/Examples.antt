-- ===== src/SlotTable/Examples.antt =====
-- src/slot_table.rs: the file's own tests, and the theorems at concrete tables.
use braids_rs.Base.{
  List, [], arith, count, done, if◌then◌else◌, length, none, refl, some, suc, zero, ℕ, ◌<◌, ◌∷◌,
  ◌≡◌, ◌*◌,
}
use braids_rs.SlotTable.{
  SlotTable, SlotKey, insert, remove, get, clear_reuse, iter, empty, capacity,
}
use braids_rs.SlotTable.Holes.{vacancy}
use braids_rs.SlotTable.Invariant.{IsValid}
use braids_rs.SlotTable.Lookup.{same_key, get-insert, get-remove}
use braids_rs.SlotTable.Clear.{get-clear_reuse}
use braids_rs.SlotTable.Stale.{
  Op, inserts, removes, updates, clears, apply_op, run_ops, run_ops-IsValid, get-run_ops_removed,
}
use mathlib.Core.Option
use braids_rs.SlotTable.{iter_mut}
use braids_rs.SlotTable.Iteration.{get-iter_mut, find_key, find_key-iter}

abbrev first_key : SlotKey
first_key = record { index = 0; generation = 0 }

-- The table after the values 10 and 20 went in and 10 was removed.
abbrev one_hole : SlotTable ℕ
one_hole = record {
  slots = record { generation = 1; value = none } ∷ record { generation = 0; value = some 20 } ∷ [];
  free = 0 ∷ [];
  len = 1;
}

abbrev two_values : SlotTable ℕ
two_values = record {
  slots =
      record { generation = 0; value = some 10 } ∷ record { generation = 0; value = some 20 } ∷ [];
  free = [];
  len = 2;
}

one_hole_reached : run_ops empty (inserts 10 ∷ inserts 20 ∷ removes first_key ∷ []) ≡ done one_hole
unfolding run_ops apply_op insert remove empty
one_hole_reached = refl

reuses_holes :
    insert one_hole 30
    ≡ done (
      record {
        slots =
            record { generation = 1; value = some 30 }
            ∷ record { generation = 0; value = some 20 }
            ∷ [];
        free = [];
        len = 2;
      },
      record { index = 0; generation = 1 },
    )
unfolding insert
reuses_holes = refl

vacancy_one_hole : (i : ℕ) → count i one_hole.free ≡ vacancy one_hole.slots i
vacancy_one_hole zero = refl
vacancy_one_hole (suc zero) = refl
vacancy_one_hole (suc (suc i)) = ground arith

one_hole-IsValid : IsValid one_hole
one_hole-IsValid = record { free_exact = vacancy_one_hole; len_exact = refl }

vacancy_two_values : (i : ℕ) → count i two_values.free ≡ vacancy two_values.slots i
vacancy_two_values zero = refl
vacancy_two_values (suc zero) = refl
vacancy_two_values (suc (suc i)) = ground arith

two_values-IsValid : IsValid two_values
two_values-IsValid = record { free_exact = vacancy_two_values; len_exact = refl }

get-insert_example :
    (u : SlotTable ℕ) × (k : SlotKey) × (insert one_hole 30 ≡ done (u, k))
    × IsValid u
    × (get one_hole k ≡ none)
    × ((j : SlotKey) → get u j ≡ (if same_key k j then some 30 else get one_hole j))
get-insert_example = get-insert one_hole 30 one_hole-IsValid (omega arith)

get-remove_example :
    (u : SlotTable ℕ) × (remove two_values first_key ≡ done (u, get two_values first_key))
    × IsValid u
    × ((j : SlotKey) → get u j ≡ (if same_key first_key j then none else get two_values j))
get-remove_example = get-remove two_values first_key two_values-IsValid

get-clear_reuse_example :
    IsValid (clear_reuse one_hole)
    × (capacity (clear_reuse one_hole) ≡ capacity one_hole)
    × ((clear_reuse one_hole).len ≡ 0)
    × ((k : SlotKey) → get (clear_reuse one_hole) k ≡ none)
    × ((i : ℕ) → i < capacity one_hole → count i (clear_reuse one_hole).free ≡ 1)
get-clear_reuse_example = get-clear_reuse one_hole

abbrev later_calls : List (Op ℕ)
later_calls = inserts 30 ∷ updates first_key suc ∷ clears ∷ inserts 40 ∷ []

run_ops-IsValid_example : (u : SlotTable ℕ) × (run_ops two_values later_calls ≡ done u) × IsValid u
run_ops-IsValid_example = run_ops-IsValid two_values later_calls two_values-IsValid

get-run_ops_removed_example :
    (w : SlotTable ℕ) × (run_ops one_hole later_calls ≡ done w) × (get w first_key ≡ none)
unfolding remove
get-run_ops_removed_example =
    get-run_ops_removed two_values one_hole first_key 10 later_calls two_values-IsValid
      (omega arith) refl (omega arith)

find_key-iter_example :
    (length (iter one_hole) ≡ one_hole.len)
    × ((k : SlotKey) → find_key k (iter one_hole) ≡ get one_hole k)
find_key-iter_example = find_key-iter one_hole one_hole-IsValid (omega arith)

abbrev doubled : SlotKey → ℕ → ℕ
doubled k v = v * 2

get-iter_mut_example :
    get (iter_mut doubled two_values) first_key
    ≡ Option.map (doubled first_key) (get two_values first_key)
get-iter_mut_example = get-iter_mut doubled two_values first_key (omega arith)

-- ===== src/FastNoise/State/Examples.antt =====
-- fastnoise/src/runtime.rs: a graph whose noises are numbers.
use braids_rs.Base.{List, [], arith, done, refl, some, ℕ, ◌∷◌, ◌≡◌}
use braids_rs.Error.{ok}
use braids_rs.SlotTable.{get}
use braids_rs.FastNoise.Names.{lookup}
use braids_rs.FastNoise.Model.{
  NodeSpec, sample_2d_node, warp_2d_node, base, node, d2, upsert_node, remove_node, set_final_field,
  FastNoiseState, FastNoiseGraphSpec, FastNoiseChange,
}
use braids_rs.FastNoise.State.{apply_changes, reset_from_spec, from_spec}
use braids_rs.FastNoise.State.Steps.{IsSound, Leads, find}
use braids_rs.FastNoise.State.Changes.{after, field_after, apply_changes_lem}
use braids_rs.FastNoise.State.Specs.{Holds, reset_from_spec_lem, from_spec_lem}

abbrev warped : NodeSpec ℕ
warped = warp_2d_node (record { id = "warp"; source = base; noise = 7 })

abbrev sampled : NodeSpec ℕ
sampled = sample_2d_node (record { id = "out"; source = node "warp"; noise = 8 })

abbrev two_nodes : FastNoiseGraphSpec ℕ
two_nodes = record { dimension = d2; nodes = warped ∷ sampled ∷ []; final_field = "out" }

abbrev resampled : List (FastNoiseChange ℕ)
resampled =
    upsert_node (sample_2d_node (record { id = "out"; source = base; noise = 9 }))
    ∷ remove_node "warp"
    ∷ set_final_field "out"
    ∷ []

from_spec_lem_example :
    (s : FastNoiseState ℕ) × (from_spec two_nodes ≡ done (ok s)) × Holds two_nodes s
from_spec_lem_example = from_spec_lem two_nodes (omega arith)

abbrev no_nodes : FastNoiseState ℕ
no_nodes = record {
  dimension = d2;
  final_field = "";
  nodes = record { slots = []; free = []; len = 0 };
  node_keys = [];
}

no_nodes-IsSound : IsSound no_nodes
unfolding lookup get
no_nodes-IsSound = record {
  table = record { free_exact = λ i. refl; len_exact = refl };
  matching = record { bound = λ id k e. ground (arith, e); named = λ k node e. ground (arith, e) };
}

abbrev one_node : FastNoiseState ℕ
one_node = record no_nodes {
  nodes = record {
    slots = record { generation = 4; value = some warped } ∷ [];
    free = [];
    len = 1;
  };
  node_keys = ("warp", record { index = 0; generation = 4 }) ∷ [];
}

reset_from_spec_lem_example :
    (s : FastNoiseState ℕ) × (reset_from_spec two_nodes one_node ≡ (done (ok tt), s))
    × Holds two_nodes s
reset_from_spec_lem_example = reset_from_spec_lem two_nodes one_node (omega arith)

apply_changes_lem_example :
    (s : FastNoiseState ℕ) × (apply_changes resampled no_nodes ≡ (done (ok tt), s))
    × Leads no_nodes 3 (field_after resampled "") (after resampled (find no_nodes)) s
apply_changes_lem_example = apply_changes_lem resampled no_nodes no_nodes-IsSound (omega arith)

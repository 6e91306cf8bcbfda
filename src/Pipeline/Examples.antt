-- ===== src/Pipeline/Examples.antt =====
-- src/pipeline.rs: a plan with two buffers, a static one among them, and one kernel.
use braids_rs.Base.{[], refl, ◌↔◌, ◌∷◌, ◌≡◌}
use braids_rs.Error.{ok, err, invalid_spec, duplicate_slot, undeclared_binding}
use braids_rs.Pipeline.Kinds.{u32, per_query_scalar, per_query_vector, read, serial}
use braids_rs.Pipeline.{BufferSpec, CompiledPlan, u32s, validate}
use braids_rs.Pipeline.Validation.{WellFormed, validate-WellFormed}

abbrev scalar_spec : BufferSpec
scalar_spec = record { slot = 1; element_kind = u32; layout = per_query_scalar }

abbrev vector_spec : BufferSpec
vector_spec = record { slot = 2; element_kind = u32; layout = per_query_vector 3 }

abbrev small_plan : CompiledPlan (Unit {0})
small_plan = record {
  pipeline = record {
    buffers = scalar_spec ∷ vector_spec ∷ [];
    stages =
        record {
          kernels =
              record {
                kind_id = 7;
                payload = [];
                bindings = record { slot = 2; access = read } ∷ [];
                dispatch = serial;
              }
              ∷ [];
        }
        ∷ [];
  };
  static_buffers = record { slot = 1; contents = u32s (5 ∷ []) } ∷ [];
  planner_meta = tt;
}

-- The first of the plans that the source's own test refuses.
duplicate_refused :
    validate (record small_plan {
      pipeline = record { buffers = scalar_spec ∷ scalar_spec ∷ []; stages = [] };
    })
    ≡ err (invalid_spec (duplicate_slot 1))
unfolding validate
duplicate_refused = refl

undeclared_refused :
    validate (record small_plan {
      pipeline = record { buffers = scalar_spec ∷ []; stages = small_plan.pipeline.stages };
    })
    ≡ err (invalid_spec (undeclared_binding 0 0 2))
unfolding validate
undeclared_refused = refl

validate-WellFormed_example : (validate small_plan ≡ ok tt) ↔ WellFormed small_plan
validate-WellFormed_example = validate-WellFormed small_plan

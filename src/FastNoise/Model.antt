-- ===== src/FastNoise/Model.antt =====
-- fastnoise/src/model.rs: the graph, its changes and queries, and the numbers of kernels and slots.
use braids_rs.Base.{List, Option, String, if◌then◌else◌, none, some, ℕ, ◌==◌}
use braids_rs.SlotTable.{SlotTable, SlotKey}

pub data FastNoiseKernel : Type 0 where
  init_grid_2d init_grid_3d warp_2d warp_3d sample_2d sample_3d combine : FastNoiseKernel

unfoldable pub kind : FastNoiseKernel → ℕ
kind init_grid_2d = 0xF001
kind init_grid_3d = 0xF002
kind warp_2d = 0xF100
kind warp_3d = 0xF101
kind sample_2d = 0xF200
kind sample_3d = 0xF201
kind combine = 0xF300

unfoldable pub from_kind : ℕ → Option FastNoiseKernel
from_kind v =
    if v == 0xF001
    then some init_grid_2d
    else if v == 0xF002
    then some init_grid_3d
    else if v == 0xF100
    then some warp_2d
    else if v == 0xF101
    then some warp_3d
    else if v == 0xF200
    then some sample_2d
    else if v == 0xF201
    then some sample_3d
    else if v == 0xF300
    then some combine
    else none

abbrev pub slot_query_meta : ℕ
slot_query_meta = 0

abbrev pub slot_query_f32 : ℕ
slot_query_f32 = 1

abbrev pub slot_query_offsets : ℕ
slot_query_offsets = 2

abbrev pub slot_base_x : ℕ
slot_base_x = 10

abbrev pub slot_base_y : ℕ
slot_base_y = 11

abbrev pub slot_base_z : ℕ
slot_base_z = 12

abbrev pub slot_dynamic_start : ℕ
slot_dynamic_start = 32

pub data GraphDimension : Type 0 where
  d2 d3 : GraphDimension

pub data CombineOp : Type 0 where
  add sub mul min max clamp remap y_gradient : CombineOp

pub data PositionSource : Type 0 where
  base : PositionSource
  node : String → PositionSource

-- `Warp2DNode`, `Warp3DNode`, `Sample2DNode` and `Sample3DNode`, over the noise of the library.
pub record NoiseNode (Noise : Type 0) : Type 0 where
  pub id : String
  pub source : PositionSource
  pub noise : Noise

pub record CombineNode : Type 0 where
  pub id : String
  pub inputs : List String
  pub op : CombineOp
  pub params : List ℕ

pub data NodeSpec (Noise : Type 0) : Type 0 where
  warp_2d_node warp_3d_node sample_2d_node sample_3d_node : NoiseNode Noise → NodeSpec Noise
  combine_node : CombineNode → NodeSpec Noise

pub record FastNoiseGraphSpec (Noise : Type 0) : Type 0 where
  pub dimension : GraphDimension
  pub nodes : List (NodeSpec Noise)
  pub final_field : String

pub data FastNoiseChange (Noise : Type 0) : Type 0 where
  upsert_node : NodeSpec Noise → FastNoiseChange Noise
  remove_node set_final_field : String → FastNoiseChange Noise

-- The sizes, then the origin and the step of each axis.
pub data ChunkQuery : Type 0 where
  grid_2d : ℕ → ℕ → ℕ × ℕ → ℕ × ℕ → ChunkQuery
  grid_3d : ℕ → ℕ → ℕ → ℕ × ℕ × ℕ → ℕ × ℕ × ℕ → ChunkQuery

pub record ChunkSummary : Type 0 where
  pub samples : ℕ
  pub min : ℕ
  pub max : ℕ
  pub mean : ℕ
  pub checksum : ℕ
  pub taps : List ℕ

pub record FastNoisePlannerMeta : Type 0 where
  pub dimension : GraphDimension
  pub final_slot : ℕ

pub record FastNoiseState (Noise : Type 0) : Type 0 where
  pub dimension : GraphDimension
  pub final_field : String
  pub nodes : SlotTable (NodeSpec Noise)
  pub node_keys : List (String × SlotKey)

pub data OutputKind : Type 0 where
  position scalar : GraphDimension → OutputKind

unfoldable pub node_id : {Noise : Type 0} → NodeSpec Noise → String
node_id (warp_2d_node n) = n.id
node_id (warp_3d_node n) = n.id
node_id (sample_2d_node n) = n.id
node_id (sample_3d_node n) = n.id
node_id (combine_node n) = n.id

unfoldable pub output_kind : {Noise : Type 0} → NodeSpec Noise → GraphDimension → OutputKind
output_kind (warp_2d_node n) d = position d2
output_kind (warp_3d_node n) d = position d3
output_kind (sample_2d_node n) d = scalar d2
output_kind (sample_3d_node n) d = scalar d3
output_kind (combine_node n) d = scalar d

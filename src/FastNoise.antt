-- ===== src/FastNoise.antt =====
-- fastnoise/src: a planner for graphs of noise nodes, and its kernels for the CPU backend.
pub mod Model
pub mod Library
pub mod Names
pub mod Floats
pub mod State
pub mod Queries
pub mod Samples
pub mod Codec
pub mod Factory

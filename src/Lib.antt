-- ===== src/Lib.antt =====
-- Verification of braids, a planner-agnostic and compute-agnostic execution core.
--
-- A planner compiles its state into a plan: declared buffers, static buffers, and stages of kernels. A
-- backend prepares the plan, and the two make a frozen version of a stack. A job runs on one version: it
-- takes a packet from a pool, the planner encodes the queries into the packet, the backend runs the stages
-- on it, and the planner decodes it. The tasks of a job go through the executor, which owns the worker
-- threads and gives the stages of each backend a bounded number of lanes.
--
-- Base, Error, Call: shared helpers; the error type of src/error.rs; a computation that can fail or panic
--   and hands back what it borrowed.
-- SlotTable (src/slot_table.rs): a table of values under keys with generations. Holes, Invariant, Lookup,
--   Clear, Stale and Iteration are about its free list, its invariant and its operations.
-- Pipeline (src/pipeline.rs): plans; Validation is about `CompiledPlan::validate`.
-- Packet (src/job.rs, and `CompiledPlan::validate_packet`): the typed buffers of a job. Contents, Views,
--   Check, Groups and Slices are about writes, reads, the check against a plan, grouped reads, and slices
--   that are lent together: Lends and Writes have what there is to lend and what is left by the caller.
-- Executor (src/executor.rs): each critical section is a function; Steps lets any threads interleave them;
--   Lanes and Tasks are about the lanes and the fate of the tasks; Workers has the workers' loop, the
--   condition variable and `shutdown` in detail.
-- Scratch (src/scratch.rs), Pool (src/buffer_pool.rs): reusable buffers.
-- Planner (src/planner.rs, src/compute.rs): the two traits as records of operations, which the stack takes
--   as parameters; nothing is assumed of them.
-- Cpu (src/cpu.rs): the backend that runs registered kernels; Prepares is about the kernels it makes, Kernels
--   about the run of a stage.
-- Stack (src/stack.rs, src/version.rs): Packets has the path of a packet, Jobs the tasks of a job, Ends and
--   Turns their end, Results and Direct what it yields; Versions has the live state and the frozen
--   versions, and Swaps, Updates and Numbers are about them. Inline has the runs on the caller's thread,
--   Contexts their pool of contexts, and InlineRuns compares them with jobs. Table has the table of jobs and
--   the records that it shares; Moves is about what tasks write to the records, and Dispatches and Collects
--   are about the table.
-- FastNoise (fastnoise/src/model.rs, fastnoise/src/runtime.rs): a planner for graphs of noise nodes. Model
--   has its types, Names its hash maps, Library and Floats the noise crate and the operations on floats as
--   parameters. Codec has the payloads of kernels as bytes, with their round trips and the refusal of
--   payloads that are cut short, and Factory the kernels that are made of them; State has the live graph,
--   its changes and its reset to a spec; Queries the encoding of queries into a packet, with Layout saying what
--   a batch amounts to; Samples the
--   summaries of a packet. Queries and Samples meet in the offsets, which the one writes and the other cuts
--   by.
--
-- Numbers are the native natural numbers. A generation and an index of the slot table are u32 with their
-- wrap-around written out; the product of a layout is checked against usize as the source does; a count of
-- samples that passes 2 ^ 64 panics in a build that checks for overflow and wraps in one that does not, and
-- an offset is its u32; the counters of versions and jobs wrap at 2 ^ 64; an f32 is its bit pattern. A panic is a value of its
-- own, and an unwinding that poisons a lock sets a flag. Loops are structural, but for `as_chunks`, whose fuel is the length of the list, and a run of a job, which gets
-- a list of turns: the theorem says how many are enough. Atomic accesses are taken as sequentially
-- consistent, and an access of an atomic or one critical section is one step.
--
-- Not modelled: capacities of vectors, the text of errors, Debug and Display, thread creation and join;
-- the wake-up of a caller who waits for a job; in the fastnoise crate the compilation of graphs and the
-- runs of the kernels, and the noise library, which the build supplies.
pub mod Base
pub mod SlotTable
pub mod Error
pub mod Pipeline
pub mod Packet
pub mod Executor
pub mod Scratch
pub mod Pool
pub mod Call
pub mod Planner
pub mod Cpu
pub mod Stack
pub mod FastNoise

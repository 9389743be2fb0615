-- ===== src/Lib.antt =====
-- memable: a durable execution engine. A workflow is a function that records the result of each step
-- in a journal, so that running it again after a crash, a suspension or a failure repeats nothing
-- that has been recorded. Paths are those of the repository.
--
-- The parts and how they interact. The engine (`src/engine/engine_impl.rs`) stores an instance's
-- metadata and spawns a task; the task (`src/engine/execution.rs`) runs the workflow in a context
-- (`src/context.rs`) and stores how it ended (`src/metadata.rs`). Steps, suspend points and timers
-- read and write the journal. A signal or an expired timer claims a suspended step, in one
-- transaction, and spawns the task again. A cleanup (`src/engine/retention.rs`) deletes what is old.
--
-- Which file models what:
--   Prelude, Outcome: shared names; results with errors and panics, and methods that change a state.
--   Text: `str` as bytes, with the operations of the standard library that the program calls.
--   External: redb's tables, postcard's formats and tokio's watch channels, which are parameters with
--     the laws that they document. A theorem holds for all of them; the tests give concrete ones.
--   Store: transactions. Each begin and commit takes the next entry of a list of faults, so that any
--     of them may fail; `IsHealthy` says that none fails from here on.
--   Error, Error/Display: src/error.rs. State: src/engine/state.rs. Stream: src/stream.rs.
--   Status, Metadata, Keys: src/metadata.rs and the keys of the tables.
--   Journal, Codec: what is stored of a step, and its envelope (src/context.rs).
--   Retry: src/retry.rs. A duration is its number of nanoseconds.
--   Shared: `EngineShared` (src/engine/mod.rs) with the sender map. A sender is the number of its
--     channel, so that the map and the contexts alias the channel, as clones of a sender do.
--   Context, Context/Step, Context/Suspend, Context/Timer: src/context.rs. A closure is a function
--     from the number of the attempt to its duration and its result.
--   Workflow: src/engine/workflow.rs. Execution: src/engine/execution.rs.
--   Engine: src/engine/engine_impl.rs; Engine/Loops: what `start` spawns and `stop` joins.
--   Retention: src/engine/retention.rs.
--   Waiting: src/engine/invocation.rs. Builder: src/engine/builder.rs, with `Engine` itself.
--   FanOut, FanOut/Run: `FanOutBuilder` of src/context.rs. FanOut/Cache, FanOut/Children:
--     src/engine/fan_out.rs.
--   Replay: workflows that are written with steps, suspend points, timers and `set_status`, in any
--     order. A `Program` is such a workflow, `interpret` runs it with those operations of the
--     context, and `Reaches` says step by step how far a run has come. A `World` is what closures and
--     clocks see in one run; it may be another one in the next. Replay/Parks is about what a
--     suspension leaves in the journal, Replay/Progress about the task that ends with it, what wakes
--     the instance, and the run that follows.
--   Tests: the concrete libraries, inputs, and one application of each theorem.
--
-- Bounds. The retry loop recurses on the attempts that are left, of which there are
-- `max_retries + 1` modulo 2^32, as in a release build; u64 deadlines and serials and the u32
-- count of a cleanup wrap likewise.
-- Decimal printing takes the number plus one as its fuel, since each round divides by ten, and the
-- fraction of a duration has at most nine digits. All other loops recurse on the list that they go
-- through.
--
-- What stands for what. The clocks are arguments. An error inside a transaction counts as one of its
-- begin or its commit, since each abandons it. A table that does not exist is an empty one. The lock
-- on the tasks makes an operation of the engine one step; interleavings of the poller and a task are
-- explicit compositions of the operations. Registered workflows are represented by their names.
--
-- The tasks of a fan-out run one at a time, in an order that is an argument, as are the states that
-- a handle sees and the text of a panic; with several permits the steps of two children may also
-- alternate, which is not modelled. The types that the steps of a program store are a parameter of
-- Replay, with two facts about them: types that differ have different names, and a suspension
-- and a dead letter are written alike for every type.
--
-- Not modelled: log output; how Tokio schedules, joins and aborts tasks, whose effect on the shared
-- state is an argument of Engine/Loops; what opens the database file; the generation of instance ids.
pub mod Prelude
pub mod Text
pub mod Outcome
pub mod Error
pub mod State
pub mod Status
pub mod Journal
pub mod External
pub mod Store
pub mod Keys
pub mod Metadata
pub mod Codec
pub mod Retry
pub mod Shared
pub mod Context
pub mod Workflow
pub mod Execution
pub mod Stream
pub mod Engine
pub mod Retention
pub mod Waiting
pub mod FanOut
pub mod Builder
pub mod Replay
pub mod Tests

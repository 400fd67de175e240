-- ===== src/Lib.antt =====
-- llm-app: a Rust workspace for local language-model inference. This library models its portable
-- features and proves their properties.
--
-- `Prelude` holds the shared types: Boolean tests on the native numbers, lists over them, and
-- Rust's `Result` with `?` as a bind.
-- `Contracts` follows crates/features/domain-contracts/src. `Contracts.Capacity` has the data that
-- the crates share (capacity.rs, time.rs, error.rs); `Contracts.Lifecycle` has the lifecycle of one
-- loaded model (lifecycle.rs): each method of `ModelLifecycle` is a function of the same name from
-- the lifecycle to its result and the new lifecycle, and `perform` and `run` apply calls in sequence.
-- `TaskGraph` follows crates/features/task-graph/src/lib.rs. `TaskGraph.Types` has the data,
-- `TaskGraph.Table` has `TaskStateTable`: each method is a function of the same name.
-- `TaskGraph.Validation` has `validate_graph`, `TaskGraph.Artifacts` has `validate_artifact_flow`. The
-- table relies on a valid graph, which is where the two parts of the crate meet.
-- `ContextPlanner` follows crates/features/context-planner/src/lib.rs: `plan` with a function for the
-- body of each of its loops. `sort_unstable_by` is an insertion sort, since the identities differ.
-- `Tokenization` follows crates/features/tokenization/src. `Tokenization.Buffers` has the buffers of
-- sink.rs, as one type that stands for tokens, bytes and text; `Tokenization.Utf8` has the decoder of
-- utf8.rs, which writes into such a buffer. `core::str::from_utf8` follows the Unicode standard.
-- `HostRuntime.TokenOutput` follows crates/adapters/host-runtime/src/token_output.rs: `Shared` is the
-- accumulator behind its mutex, and `run` is any sequence of pushes, pulls and panics.
-- `InferenceRuntime` follows crates/engines/inference-runtime/src: `InferenceRuntime.Registry` has the
-- registry of runtime.rs, which owns the models of a backend and their sequences. A method on
-- `&mut self` is a function of the same name from the registry to its result and the new registry,
-- where an early return keeps what was changed before it. A `BTreeMap` is a list of entries in
-- ascending order. The backend is a parameter: `Contracts.Backend` has its traits as a record.
-- `Loading` below the registry has `load_model`, `Preflight` and `Starting` the admission of requests,
-- `Execution` has `prefill` and `decode`, `Removal` the end of requests and models with the quarantine
-- of what the backend fails to destroy, `Cleanup` the retries of `poll_cleanup`, and `Accounting` what
-- the registry's counters and reserved memory stand for.
--
-- Numbers: an integer of the source is a natural number; additions that are checked or saturating in
-- the source are so here, with the bound of their type. A slice is a list, and an index out of range
-- gives the error that the source returns there. `usize` has 64 bits.
-- Fuel: `propagate_blocked` runs its loop on one unit of fuel more than the table has entries, since
-- every pass but the last blocks a further task. `validate_graph` runs its traversal on one unit more
-- than the queue's slice is long, since every step takes an entry of the queue.
-- Not modelled: of the inference runtime the unload and the shutdown of the registry, the generation
-- tasks and the worker; the backends, which call tensor libraries, the adapters but for the token
-- output, the application runtime and the desktop application, and of the features the sampling crate
-- and the tokenizer trait.
mod Prelude
pub mod Contracts
pub mod TaskGraph
pub mod ContextPlanner
pub mod Tokenization
pub mod HostRuntime
pub mod InferenceRuntime

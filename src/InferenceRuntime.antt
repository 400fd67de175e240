-- ===== src/InferenceRuntime.antt =====
-- crates/engines/inference-runtime/src: the registry that owns every loaded model and its sequences.
pub mod Errors
pub mod Footprints
pub mod Registry
pub mod Examples

-- ===== src/HostRuntime.antt =====
-- crates/adapters/host-runtime/src: the bounded output that the inference thread hands to the application.
pub mod TokenOutput

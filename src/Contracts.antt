-- ===== src/Contracts.antt =====
-- crates/features/domain-contracts: the contracts that the engines and adapters share.
pub mod Capacity
pub mod Lifecycle
pub mod Model
pub mod Backend

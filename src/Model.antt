-- ===== src/Model.antt =====
-- crates/renee-model/src/lib.rs: the reference state machines that serve as oracles for the service.
pub mod Negotiation
pub mod Capability
pub mod Update

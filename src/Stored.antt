-- ===== src/Stored.antt =====
-- crates/renee-stored/: the store, its verifiers and its subscriptions.
pub mod Verifier
pub mod Tables
pub mod Authority
pub mod Control
pub mod Creation
pub mod Updates
pub mod Subscription
pub mod Passes
pub mod Broker
pub mod Refusals

-- ===== src/Tests.antt =====
-- The theorems at concrete inputs.
mod Capability
mod Update
mod Codec
mod Kinds
mod Session
mod Pages
mod Subscription
mod Stored
mod Updates

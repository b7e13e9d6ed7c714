-- ===== src/Wire.antt =====
-- crates/renee-wire: the frames, the greetings, and the payloads of capability and update messages.
pub mod Decoder
pub mod Limits
pub mod Slices
pub mod Envelope
pub mod Frame
pub mod Greeting
pub mod Capability
pub mod Update

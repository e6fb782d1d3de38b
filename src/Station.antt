-- ===== src/Station.antt =====
-- The class HNZ (src/hnz.cpp): what is sent to Fledge, and the handling of messages and commands.
pub mod Monitor
pub mod Texts
pub mod Status
pub mod Reading
pub mod Mismatch
pub mod Epoch
pub mod Codec
pub mod Telemetry
pub mod Handle
pub mod Operation
pub mod Calm
mod Tests

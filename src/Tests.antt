-- ===== src/Tests.antt =====
-- Runs of the definitions, and the theorems at concrete inputs.
pub mod Text
pub mod Health
pub mod Reconnect
pub mod Player
pub mod Incidents
pub mod Config
pub mod Bluetooth
pub mod Diagnostics
pub mod Timeline
pub mod Media
pub mod Codec

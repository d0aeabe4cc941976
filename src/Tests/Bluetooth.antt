-- ===== src/Tests/Bluetooth.antt =====
-- Runs of the Bluetooth manager (backend/bl_haos/bluetooth).
pub mod Data
pub mod Pairing
pub mod Table
pub mod Link

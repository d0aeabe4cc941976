-- ===== src/Bluetooth/Manager.antt =====
-- The Bluetooth manager (backend/bl_haos/bluetooth/manager.py).
pub mod Model
pub mod Table
pub mod Pairing
pub mod Coroutine
pub mod Lookup
pub mod Link
pub mod Consent
pub mod Trust
pub mod Transport

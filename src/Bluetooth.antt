-- ===== src/Bluetooth.antt =====
-- Bluetooth (backend/bl_haos/bluetooth): devices and adapters over BlueZ's D-Bus objects, the
-- manager's tables of them, operator consent to pairing, and the agent that asks for it.
pub mod Results
pub mod Constants
pub mod Device
pub mod Adapter
pub mod Agent
pub mod Manager

-- ===== src/Reconnect.antt =====
-- Scheduled reconnection of speakers (backend/bl_haos/bluetooth/reconnect.py): the profile of a
-- speaker, the delay, what one event does to a profile, and the engine with its tasks.
pub mod Model
pub mod Delay
pub mod Profile
pub mod Tracking
pub mod Engine
pub mod Notes

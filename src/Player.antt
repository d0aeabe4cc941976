-- ===== src/Player.antt =====
-- Playback queues of speakers (backend/bl_haos/ha/player.py, MediaPlayerBridge), for one speaker.
pub mod Model
pub mod Request
pub mod Queue
pub mod Timeline
pub mod Codec

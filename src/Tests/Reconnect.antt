-- ===== src/Tests/Reconnect.antt =====
-- Runs of the reconnect engine (backend/bl_haos/bluetooth/reconnect.py).
pub mod Profile
pub mod Engine
use bl_haos_bridge.Prelude.{refl, true, none, some}
use bl_haos_bridge.Dict.{Text}
use bl_haos_bridge.Text.{codes}
use bl_haos_bridge.Reconnect.Model.{
  Config, SpeakerReconnectProfile, new_profile, ReconnectState, default_config, IsConfig,
}

abbrev pub speaker : Text
speaker = codes "a0:bb:cc:dd:ee:01"

-- A speaker that has been up for a while.
abbrev pub playing : SpeakerReconnectProfile
playing = record (new_profile 0 speaker true none) {
  state = ReconnectState.connected;
  connected_at = 100000;
}

-- One whose dropout the engine has seen.
abbrev pub dropped : SpeakerReconnectProfile
dropped = record playing { disconnected_since = some 200000 }

-- One that waits for an attempt.
abbrev pub waiting : SpeakerReconnectProfile
waiting = record playing { state = ReconnectState.backoff; next_retry_time = 210000 }

default_config-IsConfig : IsConfig default_config
default_config-IsConfig = record { positive_den = refl; growing = refl; positive_cap = refl }

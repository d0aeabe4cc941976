-- ===== src/Bluetooth/Device/Laws.antt =====
-- What makes a device an audio sink (backend/bl_haos/bluetooth/device.py).
use bl_haos_bridge.Prelude.{◌≡◌, refl, inl, inr, arith, true, List, [], ◌∷◌, all, Bool-cases}
use bl_haos_bridge.Dict.{Text, Text-discrete}
use bl_haos_bridge.Text.{strip, lower, contains, starts_with}
use bl_haos_bridge.Bluetooth.Constants.{audio_service_short_uuids, audio_sink_uuids}
use bl_haos_bridge.Bluetooth.Device.{is_among, contains_any, is_audio_uuid}

-- What every listed text contains, a text that is among them contains.
among-contains_any :
    (parts texts : List Text) (t : Text)
    → all (contains_any parts) texts ≡ true
    → is_among texts t ≡ true
    → contains_any parts t ≡ true
among-contains_any parts [] t h e = cc
among-contains_any parts (x ∷ texts) t h e = elim (Text-discrete t x) [
  | yes same ↦ rw same (ground arith)
  | no differs ↦ among-contains_any parts texts t (ground arith) (ground arith)
]

sink_uuids-short : all (contains_any audio_service_short_uuids) audio_sink_uuids ≡ true
unfolding audio_sink_uuids contains starts_with
sink_uuids-short = refl

-- A service identifier counts as audio exactly when, in lower case and stripped, it contains
-- one of the short identifiers: the table of whole identifiers adds nothing.
pub is_audio_uuid_lem :
    (uuid : Text) → is_audio_uuid uuid ≡ contains_any audio_service_short_uuids (strip (lower uuid))
unfolding is_audio_uuid
is_audio_uuid_lem uuid = elim (Bool-cases (is_among audio_sink_uuids (strip (lower uuid)))) [
  | inl e ↦ rw (
    e,
    among-contains_any audio_service_short_uuids audio_sink_uuids (strip (lower uuid))
        sink_uuids-short e,
  )
  | inr e ↦ rw e
]

-- ===== src/Bluetooth/Constants.antt =====
-- The audio services and device classes (backend/bl_haos/bluetooth/constants.py), and the device
-- labels and keywords (backend/bl_haos/constants.py).
use bl_haos_bridge.Prelude.{ℕ, List, [], ◌∷◌, ◌++◌, map}
use bl_haos_bridge.Dict.{Text}
use bl_haos_bridge.Text.{codes, lower}

abbrev pub a2dp_sink_uuid : Text
a2dp_sink_uuid = codes "0000110b-0000-1000-8000-00805f9b34fb"

abbrev pub a2dp_source_uuid : Text
a2dp_source_uuid = codes "0000110a-0000-1000-8000-00805f9b34fb"

abbrev pub advanced_audio_uuid : Text
advanced_audio_uuid = codes "0000110d-0000-1000-8000-00805f9b34fb"

abbrev pub avrcp_remote_uuid : Text
avrcp_remote_uuid = codes "0000110e-0000-1000-8000-00805f9b34fb"

abbrev pub avrcp_target_uuid : Text
avrcp_target_uuid = codes "0000110c-0000-1000-8000-00805f9b34fb"

abbrev pub avrcp_uuid : Text
avrcp_uuid = codes "0000110f-0000-1000-8000-00805f9b34fb"

abbrev pub hfp_hf_uuid : Text
hfp_hf_uuid = codes "0000111e-0000-1000-8000-00805f9b34fb"

abbrev pub hfp_ag_uuid : Text
hfp_ag_uuid = codes "0000111f-0000-1000-8000-00805f9b34fb"

abbrev pub hsp_hs_uuid : Text
hsp_hs_uuid = codes "00001108-0000-1000-8000-00805f9b34fb"

abbrev pub hsp_ag_uuid : Text
hsp_ag_uuid = codes "00001112-0000-1000-8000-00805f9b34fb"

abbrev pub headset_hs_uuid : Text
headset_hs_uuid = codes "00001131-0000-1000-8000-00805f9b34fb"

abbrev pub audio_service_short_uuids : List Text
audio_service_short_uuids =
    codes "110a"
    ∷ codes "110b"
    ∷ codes "110c"
    ∷ codes "110d"
    ∷ codes "110e"
    ∷ codes "110f"
    ∷ codes "1108"
    ∷ codes "1112"
    ∷ codes "111e"
    ∷ codes "111f"
    ∷ codes "1131"
    ∷ []

-- The long identifiers in lower case, the short ones, and the short ones after `0x`.
unfoldable pub audio_sink_uuids : List Text
unfolding lower
audio_sink_uuids =
    map lower (
      a2dp_sink_uuid ∷ a2dp_source_uuid ∷ advanced_audio_uuid ∷ avrcp_target_uuid
      ∷ avrcp_remote_uuid ∷ avrcp_uuid ∷ hfp_hf_uuid ∷ hfp_ag_uuid ∷ hsp_hs_uuid ∷ hsp_ag_uuid
      ∷ headset_hs_uuid ∷ [])
    ++ audio_service_short_uuids
    ++ map (λ short. codes "0x" ++ short) audio_service_short_uuids

abbrev pub major_device_class_audio_video : ℕ
major_device_class_audio_video = 0x0400

abbrev pub minor_device_classes_audio : List (ℕ × Text)
minor_device_classes_audio =
    (0x0404, codes "Wearable Headset")
    ∷ (0x0408, codes "Handsfree Device")
    ∷ (0x0414, codes "Loudspeaker")
    ∷ (0x0418, codes "Headphones")
    ∷ (0x041c, codes "Portable Audio")
    ∷ (0x0420, codes "Car Audio")
    ∷ (0x0424, codes "Set-top Box")
    ∷ (0x0428, codes "HiFi Audio Device")
    ∷ []

abbrev pub class_of_device_major_mask : ℕ
class_of_device_major_mask = 0x1f00

abbrev pub class_of_device_minor_mask : ℕ
class_of_device_minor_mask = 0x1ffc

abbrev pub adapter_name_fallback : Text
adapter_name_fallback = codes "hci0"

abbrev pub bluetooth_device_label : Text
bluetooth_device_label = codes "Bluetooth Device"

abbrev pub audio_device_label : Text
audio_device_label = codes "Audio Device"

abbrev pub speaker_device_type : Text
speaker_device_type = codes "Speaker"

abbrev pub audio_icon_hints : List Text
audio_icon_hints =
    codes "audio" ∷ codes "sound" ∷ codes "speaker" ∷ codes "headphone" ∷ codes "headset" ∷ []

abbrev pub non_audio_icon_hints : List Text
non_audio_icon_hints = codes "input-keyboard" ∷ codes "input-mouse" ∷ codes "input-gaming" ∷ []

abbrev pub audio_name_keywords : List Text
audio_name_keywords =
    codes "speaker"
    ∷ codes "sound"
    ∷ codes "audio"
    ∷ codes "headphone"
    ∷ codes "headset"
    ∷ codes "earbuds"
    ∷ codes "airpods"
    ∷ codes "receiver"
    ∷ codes "adapter"
    ∷ codes "logitech"
    ∷ codes "soundbar"
    ∷ codes "soundlink"
    ∷ codes "jbl"
    ∷ codes "bose"
    ∷ codes "sony"
    ∷ codes "anker"
    ∷ codes "soundcore"
    ∷ codes "echo"
    ∷ codes "nest"
    ∷ codes "marshall"
    ∷ codes "sonos"
    ∷ []

abbrev pub icon_to_device_type : List (Text × Text)
icon_to_device_type =
    (codes "speaker", speaker_device_type)
    ∷ (codes "headphone", codes "Headphones")
    ∷ (codes "headset", codes "Headset")
    ∷ []

abbrev pub bluetooth_adapter_label : Text
bluetooth_adapter_label = codes "Bluetooth Adapter"

-- ===== src/Tests/Codec.antt =====
-- Runs of the codec pin (backend/bl_haos/ha/player.py).
use bl_haos_bridge.Prelude.{◌≡◌, refl, List, [], ◌∷◌, ◌++◌, none, some}
use bl_haos_bridge.Dict.{Text, Text-discrete}
use bl_haos_bridge.Text.{codes, is_space}
use bl_haos_bridge.Player.Codec.{codec_token, profile_codec, profile_for_codec}
use bl_haos_bridge.Player.Codec.Laws.{profile_name, profile_for_codec_finds}

abbrev offered : List Text
offered = codes "off" ∷ codes "a2dp-sink-ldac" ∷ []

not_offered : profile_for_codec offered (codes "aac") ≡ none
unfolding profile_for_codec Text-discrete is_space
not_offered = refl

too_odd : codec_token (codes "_sbc") ≡ none
unfolding codec_token is_space
too_odd = refl

profile_for_codec_finds_example :
    (name : Text) × (profile_for_codec
        (offered ++ profile_name (codes "sbc_xq") ∷ [])
        (codes "sbc_xq")
      ≡ some name)
    × (profile_codec name ≡ some (codes "sbc_xq"))
profile_for_codec_finds_example = profile_for_codec_finds offered [] (codes "sbc_xq") refl

-- ===== src/Player/Codec.antt =====
-- Codec names and the profiles that select them (backend/bl_haos/ha/player.py: _codec_token,
-- _profile_for_codec).
pub mod Laws
use bl_haos_bridge.Prelude.{
  ℕ, Bool, true, false, not, ◌&&◌, ◌||◌, List, [], ◌∷◌, all, drop, length, leb, ◌==◌, if◌then◌else◌,
  Option, none, some,
}
use bl_haos_bridge.Dict.{Text}
use bl_haos_bridge.Text.{codes, text_eq, strip, lower, replace_char, is_digit, starts_with}

-- Its length is that of the literal.
abbrev pub a2dp_sink_profile_prefix : Text
a2dp_sink_profile_prefix = codes "a2dp-sink"

abbrev pub is_codec_char : ℕ → Bool
is_codec_char c = (leb b'a' c && leb c b'z') || is_digit c || c == b'_'

-- `^[a-z0-9][a-z0-9_]{0,31}$`
abbrev pub codec_pattern : Text → Bool
codec_pattern [] = false
codec_pattern (c ∷ s) =
    is_codec_char c && not (c == b'_') && all is_codec_char s && leb (length s) 31

unfoldable pub codec_token : Text → Option Text
unfolding strip lower replace_char
codec_token value =
    let candidate = replace_char b'-' b'_' (lower (strip value)) in
    if codec_pattern candidate then some candidate else none

-- `lstrip("-_")`
pub skip_dashes : Text → Text
skip_dashes [] = []
skip_dashes (c ∷ s) = if c == b'-' || c == b'_' then skip_dashes s else c ∷ s

-- The codec that a profile name ends in.
abbrev pub profile_codec : Text → Option Text
profile_codec name = codec_token (skip_dashes (drop (length a2dp_sink_profile_prefix) name))

abbrev pub same_codec : Text → Option Text → Bool
same_codec codec none = false
same_codec codec (some other) = text_eq other codec

abbrev pub selects : Text → Text → Bool
selects codec name =
    starts_with a2dp_sink_profile_prefix (lower name) && same_codec codec (profile_codec name)

unfoldable pub profile_for_codec : List Text → Text → Option Text
unfolding codec_token skip_dashes lower starts_with
profile_for_codec [] codec = none
profile_for_codec (name ∷ profiles) codec =
    if selects codec name then some name else profile_for_codec profiles codec

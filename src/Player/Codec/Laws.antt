-- ===== src/Player/Codec/Laws.antt =====
-- A codec that the operator pins finds its profile (backend/bl_haos/ha/player.py:
-- _profile_for_codec).
use bl_haos_bridge.Prelude.{
  ◌≡◌, refl, ap, arith, inl, inr, if_pos, if_neg, Bool, true, false, ◌&&◌, List, [], ◌∷◌, ◌++◌, all,
  Option, none, some, Bool-cases,
}
use bl_haos_bridge.Dict.{Text, Text-discrete}
use bl_haos_bridge.Text.{
  is_space, to_lower, lower, strip, lstrip, rstrip, trim_end, replace_char, starts_with,
}
use bl_haos_bridge.Player.Codec.{
  a2dp_sink_profile_prefix, is_codec_char, codec_pattern, codec_token, skip_dashes, profile_codec,
  selects, same_codec, profile_for_codec,
}

-- The audio server spells a codec with hyphens.
abbrev pub hyphenated : Text → Text
hyphenated = replace_char b'_' b'-'

-- The profile of a codec, as the audio server names it.
abbrev pub profile_name : Text → Text
profile_name codec = a2dp_sink_profile_prefix ++ b'-' ∷ hyphenated codec

back : (s : Text) → all is_codec_char s ≡ true → replace_char b'-' b'_' (lower (hyphenated s)) ≡ s
unfolding replace_char lower to_lower
back [] h = refl
back (c ∷ s) h = ground (arith, back s)

rstrip-hyphenated : (s : Text) → all is_codec_char s ≡ true → rstrip (hyphenated s) ≡ hyphenated s
unfolding rstrip trim_end replace_char is_space
rstrip-hyphenated [] h = refl
rstrip-hyphenated (c ∷ []) h = ground arith
rstrip-hyphenated (c ∷ d ∷ s) h = rw (rstrip-hyphenated (d ∷ s) (ground arith)) refl

strip-hyphenated : (s : Text) → all is_codec_char s ≡ true → strip (hyphenated s) ≡ hyphenated s
unfolding strip lstrip replace_char is_space
strip-hyphenated [] h = rstrip-hyphenated [] refl
strip-hyphenated (c ∷ s) h = ground (arith, rstrip-hyphenated (c ∷ s) h)

pattern-all : (s : Text) → codec_pattern s ≡ true → all is_codec_char s ≡ true
pattern-all [] h = refl
pattern-all (c ∷ s) h = ground arith

codec_token-hyphenated : (s : Text) → codec_pattern s ≡ true → codec_token (hyphenated s) ≡ some s
unfolding codec_token
codec_token-hyphenated s h =
    rw (strip-hyphenated s (pattern-all s h)) (rw (back s (pattern-all s h)) (rw h refl))

skipped : (s : Text) → codec_pattern s ≡ true → skip_dashes (b'-' ∷ hyphenated s) ≡ hyphenated s
unfolding skip_dashes replace_char
skipped [] h = refl
skipped (c ∷ s) h = ground arith

selects-profile_name :
    (codec : Text) → codec_pattern codec ≡ true → selects codec (profile_name codec) ≡ true
unfolding lower to_lower starts_with
selects-profile_name codec h =
    rw (skipped codec h)
      (rw (codec_token-hyphenated codec h) (if_pos (Text-discrete codec codec) refl true false))

and-second : (x y : Bool) → (x && y) ≡ true → y ≡ true
and-second true y h = h
and-second false y h = cc

same_codec-eq :
    (codec : Text) (found : Option Text) → same_codec codec found ≡ true → found ≡ some codec
same_codec-eq codec none h = cc
same_codec-eq codec (some text) h = elim (Text-discrete text codec) [
  | yes e ↦ ap some e
  | no n ↦ let f = if_neg (Text-discrete text codec) n true false in cc
]

-- A profile that is taken ends in the codec.
selected-codec : (codec name : Text) → selects codec name ≡ true → profile_codec name ≡ some codec
selected-codec codec name h = same_codec-eq codec (profile_codec name) (and-second _ _ h)

-- When the profiles that are offered have the one of a codec, as the audio server spells it,
-- with `a2dp-sink-` in front and hyphens for underscores, `_profile_for_codec` finds a profile,
-- and the codec that is read from its name is the one that was asked for.
pub profile_for_codec_finds :
    (before behind : List Text) (codec : Text)
    → codec_pattern codec ≡ true
    → (name : Text) × (profile_for_codec (before ++ profile_name codec ∷ behind) codec ≡ some name)
      × (profile_codec name ≡ some codec)
unfolding profile_for_codec
profile_for_codec_finds [] behind codec h = (
  profile_name codec,
  rw (selects-profile_name codec h) refl,
  selected-codec codec (profile_name codec) (selects-profile_name codec h),
)
profile_for_codec_finds (name ∷ before) behind codec h = elim (Bool-cases (selects codec name)) [
  | inl e ↦ (name, rw e refl, selected-codec codec name e)
  | inr e ↦
      let (found, same, right) = profile_for_codec_finds before behind codec h in
      (found, rw e same, right)
]

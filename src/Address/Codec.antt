-- ===== src/Address/Codec.antt =====
-- Laws of the codec name (backend/bl_haos/health.py: safe_codec).
use bl_haos_bridge.Prelude.{
  ℕ, ◌≤◌, ◌≡◌, refl, true, false, [], ◌∷◌, arith, all, length, Option, none, some, Bool-cases, inl,
  inr,
}
use bl_haos_bridge.Dict.{Text}
use bl_haos_bridge.Text.{strip, lstrip, rstrip, lower, is_space}
use bl_haos_bridge.Address.{identifier_pattern, identifier_char, safe_codec}

identifier_char-not_space : (c : ℕ) → identifier_char c ≡ true → is_space c ≡ false
unfolding is_space
identifier_char-not_space c h = ground arith

rstrip-identifier : (s : Text) → all identifier_char s ≡ true → rstrip s ≡ s
unfolding rstrip
rstrip-identifier [] h = refl
rstrip-identifier (c ∷ []) h = ground (arith, identifier_char-not_space c)
rstrip-identifier (c ∷ d ∷ s) h = ground (arith, rstrip-identifier (d ∷ s))

strip-identifier : (s : Text) → identifier_pattern s ≡ true → strip s ≡ s
unfolding strip identifier_pattern lstrip
strip-identifier [] h = cc
strip-identifier (c ∷ s) h = ground (arith, identifier_char-not_space c, rstrip-identifier (c ∷ s))

lower-lower : (s : Text) → lower (lower s) ≡ lower s
unfolding lower
lower-lower [] = refl
lower-lower (c ∷ s) = ground (arith, lower-lower s)

identifier_pattern-length : (s : Text) → identifier_pattern s ≡ true → length s ≤ 64
unfolding identifier_pattern
identifier_pattern-length [] h = cc
identifier_pattern-length (c ∷ s) h = ground arith

safe_codec-again :
    (s : Text) → identifier_pattern (lower s) ≡ true → safe_codec (some (lower s)) ≡ some (lower s)
safe_codec-again s h = unfold safe_codec in rw (strip-identifier (lower s) h, lower-lower s, h) refl

-- A codec name that is stored: at most 64 characters, and its own normal form.
abbrev pub IsCodec : Option Text → Type 0
IsCodec none = Unit
IsCodec (some c) = (length c ≤ 64) × (safe_codec (some c) ≡ some c)

-- A codec name that is kept has at most 64 characters and is its own normal form.
pub safe_codec-IsCodec : (value : Option Text) → IsCodec (safe_codec value)
safe_codec-IsCodec none = unfold safe_codec in tt
safe_codec-IsCodec (some v) = elim (Bool-cases (identifier_pattern (lower (strip v)))) [
  | inl named ↦
      rw (accepted v named)
        (identifier_pattern-length (lower (strip v)) named, safe_codec-again (strip v) named)
  | inr unnamed ↦ rw (refused v unnamed) tt
]
  where
    accepted :
        (v : Text)
        → identifier_pattern (lower (strip v)) ≡ true
        → safe_codec (some v) ≡ some (lower (strip v))
    accepted v h = unfold safe_codec in rw h refl

    refused : (v : Text) → identifier_pattern (lower (strip v)) ≡ false → safe_codec (some v) ≡ none
    refused v h = unfold safe_codec in rw h refl

-- ===== src/Address.antt =====
-- Validators of untrusted identifiers (backend/bl_haos/health.py): the Bluetooth address, the
-- adapter name, the identifier, the codec name and the PIN. `none` is the ValueError that the
-- source raises, or the None that `safe_codec` returns. Arguments are strings; what is no string
-- the source refuses first.
pub mod Laws
pub mod Codec
use bl_haos_bridge.Prelude.{
  ℕ, zero, suc, ◌+◌, ◌*◌, ◌-◌, ◌≡◌, refl, Bool, true, false, not, ◌&&◌, ◌||◌, [], ◌∷◌, arith, leb,
  ltb, ◌==◌, if◌then◌else◌, any, all, length, bit_and, Option, none, some,
}
use bl_haos_bridge.Dict.{Text}
use bl_haos_bridge.Text.{strip, lower, replace_char, is_hex, is_digit, is_alnum}

abbrev pub max_address_length : ℕ
max_address_length = 17

abbrev pub min_portable_codepoint : ℕ
min_portable_codepoint = 32

abbrev pub broadcast_address_octet : ℕ
broadcast_address_octet = 0xff

abbrev pub multicast_address_bit : ℕ
multicast_address_bit = 0x01

abbrev pub has_control : Text → Bool
has_control = any (λ c. ltb c min_portable_codepoint)

-- `^(?:[0-9a-f]{2}:){5}[0-9a-f]{2}$`, with `n` groups before the last octet.
pub mac_groups : ℕ → Text → Bool
mac_groups zero (a ∷ b ∷ []) = is_hex a && is_hex b
mac_groups (suc n) (a ∷ b ∷ c ∷ s) = is_hex a && is_hex b && c == b':' && mac_groups n s
mac_groups _ _ = false

-- `int(d, 16)` of one digit, and of `normalized[:2]`
abbrev pub hex_digit : ℕ → ℕ
hex_digit c = if is_digit c then c - b'0' else c - b'a' + 10

abbrev pub first_octet : Text → ℕ
first_octet (a ∷ b ∷ _) = 16 * hex_digit a + hex_digit b
first_octet _ = 0

unfoldable pub normalize_address : Text → Option Text
unfolding mac_groups
normalize_address address =
    let a = strip address in
    let normalized = replace_char b'-' b':' (lower a) in
    if length a == 0 || ltb max_address_length (length a) || has_control a
    then none
    else if not (mac_groups 5 normalized)
    then none
    else if first_octet normalized == broadcast_address_octet
        || not (bit_and (first_octet normalized) multicast_address_bit == 0)
    then none
    else some normalized

-- `^hci[0-9]{1,2}$`
abbrev adapter_digits : Text → Bool
adapter_digits (a ∷ []) = is_digit a
adapter_digits (a ∷ b ∷ []) = is_digit a && is_digit b
adapter_digits _ = false

abbrev adapter_pattern : Text → Bool
adapter_pattern (h ∷ c ∷ i ∷ s) = h == b'h' && c == b'c' && i == b'i' && adapter_digits s
adapter_pattern _ = false

unfoldable pub validate_adapter_name : Text → Option Text
validate_adapter_name name = if adapter_pattern name then some name else none

-- `^[A-Za-z0-9][A-Za-z0-9_.-]{0,63}$`
abbrev identifier_char : ℕ → Bool
identifier_char c = is_alnum c || c == b'_' || c == b'.' || c == b'-'

pub identifier_pattern : Text → Bool
identifier_pattern [] = false
identifier_pattern (c ∷ s) = is_alnum c && all identifier_char s && leb (length s) 63

unfoldable pub validate_identifier : Text → Option Text
unfolding identifier_pattern
validate_identifier value = if identifier_pattern value then some value else none

unfoldable pub safe_codec : Option Text → Option Text
unfolding identifier_pattern
safe_codec none = none
safe_codec (some value) =
    let candidate = lower (strip value) in
    if identifier_pattern candidate then some candidate else none

-- `^[0-9]{4,8}$`; a missing PIN passes.
abbrev pub pin_pattern : Text → Bool
pin_pattern pin = all is_digit pin && leb 4 (length pin) && leb (length pin) 8

unfoldable pub validate_pin : Option Text → Option (Option Text)
validate_pin none = some none
validate_pin (some pin) = if pin_pattern pin then some (some pin) else none

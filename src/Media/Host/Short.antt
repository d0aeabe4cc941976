-- ===== src/Media/Host/Short.antt =====
-- A host of two numbers, which media_host_is_blocked (backend/bl_haos/health.py) does not take for an
-- address.
use bl_haos_bridge.Prelude.{◌≡◌, refl, ap, ◌∙◌, true, false, ◌∷◌, all, length, leb, none}
use bl_haos_bridge.Dict.{Text}
use bl_haos_bridge.Text.{is_digit}
use bl_haos_bridge.Media.Parts.{split_on-last, split_on-append}
use bl_haos_bridge.Media.Ip.{four_octets, ipv4, ipv6, ip_address}
use bl_haos_bridge.Media.Host.{media_address, media_host_is_blocked, special_or_name}
use bl_haos_bridge.Media.Host.Laws.{
  AllDigits-Plain, without, blocked_by_address, int_literal-dot, ipv6-no_colon,
  AllDigits-rstrip_dots,
}
use bl_haos_bridge.Media.Host.Dotted.{
  dot, no_dot, no_colon, dotted-Plain, dot-trimmed, dot-nonempty,
}

ipv4-two : (a b : Text) → all is_digit a ≡ true → all is_digit b ≡ true → ipv4 (dot a b) ≡ none
unfolding ipv4
ipv4-two a b h g = ap four_octets (
    split_on-append b'.' a b (no_dot a h)
    ∙ ap (λ parts. a ∷ parts) (split_on-last b'.' b (no_dot b g)))

ipv6-two : (a b : Text) → all is_digit a ≡ true → all is_digit b ≡ true → ipv6 (dot a b) ≡ none
ipv6-two a b h g =
    ipv6-no_colon (dot a b) (no_colon b':' a b (without b':' a refl h) (without b':' b refl g) refl)
      (no_colon b'%' a b (without b'%' a refl h) (without b'%' b refl g) refl)
      (no_colon b'/' a b (without b'/' a refl h) (without b'/' b refl g) refl)

media_address-two :
    (a b : Text)
    → all is_digit a ≡ true
    → leb 1 (length a) ≡ true
    → all is_digit b ≡ true
    → media_address (dot a b) ≡ none
unfolding media_address ip_address
media_address-two a b h n g =
    rw (ipv4-two a b h g) (rw (ipv6-two a b h g) (rw (int_literal-dot a b h n g) refl))

-- A host of two decimal numbers with a dot between them is never blocked, whatever they are.
pub two_numbers_pass :
    (a b : Text)
    → all is_digit a ≡ true
    → leb 1 (length a) ≡ true
    → all is_digit b ≡ true
    → leb 1 (length b) ≡ true
    → media_host_is_blocked (dot a b) ≡ false
two_numbers_pass a b h n g m =
    blocked_by_address (dot a b) (dotted-Plain a b h (AllDigits-Plain b g))
      (dot-trimmed a b (AllDigits-rstrip_dots b g) m) (dot-nonempty a b)
    ∙ ap special_or_name (media_address-two a b h n g)

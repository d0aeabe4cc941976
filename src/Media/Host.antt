-- ===== src/Media/Host.antt =====
-- Which hosts a stream may come from (backend/bl_haos/health.py: media_host_is_blocked,
-- _media_address).
pub mod Laws
pub mod Dotted
pub mod Spellings
pub mod Short
use bl_haos_bridge.Prelude.{
  ℕ, ◌-◌, ◌/◌, ◌%◌, ◌^◌, Bool, true, false, not, ◌&&◌, ◌||◌, List, [], ◌∷◌, any, length, drop, ltb,
  leb, ◌==◌, if◌then◌else◌, Option, none, some,
}
use bl_haos_bridge.Dict.{Text}
use bl_haos_bridge.Text.{codes, text_eq, lower, strip}
use bl_haos_bridge.Media.Ip.{IpAddress, v4, v6, ip_address, special_v4, special_v6}
use bl_haos_bridge.Media.Literal.{int_literal}

abbrev pub blocked_host_names : List Text
blocked_host_names =
    codes "localhost"
    ∷ codes "localhost.localdomain"
    ∷ codes "ip6-localhost"
    ∷ codes "ip6-loopback"
    ∷ []

abbrev pub localhost_suffix : Text
localhost_suffix = codes ".localhost"

-- `endswith`
abbrev pub ends_with : Text → Text → Bool
ends_with part s = leb (length part) (length s) && text_eq (drop (length s - length part) s) part

abbrev dot_trimmed : ℕ → Text → Text
dot_trimmed c [] = if c == b'.' then [] else c ∷ []
dot_trimmed c (d ∷ s) = c ∷ d ∷ s

-- `rstrip(".")`
pub rstrip_dots : Text → Text
rstrip_dots [] = []
rstrip_dots (c ∷ s) = dot_trimmed c (rstrip_dots s)

-- The number of an IPv4 address; what is negative or too large is none.
abbrev address_of : Option (Bool × ℕ) → Option IpAddress
address_of none = none
address_of (some (negative, n)) =
    if (negative && ltb 0 n) || ltb 0xffffffff n then none else some (v4 n)

abbrev or_number : Text → Option IpAddress → Option IpAddress
or_number host (some address) = some address
or_number host none = address_of (int_literal host)

pub media_address : Text → Option IpAddress
unfolding ip_address int_literal
media_address host = or_number host (ip_address host)

-- An address that maps an IPv4 address is judged as that one.
abbrev pub special : IpAddress → Bool
special (v4 n) = special_v4 n
special (v6 n) = if n / 2 ^ 32 == 0xffff then special_v4 (n % 2 ^ 32) else special_v6 n

abbrev pub special_or_name : Option IpAddress → Bool
special_or_name none = false
special_or_name (some address) = special address

pub host_key : Text → Text
unfolding lower strip rstrip_dots
host_key hostname = rstrip_dots (lower (strip hostname))

abbrev pub names_this_host : Text → Bool
names_this_host host = any (text_eq host) blocked_host_names || ends_with localhost_suffix host

-- A missing host is an empty one.
unfoldable pub media_host_is_blocked : Text → Bool
unfolding host_key media_address
media_host_is_blocked hostname =
    length hostname == 0
    || names_this_host (host_key hostname)
    || special_or_name (media_address (host_key hostname))

-- ===== src/Media/Ip.antt =====
-- IP addresses as backend/bl_haos/health.py reads them: `ipaddress.ip_address`, and the predicates of
-- addresses. Digits are those of ASCII.
use bl_haos_bridge.Prelude.{
  ◌>>=◌, ℕ, suc, ◌+◌, ◌*◌, ◌-◌, ◌/◌, ◌%◌, ◌^◌, Bool, true, false, not, ◌&&◌, ◌||◌, List, [], ◌∷◌,
  all, any, length, ltb, leb, ◌==◌, if◌then◌else◌, Option, none, some,
}
use bl_haos_bridge.Dict.{Text}
use bl_haos_bridge.Text.{to_lower, is_digit}
use bl_haos_bridge.Media.Parts.{partition, split_on}

pub data IpAddress : Type 0 where
  v4 v6 : ℕ → IpAddress

-- A digit of any base, in either case. What is none has a value that no base reaches.
unfoldable pub digit_value : ℕ → ℕ
unfolding to_lower
digit_value c =
    let l = to_lower c in
    if is_digit c then c - b'0' else if leb b'a' l && leb l b'z' then l - b'a' + 10 else 36

-- `int(s, base)` of digits that were tested.
unfoldable pub number_from : ℕ → ℕ → Text → ℕ
unfolding digit_value
number_from base n [] = n
number_from base n (c ∷ s) = number_from base (base * n + digit_value c) s

abbrev pub starts_with_zero : Text → Bool
starts_with_zero (c ∷ d ∷ s) = c == b'0'
starts_with_zero _ = false

-- `IPv4Address._parse_octet`: one to three digits without a leading zero, up to 255.
unfoldable pub octet : Text → Option ℕ
unfolding number_from
octet s =
    if all is_digit s
      && leb 1 (length s)
      && leb (length s) 3
      && not (starts_with_zero s)
      && leb (number_from 10 0 s) 255
    then some (number_from 10 0 s)
    else none

abbrev pub four_octets : List Text → Option ℕ
four_octets (a ∷ b ∷ c ∷ d ∷ []) = octet a >>= λ i.
    octet b >>= λ j. octet c >>= λ k. octet d >>= λ l. some (256 * (256 * (256 * i + j) + k) + l)
four_octets _ = none

unfoldable pub ipv4 : Text → Option ℕ
unfolding octet split_on
ipv4 s = four_octets (split_on b'.' s)

-- What stands between two colons of an IPv6 address. `word` is one that was computed from a dotted
-- end, and is read back as it was.
pub data Part : Type 0 where
  written : Text → Part
  word : ℕ → Part

abbrev is_hex_digit : ℕ → Bool
is_hex_digit c = ltb (digit_value c) 16

-- `IPv6Address._parse_hextet`
unfoldable pub hextet : Part → Option ℕ
unfolding number_from
hextet (word n) = some n
hextet (written s) =
    if all is_hex_digit s && leb 1 (length s) && leb (length s) 4
    then some (number_from 16 0 s)
    else none

abbrev with_word : ℕ → Option (ℕ × ℕ) → Option (ℕ × ℕ)
with_word w none = none
with_word w (some (n, k)) = some (w * 65536 ^ k + n, suc k)

-- The words of some parts as one number, and how many they are.
unfoldable pub hextets : List Part → Option (ℕ × ℕ)
unfolding hextet
hextets [] = some (0, 0)
hextets (p ∷ ps) = hextet p >>= λ w. with_word w (hextets ps)

abbrev pub words_of : Option ℕ → Option (List Part)
words_of none = none
words_of (some n) = some (word (n / 65536) ∷ word (n % 65536) ∷ [])

abbrev dotted_end : Text → Option (List Part)
dotted_end s = if any (λ c. c == b'.') s then words_of (ipv4 s) else some (written s ∷ [])

abbrev part_cons : Text → Option (List Part) → Option (List Part)
part_cons s none = none
part_cons s (some ps) = some (written s ∷ ps)

-- A last part with dots stands for two words.
unfoldable pub parts_of : List Text → Option (List Part)
unfolding ipv4
parts_of [] = none
parts_of (s ∷ []) = dotted_end s
parts_of (s ∷ t ∷ ss) = part_cons s (parts_of (t ∷ ss))

abbrev is_gap : Part → Bool
is_gap (written []) = true
is_gap _ = false

abbrev gap_after : Part → Option (List Part × List Part) → Option (List Part × List Part)
gap_after p none = none
gap_after p (some (before, behind)) = some (p ∷ before, behind)

-- The first empty part that is neither the first nor the last: the `::`.
unfoldable pub gap_in : List Part → Option (List Part × List Part)
gap_in [] = none
gap_in (p ∷ []) = none
gap_in (p ∷ q ∷ ps) = if is_gap p then some ([], q ∷ ps) else gap_after p (gap_in (q ∷ ps))

abbrev gap : List Part → Option (List Part × List Part)
gap [] = none
gap (p ∷ ps) = gap_after p (gap_in ps)

-- An empty part at the end that the `::` is at.
abbrev unless_lone : List Part → List Part
unless_lone (written [] ∷ []) = []
unless_lone ps = ps

abbrev joined : ℕ × ℕ → ℕ × ℕ → Option ℕ
joined (n, k) (m, l) = if leb (k + l) 7 then some (n * 65536 ^ (8 - k) + m) else none

abbrev whole : ℕ × ℕ → Option ℕ
whole (n, k) = if k == 8 then some n else none

abbrev with_gap : List Part → Option (List Part × List Part) → Option ℕ
with_gap ps none = hextets ps >>= whole
with_gap ps (some (before, behind)) =
    hextets (unless_lone before) >>= λ high. hextets (unless_lone behind) >>= joined high

abbrev pub counted_parts : List Part → Option ℕ
counted_parts ps = if leb 3 (length ps) && leb (length ps) 9 then with_gap ps (gap ps) else none

-- A zone is not empty and holds no second percent sign; it does not count.
abbrev without_zone : Text → Option (Text × Text) → Option Text
without_zone s none = some s
without_zone s (some (addr, zone)) =
    if length zone == 0 || any (λ c. c == b'%') zone then none else some addr

unfoldable pub ipv6 : Text → Option ℕ
unfolding parts_of gap_in hextets partition
ipv6 s =
    if any (λ c. c == b'/') s
    then none
    else without_zone s (partition b'%' s) >>= λ addr.
        parts_of (split_on b':' addr) >>= counted_parts

abbrev or_ipv6 : Text → Option ℕ → Option IpAddress
or_ipv6 s (some n) = some (v4 n)
or_ipv6 s none = ipv6 s >>= λ n. some (v6 n)

-- `ipaddress.ip_address`
unfoldable pub ip_address : Text → Option IpAddress
unfolding ipv4 ipv6
ip_address s = or_ipv6 s (ipv4 s)

-- `prefix` is what is left of the address without its last `size` bits.
abbrev lies_in : ℕ → ℕ × ℕ → Bool
lies_in n (prefix, size) = n / 2 ^ size == prefix

-- `is_loopback`, `is_link_local`, `is_multicast`, `is_reserved` and `is_unspecified`.
abbrev pub special_v4 : ℕ → Bool
special_v4 n =
    n / 2 ^ 24 == 127 || n / 2 ^ 16 == 43518 || n / 2 ^ 28 == 14 || n / 2 ^ 28 == 15 || n == 0

abbrev reserved_networks : List (ℕ × ℕ)
reserved_networks =
    (0, 120)
    ∷ (1, 120)
    ∷ (1, 121)
    ∷ (1, 122)
    ∷ (1, 123)
    ∷ (1, 124)
    ∷ (2, 125)
    ∷ (3, 125)
    ∷ (4, 125)
    ∷ (5, 125)
    ∷ (6, 125)
    ∷ (14, 124)
    ∷ (30, 123)
    ∷ (62, 122)
    ∷ (508, 119)
    ∷ []

abbrev pub special_v6 : ℕ → Bool
special_v6 n =
    n == 1
    || n / 2 ^ 118 == 1018
    || n / 2 ^ 120 == 255
    || any (lies_in n) reserved_networks
    || n == 0

-- ===== src/Media/Url.antt =====
-- The check of a stream's URL and media type (backend/bl_haos/health.py: validate_media_url,
-- validate_media_type). `none` is the ValueError, also one that urllib raises.
pub mod Laws
use bl_haos_bridge.Prelude.{
  ◌>>=◌, ℕ, ◌-◌, Bool, true, false, not, ◌&&◌, ◌||◌, [], ◌∷◌, ◌++◌, any, all, length, ltb, leb,
  ◌==◌, if◌then◌else◌, Option, none, some,
}
use bl_haos_bridge.Dict.{Text}
use bl_haos_bridge.Text.{codes, text_eq, lower, strip, to_lower, is_digit, is_alnum, starts_with}
use bl_haos_bridge.Media.Parts.{partition, rpartition}
use bl_haos_bridge.Media.Ip.{IpAddress, v4, v6, ip_address, number_from, digit_value}
use bl_haos_bridge.Media.Host.{media_host_is_blocked}

abbrev pub max_media_url_length : ℕ
max_media_url_length = 2048

abbrev pub max_media_type_length : ℕ
max_media_type_length = 128

abbrev pub min_tcp_port : ℕ
min_tcp_port = 1

abbrev pub max_tcp_port : ℕ
max_tcp_port = 65535

-- `urlsplit` drops what is no more than a space from the front.
pub skip_space : Text → Text
skip_space [] = []
skip_space (c ∷ s) = if leb c 32 then skip_space s else c ∷ s

abbrev is_scheme_char : ℕ → Bool
is_scheme_char c = is_alnum c || c == b'+' || c == b'-' || c == b'.'

abbrev pub is_scheme : Text → Bool
is_scheme [] = false
is_scheme (c ∷ s) = is_alnum c && not (is_digit c) && all is_scheme_char s

abbrev pub after_scheme : Text → Option (Text × Text) → Text × Text
after_scheme url none = ([], url)
after_scheme url (some (before, behind)) =
    if is_scheme before then (lower before, behind) else ([], url)

-- The scheme, and what stands behind its colon.
pub scheme_of : Text → Text × Text
unfolding skip_space lower partition
scheme_of url = after_scheme (skip_space url) (partition b':' (skip_space url))

-- What `urlsplit` takes for the network location behind `//`.
pub until_path : Text → Text
until_path [] = []
until_path (c ∷ s) = if c == b'/' || c == b'?' || c == b'#' then [] else c ∷ until_path s

abbrev pub netloc_of : Text → Text
netloc_of (c ∷ d ∷ s) = if c == b'/' && d == b'/' then until_path s else []
netloc_of _ = []

abbrev first_or {ℓ} : {A : Type ℓ} → A → Option (A × A) → A
first_or a none = a
first_or a (some (before, behind)) = before

abbrev second_or {ℓ} : {A : Type ℓ} → A → Option (A × A) → A
second_or a none = a
second_or a (some (before, behind)) = behind

abbrev is_v6 : Option IpAddress → Bool
is_v6 (some (v6 n)) = true
is_v6 _ = false

-- `v`, hexadecimal digits, a dot and something more
abbrev is_future : Option (Text × Text) → Bool
is_future none = false
is_future (some (version, s)) =
    all (λ c. ltb (digit_value c) 16) version && not (length version == 0) && not (length s == 0)

pub bracketed_host : Text → Bool
unfolding ip_address partition digit_value
bracketed_host (c ∷ s) =
    if c == b'v' then is_future (partition b'.' s) else is_v6 (ip_address (c ∷ s))
bracketed_host [] = false

abbrev between_brackets : Text → Text
between_brackets netloc =
    let behind = second_or [] (partition b'[' netloc) in first_or behind (partition b']' behind)

abbrev has : ℕ → Text → Bool
has c = any (λ d. d == c)

-- Brackets come in pairs, around an IPv6 address.
pub brackets_fit : Text → Bool
unfolding bracketed_host
brackets_fit netloc =
    if has b'[' netloc
    then has b']' netloc && bracketed_host (between_brackets netloc)
    else not (has b']' netloc)

-- `(username or password)` of a user information, which may be empty.
abbrev has_user : Option (Text × Text) → Bool
has_user none = false
has_user (some (userinfo, host)) =
    not (length (first_or userinfo (partition b':' userinfo)) == 0)
    || not (length (second_or [] (partition b':' userinfo)) == 0)

pub names_user : Text → Bool
unfolding rpartition partition
names_user netloc = has_user (rpartition b'@' netloc)

abbrev in_brackets : Text → Option (Text × Text) → Text × Text
in_brackets behind none = (behind, [])
in_brackets behind (some (host, rest)) = (host, second_or [] (partition b':' rest))

abbrev host_and_port : Text → Option (Text × Text) → Text × Text
host_and_port hostinfo (some (before, behind)) = in_brackets behind (partition b']' behind)
host_and_port hostinfo none =
    (first_or hostinfo (partition b':' hostinfo), second_or [] (partition b':' hostinfo))

-- `_hostinfo`: the host and the port as they are written.
pub hostinfo : Text → Text × Text
unfolding rpartition partition
hostinfo netloc =
    let behind = second_or netloc (rpartition b'@' netloc) in
    host_and_port behind (partition b'[' behind)

abbrev with_zone : Text → Option (Text × Text) → Text
with_zone host none = lower host
with_zone host (some (name, zone)) = lower name ++ b'%' ∷ zone

-- `parsed.hostname`; an empty one is None.
pub hostname : Text → Text
unfolding hostinfo
hostname netloc = let host = (hostinfo netloc).0 in with_zone host (partition b'%' host)

-- The port is missing, or a number that is allowed.
abbrev port_fits : Text → Bool
port_fits [] = true
port_fits (c ∷ s) =
    all is_digit (c ∷ s)
    && leb min_tcp_port (number_from 10 0 (c ∷ s))
    && leb (number_from 10 0 (c ∷ s)) max_tcp_port

abbrev is_control : ℕ → Bool
is_control c = ltb c 32 || c == 127

abbrev pub is_http : Text → Bool
is_http scheme = text_eq scheme (codes "http") || text_eq scheme (codes "https")

-- `normal` says that normalising the location (NFKC) gives no character that separates its parts.
unfoldable pub validate_media_url : (Text → Bool) → Text → Option Text
unfolding scheme_of until_path brackets_fit names_user hostname number_from media_host_is_blocked
validate_media_url normal url =
    let (scheme, rest) = scheme_of url in
    let netloc = netloc_of rest in
    if length url == 0
      || ltb max_media_url_length (length url)
      || any is_control url
      || not (brackets_fit netloc)
      || not (normal netloc)
    then none
    else if not (is_http scheme) || length (hostname netloc) == 0 || names_user netloc
    then none
    else if media_host_is_blocked (hostname netloc)
    then none
    else if not (port_fits (hostinfo netloc).1)
    then none
    else some url

abbrev type_char : ℕ → Bool
type_char c =
    is_alnum c
    || c == b'!'
    || c == b'#'
    || c == b'$'
    || c == b'&'
    || c == b'^'
    || c == b'_'
    || c == b'.'
    || c == b'+'
    || c == b'-'

abbrev type_name : Text → Bool
type_name [] = false
type_name (c ∷ s) = is_alnum c && all type_char s

abbrev type_parts : Text → Option (Text × Text) → Bool
type_parts s none = type_name s
type_parts s (some (name, sub)) = type_name name && all type_char sub && leb 1 (length sub)

-- `_MEDIA_TYPE_PATTERN`
pub media_type_pattern : Text → Bool
unfolding partition
media_type_pattern s = type_parts s (partition b'/' s)

-- A missing type passes.
unfoldable pub validate_media_type : Option Text → Option (Option Text)
unfolding media_type_pattern strip lower
validate_media_type none = some none
validate_media_type (some media_type) =
    let candidate = strip media_type in
    if ltb max_media_type_length (length candidate) || not (media_type_pattern candidate)
    then none
    else some (some (lower candidate))

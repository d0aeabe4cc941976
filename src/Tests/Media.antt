-- ===== src/Tests/Media.antt =====
-- Runs of the check of media hosts and URLs (backend/bl_haos/health.py).
use bl_haos_bridge.Prelude.{
  ◌≡◌, ◌≤◌, refl, Bool, true, false, ◌||◌, ◌∷◌, [], map, all, length, leb, is_some, some,
}
use bl_haos_bridge.Dict.{Text, Text-discrete}
use bl_haos_bridge.Text.{codes, lower, is_space, starts_with}
use bl_haos_bridge.Media.Ip.{octet, number_from, special_v4}
use bl_haos_bridge.Media.Host.{media_host_is_blocked}
use bl_haos_bridge.Media.Host.Dotted.{dot, dotted}
use bl_haos_bridge.Media.Host.Spellings.{mapped, spellings_agree}
use bl_haos_bridge.Media.Host.Short.{two_numbers_pass}
use bl_haos_bridge.Media.Url.{
  validate_media_url, validate_media_type, skip_space, scheme_of, netloc_of, names_user, hostname,
}
use bl_haos_bridge.Media.Url.Laws.{validate_media_url_safe}

hosts :
    map media_host_is_blocked (
      codes "LocalHost."
      ∷ codes "2130706433"
      ∷ codes "0x7f000001"
      ∷ codes "[::1]"
      ∷ codes "::1"
      ∷ codes "::ffff:127.0.0.1"
      ∷ codes "fe80::1%eth0"
      ∷ codes "2001:db8::1"
      ∷ codes "127.1"
      ∷ codes "192.168.1.2"
      ∷ codes "169.254.169.254"
      ∷ codes "a.localhost"
      ∷ codes "example.com"
      ∷ [])
    ≡ true ∷ true ∷ true ∷ false ∷ true ∷ true ∷ true ∷ false ∷ false ∷ false ∷ true ∷ true ∷ false
      ∷ []
unfolding media_host_is_blocked Text-discrete is_space
hosts = refl

abbrev ascii_only : Text → Bool
ascii_only = all (λ c. leb c 127)

urls :
    map
      (λ url. is_some (validate_media_url ascii_only url))
      (codes "https://ha.local:8123/api/tts.mp3"
        ∷ codes " HTTP://host"
        ∷ codes "http://user@host/"
        ∷ codes "http://[::1]/"
        ∷ codes "http://[2001:db8::1]:80/x"
        ∷ codes "http://host:0/"
        ∷ codes "file:///etc/passwd"
        ∷ codes "http://127.1/"
        ∷ codes "http:host"
        ∷ [])
    ≡ true ∷ true ∷ false ∷ false ∷ true ∷ false ∷ false ∷ true ∷ false ∷ []
unfolding validate_media_url Text-discrete is_space
urls = refl

media_types :
    map
      (λ t. is_some (validate_media_type (some t)))
      (codes "music" ∷ codes " audio/MPEG " ∷ codes "a/b/c" ∷ codes "/x" ∷ codes "x/" ∷ [])
    ≡ true ∷ true ∷ false ∷ false ∷ false ∷ []
unfolding validate_media_type is_space
media_types = refl

-- The address 127.0.0.1.
spellings_agree_example :
    (media_host_is_blocked (dotted (codes "127") (codes "0") (codes "0") (codes "1"))
      ≡ special_v4 2130706433)
    × (media_host_is_blocked (mapped (codes "127") (codes "0") (codes "0") (codes "1"))
        ≡ special_v4 2130706433)
    × (media_host_is_blocked (codes "2130706433") ≡ special_v4 2130706433)
unfolding octet number_from
spellings_agree_example =
    spellings_agree (codes "127") (codes "0") (codes "0") (codes "1") (codes "2130706433") 127 0 0 1
      2130706433 refl refl refl refl refl refl refl refl refl

two_numbers_pass_example : media_host_is_blocked (dot (codes "127") (codes "1")) ≡ false
two_numbers_pass_example = two_numbers_pass (codes "127") (codes "1") refl refl refl refl

abbrev stream : Text
stream = codes "HTTP://10.0.0.2/a"

validate_media_url_safe_example :
    (stream ≡ stream)
    × (length stream ≤ 2048)
    × ((starts_with (codes "http://") (lower (skip_space stream))
          || starts_with (codes "https://") (lower (skip_space stream)))
        ≡ true)
    × (names_user (netloc_of (scheme_of stream).1) ≡ false)
    × (media_host_is_blocked (hostname (netloc_of (scheme_of stream).1)) ≡ false)
unfolding validate_media_url Text-discrete is_space
validate_media_url_safe_example = validate_media_url_safe ascii_only stream stream refl

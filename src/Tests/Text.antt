-- ===== src/Tests/Text.antt =====
-- Runs of the address, codec and redaction functions (backend/bl_haos/health.py).
use bl_haos_bridge.Prelude.{◌≡◌, refl, none, some, length}
use bl_haos_bridge.Dict.{Text}
use bl_haos_bridge.Text.{codes}
use bl_haos_bridge.Address.{normalize_address, safe_codec}
use bl_haos_bridge.Address.Laws.{IsAddress, normalize_address-canonical}
use bl_haos_bridge.Redaction.{safe_text}
use bl_haos_bridge.Redaction.Laws.{HasNoUrl, safe_text-HasNoUrl}

abbrev spoken : Text
spoken = codes " A0-BB-CC-DD-EE-01 "

abbrev canonical : Text
canonical = codes "a0:bb:cc:dd:ee:01"

normalize_spoken : normalize_address spoken ≡ some canonical
unfolding normalize_address bl_haos_bridge.Text.strip bl_haos_bridge.Text.is_space
    bl_haos_bridge.Text.replace_char bl_haos_bridge.Text.lower
normalize_spoken = refl

multicast_refused : normalize_address (codes "01:00:5e:00:00:01") ≡ none
unfolding normalize_address bl_haos_bridge.Text.strip bl_haos_bridge.Text.is_space
    bl_haos_bridge.Text.replace_char bl_haos_bridge.Text.lower
multicast_refused = refl

broadcast_refused : normalize_address (codes "ff:ff:ff:ff:ff:ff") ≡ none
unfolding normalize_address bl_haos_bridge.Text.strip bl_haos_bridge.Text.is_space
    bl_haos_bridge.Text.replace_char bl_haos_bridge.Text.lower
broadcast_refused = refl

short_refused : normalize_address (codes "a0:bb:cc:dd:ee") ≡ none
unfolding normalize_address bl_haos_bridge.Text.strip bl_haos_bridge.Text.is_space
    bl_haos_bridge.Text.replace_char bl_haos_bridge.Text.lower
short_refused = refl

codec_cleaned : safe_codec (some (codes " LDAC ")) ≡ some (codes "ldac")
unfolding safe_codec bl_haos_bridge.Text.lower bl_haos_bridge.Text.strip
    bl_haos_bridge.Text.is_space
codec_cleaned = refl

codec_refused : safe_codec (some (codes "sbc xq")) ≡ none
unfolding safe_codec bl_haos_bridge.Text.lower bl_haos_bridge.Text.strip
    bl_haos_bridge.Text.is_space
codec_refused = refl

secret_hidden :
    safe_text (codes "retry token=abc at http://host/path?x=1 now")
    ≡ codes "retry token=[redacted] at [url redacted] now"
unfolding safe_text bl_haos_bridge.Text.contains bl_haos_bridge.Redaction.redact_secrets
    bl_haos_bridge.Text.replace_char bl_haos_bridge.Redaction.redact_urls
secret_hidden = refl

normalize_address-canonical_example :
    IsAddress canonical × (normalize_address canonical ≡ some canonical) × (length canonical ≡ 17)
normalize_address-canonical_example = normalize_address-canonical spoken canonical normalize_spoken

safe_text-HasNoUrl_example : HasNoUrl (safe_text (codes "GET https://host/secret failed"))
safe_text-HasNoUrl_example = safe_text-HasNoUrl (codes "GET https://host/secret failed")

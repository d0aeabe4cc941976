-- ===== src/Redaction.antt =====
-- Redaction of credentials and URLs in a detail string (backend/bl_haos/health.py: safe_detail,
-- _SECRET_PATTERN, _redact_url_match; constants.py: the redaction vocabulary).
pub mod Laws
use bl_haos_bridge.Prelude.{
  ◌>>=◌, ℕ, zero, suc, ◌+◌, ◌-◌, Bool, true, false, not, ◌&&◌, ◌||◌, List, [], ◌∷◌, ◌++◌, leb, ◌==◌,
  if◌then◌else◌, length, take, map, Option, none, some,
}
use bl_haos_bridge.Dict.{Text}
use bl_haos_bridge.Text.{codes, to_lower, is_space, replace_char, contains, starts_with}

abbrev pub max_detail_length : ℕ
max_detail_length = 256

abbrev pub secret_tokens : List Text
secret_tokens =
    codes "token" ∷ codes "password" ∷ codes "secret" ∷ codes "authorization" ∷ codes "bearer" ∷ []

abbrev pub redacted_placeholder : Text
redacted_placeholder = codes "[redacted]"

abbrev pub url_redaction_placeholder : Text
url_redaction_placeholder = codes "[url redacted]"

-- What `re.sub` does with a pattern that matches no empty string: `matcher` reads the text from a
-- position and gives the replacement and the length of the match. The scan goes on behind the
-- match, so `skip` counts the characters of it that are still to be dropped.
abbrev pub Matcher : Type 0
Matcher = Text → Option (Text × ℕ)

pub sub_from : Matcher → ℕ → Text → Text
sub_from m skip [] = []
sub_from m (suc skip) (c ∷ s) = sub_from m skip s
sub_from m zero (c ∷ s) = elim (m (c ∷ s)) [
  | none ↦ c ∷ sub_from m 0 s
  | some (new, n) ↦ new ++ sub_from m (n - 1) s
]

-- A code point as a pattern with the flag `i` compares it: U+0130, U+0131, U+017F and U+212A count
-- as i, i, s and k.
unfoldable pub fold_case : ℕ → ℕ
unfolding to_lower
fold_case c = if c == 0x130 || c == 0x131 then b'i' else if c == 0x17f then b's' else to_lower c

-- `[a-z]` with the flag `i`
pub is_letter : ℕ → Bool
is_letter c = leb b'a' (fold_case c) && leb (fold_case c) b'z'

-- `[^\s]` at the head
pub solid_head : Text → Bool
solid_head [] = false
solid_head (c ∷ s) = not (is_space c)

-- The length of the longest prefix that a class of characters takes.
pub run_length : (ℕ → Bool) → Text → ℕ
run_length p [] = 0
run_length p (c ∷ s) = if p c then suc (run_length p s) else 0

pub skip_while : (ℕ → Bool) → Text → Text
skip_while p [] = []
skip_while p (c ∷ s) = if p c then skip_while p s else c ∷ s

-- `://[^\s]+`, and `[a-z]*://[^\s]+`
pub url_tail : Text → Bool
url_tail (a ∷ b ∷ c ∷ s) = a == b':' && b == b'/' && c == b'/' && solid_head s
url_tail _ = false

pub url_rest : Text → Bool
url_rest [] = false
url_rest (c ∷ s) = if is_letter c then url_rest s else url_tail (c ∷ s)

-- `[a-z]+://[^\s]+`
pub is_url : Text → Bool
is_url [] = false
is_url (c ∷ s) = is_letter c && url_rest s

pub url_match : Matcher
url_match s =
    if is_url s
    then some (url_redaction_placeholder, run_length (λ c. not (is_space c)) s)
    else none

unfoldable pub redact_urls : Text → Text
unfolding sub_from url_match is_url url_rest url_tail solid_head is_letter fold_case run_length
    is_space
redact_urls = sub_from url_match 0

-- A token of the vocabulary at the head, and the text behind it.
pub after_prefix : Text → Text → Option Text
unfolding fold_case
after_prefix [] s = some s
after_prefix (p ∷ ps) [] = none
after_prefix (p ∷ ps) (c ∷ s) = if fold_case c == p then after_prefix ps s else none

-- `\s*[:=]\s*[^\s,;]+`: the text behind it.
abbrev secret_char : ℕ → Bool
secret_char c = not (is_space c || c == b',' || c == b';')

abbrev after_separator : Text → Option Text
after_separator [] = none
after_separator (c ∷ s) = if c == b':' || c == b'=' then some (skip_while is_space s) else none

abbrev after_value : Text → Option Text
after_value [] = none
after_value (c ∷ s) = if secret_char c then some (skip_while secret_char s) else none

-- One alternative of `_SECRET_PATTERN`; the group `\1` is the token as the text spells it.
secret_match_at : Text → Matcher
unfolding after_prefix skip_while
secret_match_at token s = do
  behind ← after_prefix token s
  value ← after_separator (skip_while is_space behind)
  rest ← after_value value
  some (take (length token) s ++ b'=' ∷ redacted_placeholder, length s - length rest)

secret_match_any : List Text → Matcher
unfolding secret_match_at
secret_match_any [] s = none
secret_match_any (t ∷ ts) s = elim (secret_match_at t s) [
  | none ↦ secret_match_any ts s
  | some m ↦ some m
]

unfoldable pub redact_secrets : Text → Text
unfolding sub_from secret_match_any is_space
redact_secrets = sub_from (secret_match_any secret_tokens) 0

-- `redact_value` on a string, and the same step of `safe_detail`
unfoldable pub redact_str : Text → Text
redact_str value = if contains (codes "://") value then redact_urls value else value

-- `safe_detail` on a string.
unfoldable pub safe_text : Text → Text
unfolding redact_str
safe_text detail =
    let line = replace_char 10 32 (replace_char 13 32 detail) in
    take max_detail_length (redact_str (redact_secrets line))

unfoldable pub safe_detail : Option Text → Option Text
safe_detail none = none
safe_detail (some detail) = some (safe_text detail)

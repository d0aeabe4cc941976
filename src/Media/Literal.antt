-- ===== src/Media/Literal.antt =====
-- `int(host, 0)`, by which backend/bl_haos/health.py reads a host that is a number. Digits are those
-- of ASCII.
use bl_haos_bridge.Prelude.{
  ℕ, zero, ◌+◌, ◌*◌, Bool, true, false, [], ◌∷◌, ltb, ◌==◌, if◌then◌else◌, Option, none, some,
}
use bl_haos_bridge.Dict.{Text}
use bl_haos_bridge.Text.{to_lower, strip}
use bl_haos_bridge.Media.Ip.{digit_value}

-- Digits with single underscores between them: the number so far, and whether a digit came last.
abbrev digit_or_underscore : ℕ → Option (ℕ × Bool) → ℕ → Option (ℕ × Bool)
digit_or_underscore base none c = none
digit_or_underscore base (some (n, after_digit)) c =
    if c == b'_'
    then (if after_digit then some (n, false) else none)
    else if ltb (digit_value c) base
    then some (base * n + digit_value c, true)
    else none

unfoldable pub digits_from : ℕ → Option (ℕ × Bool) → Text → Option (ℕ × Bool)
unfolding digit_value
digits_from base state [] = state
digits_from base state (c ∷ s) = digits_from base (digit_or_underscore base state c) s

abbrev pub ended : Option (ℕ × Bool) → Option ℕ
ended (some (n, true)) = some n
ended _ = none

abbrev prefixed : ℕ → Text → Option ℕ
prefixed base [] = none
prefixed base (c ∷ s) = ended (digits_from base (some (0, true)) (c ∷ s))

-- A decimal that starts with a zero is zero.
abbrev only_zero : Option ℕ → Option ℕ
only_zero (some zero) = some zero
only_zero _ = none

abbrev plain : Text → Option ℕ
plain s = ended (digits_from 10 (some (0, false)) s)

unfoldable pub unsigned : Text → Option ℕ
unfolding digits_from to_lower
unsigned (c ∷ d ∷ s) =
    if c == b'0'
    then if to_lower d == b'x'
      then prefixed 16 s
      else if to_lower d == b'o'
      then prefixed 8 s
      else if to_lower d == b'b'
      then prefixed 2 s
      else only_zero (plain (c ∷ d ∷ s))
    else plain (c ∷ d ∷ s)
unsigned s = plain s

-- The sign and the size of an integer.
abbrev signed : Bool → Option ℕ → Option (Bool × ℕ)
signed negative none = none
signed negative (some n) = some (negative, n)

abbrev with_sign : Text → Option (Bool × ℕ)
with_sign [] = none
with_sign (c ∷ s) =
    if c == b'-'
    then signed true (unsigned s)
    else if c == b'+'
    then signed false (unsigned s)
    else signed false (unsigned (c ∷ s))

-- `int(s, 0)`
unfoldable pub int_literal : Text → Option (Bool × ℕ)
unfolding unsigned strip
int_literal s = with_sign (strip s)

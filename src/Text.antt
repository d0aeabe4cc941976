-- ===== src/Text.antt =====
-- Python str operations that the bridge uses, on lists of code points.
use Prim.Native.Char.{code}
use Prim.Native.String.{String}
use bl_haos_bridge.Prelude.{
  ℕ, ◌+◌, ◌-◌, Bool, true, false, not, ◌&&◌, ◌||◌, [], ◌∷◌, leb, ◌==◌, if◌then◌else◌, map, ite,
  select, length, drop,
}
use bl_haos_bridge.Dict.{Text, Text-discrete}

-- A literal of the source.
abbrev pub codes : String → Text
codes String.[] = []
codes (String.◌∷◌ c s) = code c ∷ codes s

abbrev pub text_eq : Text → Text → Bool
text_eq a b = ite (Text-discrete a b) true false

-- `chr(c).isspace()`, which is also the `\s` of a str pattern.
unfoldable pub is_space : ℕ → Bool
is_space c =
    (leb 9 c && leb c 13)
    || (leb 28 c && leb c 32)
    || c == 133
    || c == 160
    || c == 5760
    || (leb 8192 c && leb c 8202)
    || c == 8232
    || c == 8233
    || c == 8239
    || c == 8287
    || c == 12288

-- `lower()` of a code point. Of the letters beyond ASCII, U+212A lowers to k. The mappings that
-- stay outside ASCII, and U+0130, which lowers to an i and a combining dot, are left out.
unfoldable pub to_lower : ℕ → ℕ
to_lower c = if leb b'A' c && leb c b'Z' then c + 32 else if c == 0x212a then b'k' else c

unfoldable pub lower : Text → Text
unfolding to_lower
lower = map to_lower

-- What `rstrip` keeps of a character before the stripped rest.
unfoldable pub trim_end : ℕ → Text → Text
trim_end c [] = if is_space c then [] else c ∷ []
trim_end c (d ∷ r) = c ∷ d ∷ r

-- `lstrip()`, `rstrip()` and `strip()`
unfoldable pub lstrip : Text → Text
lstrip [] = []
lstrip (c ∷ s) = if is_space c then lstrip s else c ∷ s

unfoldable pub rstrip : Text → Text
unfolding trim_end
rstrip [] = []
rstrip (c ∷ s) = trim_end c (rstrip s)

unfoldable pub strip : Text → Text
unfolding lstrip rstrip
strip s = rstrip (lstrip s)

-- `replace(a, b)` of one character by another
unfoldable pub replace_char : ℕ → ℕ → Text → Text
replace_char a b = map (λ c. if c == a then b else c)

abbrev pub is_digit : ℕ → Bool
is_digit c = leb b'0' c && leb c b'9'

abbrev pub is_alnum : ℕ → Bool
is_alnum c = (leb b'A' c && leb c b'Z') || (leb b'a' c && leb c b'z') || is_digit c

-- `[0-9a-f]`
abbrev pub is_hex : ℕ → Bool
is_hex c = is_digit c || (leb b'a' c && leb c b'f')

-- `startswith`
unfoldable pub starts_with : Text → Text → Bool
starts_with [] s = true
starts_with (p ∷ ps) [] = false
starts_with (p ∷ ps) (c ∷ s) = p == c && starts_with ps s

-- `part in s`
unfoldable pub contains : Text → Text → Bool
unfolding starts_with
contains part [] = starts_with part []
contains part (c ∷ s) = starts_with part (c ∷ s) || contains part s

-- `replace(a, "")` of one character
abbrev pub remove_char : ℕ → Text → Text
remove_char a = select (λ c. not (c == a))

-- `upper()`, of a text in ASCII
abbrev pub upper : Text → Text
upper = map (λ c. if leb b'a' c && leb c b'z' then c - 32 else c)

-- `s.rsplit(part, 1)[-1]`, which is `s.split(part)[-1]` for a part that cannot overlap itself.
-- `best` is what follows the last occurrence so far.
pub after_last_from : Text → Text → Text → Text
after_last_from part best [] = best
after_last_from part best (c ∷ s) =
    after_last_from part (if starts_with part (c ∷ s) then drop (length part) (c ∷ s) else best) s

unfoldable pub after_last : Text → Text → Text
unfolding after_last_from
after_last part s = after_last_from part s s

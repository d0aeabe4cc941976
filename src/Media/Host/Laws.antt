-- ===== src/Media/Host/Laws.antt =====
-- How the spellings of an IPv4 address are judged (backend/bl_haos/health.py: media_host_is_blocked).
use bl_haos_bridge.Prelude.{
  ◌>>=◌, ℕ, zero, suc, ◌+◌, ◌*◌, ◌-◌, ◌≡◌, refl, subst, if_neg, arith, Bool, true, false, ◌||◌, [],
  ◌∷◌, ◌++◌, all, any, All, All-append, length, drop, leb, ◌==◌, if◌then◌else◌, Option, none, some,
}
use bl_haos_bridge.Dict.{Text, Text-discrete}
use bl_haos_bridge.Text.{
  codes, text_eq, is_digit, is_space, to_lower, lower, strip, lstrip, rstrip, trim_end,
}
use bl_haos_bridge.Media.Parts.{split_on-last, partition}
use bl_haos_bridge.Media.Ip.{
  digit_value, number_from, starts_with_zero, ipv4, ipv6, parts_of, words_of, counted_parts,
  written,
}
use bl_haos_bridge.Media.Literal.{digits_from, unsigned, int_literal}
use bl_haos_bridge.Media.Host.{
  rstrip_dots, host_key, names_this_host, media_address, media_host_is_blocked, special_or_name,
}

-- The characters of the spellings below.
abbrev pub plain_char : ℕ → Bool
plain_char c = is_digit c || c == b'.' || c == b':' || c == b'f'

abbrev pub Plain : Text → Type 0
Plain = All (λ c. plain_char c ≡ true)

lower-Plain : (s : Text) → Plain s → lower s ≡ s
unfolding lower to_lower
lower-Plain [] h = refl
lower-Plain (c ∷ s) h = ground (arith, lower-Plain s h.1)

space-Plain : (c : ℕ) → plain_char c ≡ true → is_space c ≡ false
unfolding is_space
space-Plain c h = ground arith

rstrip-Plain : (s : Text) → Plain s → rstrip s ≡ s
unfolding rstrip trim_end
rstrip-Plain [] h = refl
rstrip-Plain (c ∷ []) h = rw (space-Plain c h.0) refl
rstrip-Plain (c ∷ d ∷ s) h = rw (rstrip-Plain (d ∷ s) h.1) refl

strip-Plain : (s : Text) → Plain s → strip s ≡ s
unfolding strip lstrip
strip-Plain [] h = rstrip-Plain [] tt
strip-Plain (c ∷ s) h = rw (space-Plain c h.0) (rstrip-Plain (c ∷ s) h)

All-drop : (n : ℕ) (s : Text) → Plain s → Plain (drop n s)
All-drop zero s h = h
All-drop (suc n) [] h = tt
All-drop (suc n) (c ∷ s) h = All-drop n s h.1

-- What is plain is none of the texts that are not.
text_eq-Plain : (a b : Text) → Plain a → (Plain b → ⊥) → text_eq a b ≡ false
text_eq-Plain a b h other = if_neg (Text-discrete a b) (λ e. other (subst Plain e h)) true false

names_this_host-Plain : (s : Text) → Plain s → names_this_host s ≡ false
names_this_host-Plain s h = ground (
  arith,
  text_eq-Plain s (codes "localhost") h (λ v. ground arith),
  text_eq-Plain s (codes "localhost.localdomain") h (λ v. ground arith),
  text_eq-Plain s (codes "ip6-localhost") h (λ v. ground arith),
  text_eq-Plain s (codes "ip6-loopback") h (λ v. ground arith),
  text_eq-Plain (drop (length s - 10) s) (codes ".localhost") (All-drop (length s - 10) s h)
      (λ v. ground arith),
)

pub dots_kept :
    (a b : Text) (d : ℕ) → rstrip_dots (d ∷ b) ≡ d ∷ b → rstrip_dots (a ++ d ∷ b) ≡ a ++ d ∷ b
unfolding rstrip_dots
dots_kept [] b d h = h
dots_kept (c ∷ []) b d h = rw h refl
dots_kept (c ∷ e ∷ a) b d h = rw (dots_kept (e ∷ a) b d h) refl

pub AllDigits-rstrip_dots : (s : Text) → all is_digit s ≡ true → rstrip_dots s ≡ s
unfolding rstrip_dots
AllDigits-rstrip_dots [] h = refl
AllDigits-rstrip_dots (c ∷ []) h = ground arith
AllDigits-rstrip_dots (c ∷ d ∷ s) h = rw (AllDigits-rstrip_dots (d ∷ s) (ground arith)) refl

pub AllDigits-Plain : (s : Text) → all is_digit s ≡ true → Plain s
AllDigits-Plain [] h = tt
AllDigits-Plain (c ∷ s) h = (ground arith, AllDigits-Plain s (ground arith))

pub append-Plain : (a b : Text) → Plain a → Plain b → Plain (a ++ b)
append-Plain = All-append (λ c. plain_char c ≡ true)

pub without :
    (sep : ℕ) (s : Text)
    → is_digit sep ≡ false
    → all is_digit s ≡ true
    → All (λ c. (c == sep) ≡ false) s
without sep [] e h = tt
without sep (c ∷ s) e h = (ground arith, without sep s e (ground arith))

-- The host is judged by its address only, when its key is itself.
pub blocked_by_address :
    (s : Text)
    → Plain s
    → rstrip_dots s ≡ s
    → leb 1 (length s) ≡ true
    → media_host_is_blocked s ≡ special_or_name (media_address s)
unfolding media_host_is_blocked host_key
blocked_by_address s h e n =
    rw (strip-Plain s h)
      (rw (lower-Plain s h) (rw e (rw (names_this_host-Plain s h) (ground arith))))

digit-value : (c : ℕ) → is_digit c ≡ true → digit_value c ≡ c - b'0'
unfolding digit_value
digit-value c h = ground arith

-- Digits are read as one number.
digits_from-digits :
    (n : ℕ) (d : Bool) (c : ℕ) (s : Text)
    → all is_digit (c ∷ s) ≡ true
    → digits_from 10 (some (n, d)) (c ∷ s) ≡ some (number_from 10 n (c ∷ s), true)
unfolding digits_from number_from
digits_from-digits n d c [] h = ground (arith, digit-value c)
digits_from-digits n d c (e ∷ s) h =
    ground (arith, digit-value c, digits_from-digits (10 * n + digit_value c) true e s)

digits_from-none : (s : Text) → digits_from 10 none s ≡ none
unfolding digits_from
digits_from-none [] = refl
digits_from-none (c ∷ s) = digits_from-none s

-- A dot ends a number in failure.
digits_from-dot :
    (a b : Text) (state : Option (ℕ × Bool)) → digits_from 10 state (a ++ b'.' ∷ b) ≡ none
unfolding digits_from digit_value
digits_from-dot [] b none = digits_from-none b
digits_from-dot [] b (some (n, d)) = digits_from-none b
digits_from-dot (c ∷ a) b state = digits_from-dot a b _

pub int_literal-digits :
    (s : Text)
    → all is_digit s ≡ true
    → leb 1 (length s) ≡ true
    → starts_with_zero s ≡ false
    → int_literal s ≡ some (false, number_from 10 0 s)
unfolding int_literal unsigned
int_literal-digits [] h n z = ground arith
int_literal-digits (c ∷ []) h n z =
    rw (strip-Plain (c ∷ []) (AllDigits-Plain (c ∷ []) h))
      (ground (arith, digits_from-digits 0 false c [] h))
int_literal-digits (c ∷ d ∷ s) h n z =
    rw (strip-Plain (c ∷ d ∷ s) (AllDigits-Plain (c ∷ d ∷ s) h))
      (ground (arith, digits_from-digits 0 false c (d ∷ s) h))

pub partition-All : (sep : ℕ) (s : Text) → All (λ c. (c == sep) ≡ false) s → partition sep s ≡ none
unfolding partition
partition-All sep [] h = refl
partition-All sep (c ∷ s) h = ground (arith, partition-All sep s h.1)

pub any-All : (sep : ℕ) (s : Text) → All (λ c. (c == sep) ≡ false) s → any (λ c. c == sep) s ≡ false
any-All sep [] h = refl
any-All sep (c ∷ s) h = ground (arith, any-All sep s h.1)

-- The second character of a number with a dot is a digit or the dot.
pub int_literal-dot :
    (a b : Text)
    → all is_digit a ≡ true
    → leb 1 (length a) ≡ true
    → all is_digit b ≡ true
    → int_literal (a ++ b'.' ∷ b) ≡ none
unfolding int_literal unsigned to_lower
int_literal-dot [] b h n g = ground arith
int_literal-dot (c ∷ []) b h n g =
    let plain =
      append-Plain (c ∷ []) (b'.' ∷ b) (AllDigits-Plain (c ∷ []) h) (refl, AllDigits-Plain b g) in
    rw (strip-Plain (c ∷ b'.' ∷ b) plain)
      (ground (arith, digits_from-dot (c ∷ []) b (some (0, false))))
int_literal-dot (c ∷ d ∷ a) b h n g =
    let plain =
      append-Plain (c ∷ d ∷ a) (b'.' ∷ b) (AllDigits-Plain (c ∷ d ∷ a) h)
        (refl, AllDigits-Plain b g) in
    rw (strip-Plain (c ∷ d ∷ a ++ b'.' ∷ b) plain)
      (ground (arith, digits_from-dot (c ∷ d ∷ a) b (some (0, false))))

-- Digits and dots are no IPv6 address.
pub ipv6-no_colon :
    (s : Text)
    → All (λ c. (c == b':') ≡ false) s
    → All (λ c. (c == b'%') ≡ false) s
    → All (λ c. (c == b'/') ≡ false) s
    → ipv6 s ≡ none
unfolding ipv6 parts_of
ipv6-no_colon s colon percent slash = rw (any-All b'/' s slash) (
    rw (partition-All b'%' s percent)
      (rw (split_on-last b':' s colon) (one_part s (any (λ c. c == b'.') s) (ipv4 s))))
  where
    one_part :
        (s : Text) (b : Bool) (n : Option ℕ)
        → ((if b then words_of n else some (written s ∷ [])) >>= counted_parts) ≡ none
    one_part s true none = refl
    one_part s true (some n) = refl
    one_part s false n = refl

-- ===== src/Media/Host/Dotted.antt =====
-- Hosts of digits and dots, as media_host_is_blocked (backend/bl_haos/health.py) reads them.
use bl_haos_bridge.Prelude.{
  ℕ, ◌+◌, ◌*◌, ◌≤◌, ◌≡◌, refl, ap, ◌∙◌, arith, true, false, [], ◌∷◌, ◌++◌, all, All, All-append,
  length, leb, ◌==◌, none, some,
}
use bl_haos_bridge.Dict.{Text}
use bl_haos_bridge.Text.{is_digit}
use bl_haos_bridge.Media.Parts.{split_on, split_on-last, split_on-append}
use bl_haos_bridge.Media.Ip.{
  number_from, octet, starts_with_zero, four_octets, ipv4, ipv6, ip_address, v4,
}
use bl_haos_bridge.Media.Host.{media_address, rstrip_dots}
use bl_haos_bridge.Media.Host.Laws.{
  Plain, AllDigits-Plain, append-Plain, without, int_literal-digits, ipv6-no_colon, dots_kept,
}

-- `a.b.c.d`
abbrev pub dot : Text → Text → Text
dot a b = a ++ b'.' ∷ b

abbrev pub dotted : Text → Text → Text → Text → Text
dotted a b c d = dot a (dot b (dot c d))

-- What an octet is made of.
pub octet-some :
    (s : Text) (n : ℕ)
    → octet s ≡ some n
    → (all is_digit s ≡ true) × (leb 1 (length s) ≡ true) × (number_from 10 0 s ≡ n) × (n ≤ 255)
unfolding octet
octet-some s n h = ground arith

pub no_dot : (s : Text) → all is_digit s ≡ true → All (λ c. (c == b'.') ≡ false) s
no_dot s = without b'.' s refl

split_on-dotted :
    (a b c d : Text)
    → all is_digit a ≡ true
    → all is_digit b ≡ true
    → all is_digit c ≡ true
    → all is_digit d ≡ true
    → split_on b'.' (dotted a b c d) ≡ a ∷ b ∷ c ∷ d ∷ []
split_on-dotted a b c d p q r s =
    split_on-append b'.' a (dot b (dot c d)) (no_dot a p)
    ∙ ap (λ parts. a ∷ parts)
        (split_on-append b'.' b (dot c d) (no_dot b q)
          ∙ ap (λ parts. b ∷ parts)
              (split_on-append b'.' c d (no_dot c r)
                ∙ ap (λ parts. c ∷ parts) (split_on-last b'.' d (no_dot d s))))

pub ipv4-dotted :
    (a b c d : Text) (i j k l : ℕ)
    → octet a ≡ some i
    → octet b ≡ some j
    → octet c ≡ some k
    → octet d ≡ some l
    → ipv4 (dotted a b c d) ≡ some (256 * (256 * (256 * i + j) + k) + l)
unfolding ipv4
ipv4-dotted a b c d i j k l p q r s =
    ap four_octets (
      split_on-dotted a b c d (octet-some a i p).0 (octet-some b j q).0 (octet-some c k r).0
        (octet-some d l s).0)
    ∙ rw p (rw q (rw r (rw s refl)))

ipv4-digits : (s : Text) → all is_digit s ≡ true → ipv4 s ≡ none
unfolding ipv4
ipv4-digits s h = rw (split_on-last b'.' s (no_dot s h)) refl

ipv6-digits : (s : Text) → all is_digit s ≡ true → ipv6 s ≡ none
ipv6-digits s h =
    ipv6-no_colon s (without b':' s refl h) (without b'%' s refl h) (without b'/' s refl h)

-- Digits before a dot and digits behind it.
pub dotted-Plain : (a b : Text) → all is_digit a ≡ true → Plain b → Plain (dot a b)
dotted-Plain a b h v = append-Plain a (b'.' ∷ b) (AllDigits-Plain a h) (refl, v)

pub dot-trimmed :
    (a b : Text) → rstrip_dots b ≡ b → leb 1 (length b) ≡ true → rstrip_dots (dot a b) ≡ dot a b
dot-trimmed a [] e n = ground arith
dot-trimmed a (d ∷ b) e n = dots_kept a (d ∷ b) b'.' (dots_kept (b'.' ∷ []) b d e)

pub dot-nonempty : (a b : Text) → leb 1 (length (dot a b)) ≡ true
dot-nonempty [] b = ground arith
dot-nonempty (c ∷ a) b = ground arith

pub media_address-digits :
    (s : Text)
    → all is_digit s ≡ true
    → leb 1 (length s) ≡ true
    → starts_with_zero s ≡ false
    → number_from 10 0 s ≤ 0xffffffff
    → media_address s ≡ some (v4 (number_from 10 0 s))
unfolding media_address ip_address
media_address-digits s h n z m =
    rw (ipv4-digits s h) (rw (ipv6-digits s h) (rw (int_literal-digits s h n z) (ground arith)))

pub no_colon :
    (sep : ℕ) (a b : Text)
    → All (λ c. (c == sep) ≡ false) a
    → All (λ c. (c == sep) ≡ false) b
    → (b'.' == sep) ≡ false
    → All (λ c. (c == sep) ≡ false) (dot a b)
no_colon sep a b h g e = All-append (λ c. (c == sep) ≡ false) a (b'.' ∷ b) h (e, g)

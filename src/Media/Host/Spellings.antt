-- ===== src/Media/Host/Spellings.antt =====
-- The spellings of an IPv4 address that media_host_is_blocked (backend/bl_haos/health.py) sees
-- through, and those that it does not.
use bl_haos_bridge.Prelude.{
  ℕ, ◌+◌, ◌*◌, ◌/◌, ◌%◌, ◌≤◌, ◌≡◌, refl, sym, ap, ◌∙◌, arith, true, false, [], ◌∷◌, ◌++◌, all, any,
  All, length, leb, ◌==◌, none, some,
}
use bl_haos_bridge.Dict.{Text}
use bl_haos_bridge.Text.{codes, is_digit}
use bl_haos_bridge.Media.Parts.{partition, split_on, split_on-last, split_on-append}
use bl_haos_bridge.Media.Ip.{
  number_from, octet, starts_with_zero, four_octets, ipv4, ipv6, ip_address, parts_of, gap_in,
  hextets, hextet, special_v4, v4, v6,
}
use bl_haos_bridge.Media.Host.{
  media_address, media_host_is_blocked, rstrip_dots, special, special_or_name,
}
use bl_haos_bridge.Media.Host.Laws.{
  Plain, AllDigits-Plain, without, blocked_by_address, any-All, partition-All,
  AllDigits-rstrip_dots,
}
use bl_haos_bridge.Media.Host.Dotted.{
  dot, dotted, octet-some, no_dot, ipv4-dotted, dotted-Plain, dot-trimmed, dot-nonempty,
  media_address-digits, no_colon,
}

-- `::ffff:a.b.c.d`
abbrev pub mapped : Text → Text → Text → Text → Text
mapped a b c d = codes "::ffff:" ++ dotted a b c d

dotted-All :
    (sep : ℕ) (a b c d : Text)
    → is_digit sep ≡ false
    → (b'.' == sep) ≡ false
    → all is_digit a ≡ true
    → all is_digit b ≡ true
    → all is_digit c ≡ true
    → all is_digit d ≡ true
    → All (λ e. (e == sep) ≡ false) (dotted a b c d)
dotted-All sep a b c d n e p q r s =
    no_colon sep a (dot b (dot c d)) (without sep a n p)
      (no_colon sep b (dot c d) (without sep b n q)
        (no_colon sep c d (without sep c n r) (without sep d n s) e) e)
      e

has_dot : (a b : Text) → any (λ c. c == b'.') (dot a b) ≡ true
has_dot [] b = refl
has_dot (c ∷ a) b = ground (arith, has_dot a b)

special-mapped : (n : ℕ) → n ≤ 0xffffffff → special (v6 (0xffff00000000 + n)) ≡ special_v4 n
special-mapped n h =
    let high : (0xffff00000000 + n) / 0x100000000 ≡ 0xffff = omega arith in
    let low : (0xffff00000000 + n) % 0x100000000 ≡ n = omega arith in rw high (rw low refl)

ipv6-mapped :
    (a b c d : Text) (n : ℕ)
    → all is_digit a ≡ true
    → all is_digit b ≡ true
    → all is_digit c ≡ true
    → all is_digit d ≡ true
    → ipv4 (dotted a b c d) ≡ some n
    → ipv6 (mapped a b c d) ≡ some (0xffff00000000 + n)
unfolding ipv6 parts_of gap_in hextets hextet split_on partition number_from
ipv6-mapped a b c d n p q r s e =
    rw (any-All b'/' (dotted a b c d) (dotted-All b'/' a b c d refl refl p q r s)) (
      rw (partition-All b'%' (dotted a b c d) (dotted-All b'%' a b c d refl refl p q r s)) (
        rw (split_on-last b':' (dotted a b c d) (dotted-All b':' a b c d refl refl p q r s))
          (rw (has_dot a (dot b (dot c d))) (rw e (ap some (omega arith))))))

ipv4-mapped :
    (a b c d : Text)
    → all is_digit a ≡ true
    → all is_digit b ≡ true
    → all is_digit c ≡ true
    → all is_digit d ≡ true
    → ipv4 (mapped a b c d) ≡ none
unfolding ipv4 octet
ipv4-mapped a b c d p q r s = ap four_octets (
    split_on-append b'.' (codes "::ffff:" ++ a) (dot b (dot c d))
      (refl, (refl, (refl, (refl, (refl, (refl, (refl, no_dot a p)))))))
    ∙ ap (λ parts. (codes "::ffff:" ++ a) ∷ parts)
        (split_on-append b'.' b (dot c d) (no_dot b q)
          ∙ ap (λ parts. b ∷ parts)
              (split_on-append b'.' c d (no_dot c r)
                ∙ ap (λ parts. c ∷ parts) (split_on-last b'.' d (no_dot d s)))))

-- The octets of an address and its number.
module _ (a b c d : Text) (i j k l n : ℕ) (p : octet a ≡ some i) (q : octet b ≡ some j)
    (r : octet c ≡ some k) (s : octet d ≡ some l)
    (e : n ≡ 256 * (256 * (256 * i + j) + k) + l) where
  ipv4-number : ipv4 (dotted a b c d) ≡ some n
  ipv4-number = rw (ipv4-dotted a b c d i j k l p q r s) (ap some (sym e))

  number-small : n ≤ 0xffffffff
  number-small = omega (
    arith,
    (octet-some a i p).3,
    (octet-some b j q).3,
    (octet-some c k r).3,
    (octet-some d l s).3,
  )

  rest-trimmed : rstrip_dots (dot b (dot c d)) ≡ dot b (dot c d)
  rest-trimmed =
      let (dd, nd, _, _) = octet-some d l s in
      dot-trimmed b (dot c d) (dot-trimmed c d (AllDigits-rstrip_dots d dd) nd) (dot-nonempty c d)

  number-Plain : Plain (dotted a b c d)
  number-Plain = dotted-Plain a (dot b (dot c d)) (octet-some a i p).0 (
      dotted-Plain b (dot c d) (octet-some b j q).0
        (dotted-Plain c d (octet-some c k r).0 (AllDigits-Plain d (octet-some d l s).0)))

  media_address-dotted : media_address (dotted a b c d) ≡ some (v4 n)
  unfolding media_address ip_address
  media_address-dotted = rw ipv4-number refl

  media_host_is_blocked-dotted : media_host_is_blocked (dotted a b c d) ≡ special_v4 n
  media_host_is_blocked-dotted =
      blocked_by_address (dotted a b c d) number-Plain
        (dot-trimmed a (dot b (dot c d)) rest-trimmed (dot-nonempty b (dot c d)))
        (dot-nonempty a (dot b (dot c d)))
      ∙ ap special_or_name media_address-dotted

  media_address-mapped : media_address (mapped a b c d) ≡ some (v6 (0xffff00000000 + n))
  unfolding media_address ip_address
  media_address-mapped =
      let da = (octet-some a i p).0 in
      let db = (octet-some b j q).0 in
      let dc = (octet-some c k r).0 in
      let dd = (octet-some d l s).0 in
      rw (ipv4-mapped a b c d da db dc dd) (rw (ipv6-mapped a b c d n da db dc dd ipv4-number) refl)

  media_host_is_blocked-mapped : media_host_is_blocked (mapped a b c d) ≡ special_v4 n
  media_host_is_blocked-mapped =
      blocked_by_address (mapped a b c d)
        (refl, (refl, (refl, (refl, (refl, (refl, (refl, number-Plain)))))))
        (dot-trimmed (codes "::ffff:" ++ a) (dot b (dot c d)) rest-trimmed
          (dot-nonempty b (dot c d)))
        (dot-nonempty (codes "::ffff:" ++ a) (dot b (dot c d)))
      ∙ ap special_or_name media_address-mapped
      ∙ special-mapped n number-small

-- An IPv4 address that is written as four octets, as an IPv6 address that maps those, or as one
-- decimal number is judged by its number alone: it is blocked exactly when it is a loopback,
-- link-local, multicast, reserved or unspecified address.
pub spellings_agree :
    (a b c d s : Text) (i j k l n : ℕ)
    → octet a ≡ some i
    → octet b ≡ some j
    → octet c ≡ some k
    → octet d ≡ some l
    → n ≡ 256 * (256 * (256 * i + j) + k) + l
    → all is_digit s ≡ true
    → leb 1 (length s) ≡ true
    → starts_with_zero s ≡ false
    → number_from 10 0 s ≡ n
    → (media_host_is_blocked (dotted a b c d) ≡ special_v4 n)
      × (media_host_is_blocked (mapped a b c d) ≡ special_v4 n)
      × (media_host_is_blocked s ≡ special_v4 n)
spellings_agree a b c d s i j k l n p q r t e h m z v = (
  media_host_is_blocked-dotted a b c d i j k l n p q r t e,
  media_host_is_blocked-mapped a b c d i j k l n p q r t e,
  blocked_by_address s (AllDigits-Plain s h) (AllDigits-rstrip_dots s h) m
      ∙ ap special_or_name
          (media_address-digits s h m z (rw v (number-small a b c d i j k l n p q r t e)))
      ∙ ap special_v4 v,
)

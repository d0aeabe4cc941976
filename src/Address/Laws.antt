-- ===== src/Address/Laws.antt =====
-- Laws of the address validator (backend/bl_haos/health.py).
use bl_haos_bridge.Prelude.{
  ℕ, zero, suc, ◌+◌, ◌*◌, ◌≡◌, refl, ap, ◌∙◌, Bool, true, false, ◌||◌, [], ◌∷◌, arith, ◌==◌, all,
  length, bit_and, some,
}
use bl_haos_bridge.Dict.{Text}
use bl_haos_bridge.Text.{strip, lstrip, rstrip, lower, is_space, replace_char, is_hex}
use bl_haos_bridge.Address.{mac_groups, normalize_address, first_octet, has_control}

-- A run of groups: its length, and no blank or control character, capital or dash in it.
mac_groups-length : (n : ℕ) (s : Text) → mac_groups n s ≡ true → length s ≡ 3 * n + 2
unfolding mac_groups
mac_groups-length zero (a ∷ b ∷ []) h = refl
mac_groups-length (suc n) (a ∷ b ∷ c ∷ s) h = ground (arith, mac_groups-length n s)
mac_groups-length _ _ h = cc

abbrev mac_char : ℕ → Bool
mac_char c = is_hex c || c == b':'

mac_groups-chars : (n : ℕ) (s : Text) → mac_groups n s ≡ true → all mac_char s ≡ true
unfolding mac_groups
mac_groups-chars zero (a ∷ b ∷ []) h = ground arith
mac_groups-chars (suc n) (a ∷ b ∷ c ∷ s) h = ground (arith, mac_groups-chars n s)
mac_groups-chars _ _ h = cc

mac_char-not_space : (c : ℕ) → mac_char c ≡ true → is_space c ≡ false
unfolding is_space
mac_char-not_space c h = ground arith

lstrip-mac : (s : Text) → all mac_char s ≡ true → lstrip s ≡ s
unfolding lstrip
lstrip-mac [] h = refl
lstrip-mac (c ∷ s) h = ground (arith, mac_char-not_space c)

rstrip-mac : (s : Text) → all mac_char s ≡ true → rstrip s ≡ s
unfolding rstrip
rstrip-mac [] h = refl
rstrip-mac (c ∷ []) h = ground (arith, mac_char-not_space c)
rstrip-mac (c ∷ d ∷ s) h = ground (arith, rstrip-mac (d ∷ s))

strip-mac : (s : Text) → all mac_char s ≡ true → strip s ≡ s
unfolding strip
strip-mac s h = ap rstrip (lstrip-mac s h) ∙ rstrip-mac s h

lower-mac : (s : Text) → all mac_char s ≡ true → lower s ≡ s
unfolding lower
lower-mac [] h = refl
lower-mac (c ∷ s) h = ground (arith, lower-mac s)

replace_char-mac : (s : Text) → all mac_char s ≡ true → replace_char b'-' b':' s ≡ s
unfolding replace_char
replace_char-mac [] h = refl
replace_char-mac (c ∷ s) h = ground (arith, replace_char-mac s)

has_control-mac : (s : Text) → all mac_char s ≡ true → has_control s ≡ false
has_control-mac [] h = refl
has_control-mac (c ∷ s) h = ground (arith, has_control-mac s)

-- What a canonical address is: six lower-case octets joined by colons, the first neither the
-- broadcast octet nor one with the multicast bit.
pub record IsAddress (a : Text) : Type 0 where
  pub groups : mac_groups 5 a ≡ true
  pub unicast : (first_octet a == 0xff) ≡ false
  pub individual : (bit_and (first_octet a) 0x01 == 0) ≡ true

pub normalize_address-IsAddress :
    (address a : Text) → normalize_address address ≡ some a → IsAddress a
unfolding normalize_address
normalize_address-IsAddress address a h = ground arith

pub normalize_address-of_IsAddress : (a : Text) → IsAddress a → normalize_address a ≡ some a
normalize_address-of_IsAddress a v =
    let chars = mac_groups-chars 5 a v.groups in
    accept a v (strip-mac a chars) (lower-mac a chars) (replace_char-mac a chars)
      (has_control-mac a chars) (mac_groups-length 5 a v.groups)
  where
    accept :
        (a : Text)
        → IsAddress a
        → strip a ≡ a
        → lower a ≡ a
        → replace_char b'-' b':' a ≡ a
        → has_control a ≡ false
        → length a ≡ 17
        → normalize_address a ≡ some a
    accept a v s l r c n =
        unfold normalize_address in rw (s, l, r, c, n, v.groups, v.unicast, v.individual)

-- The address that comes out of an accepted string is canonical (six lower-case octets, neither
-- broadcast nor multicast) and 17 characters long, and a second call returns it unchanged.
pub normalize_address-canonical :
    (address a : Text)
    → normalize_address address ≡ some a
    → IsAddress a × (normalize_address a ≡ some a) × (length a ≡ 17)
normalize_address-canonical address a h =
    let v = normalize_address-IsAddress address a h in
    (v, normalize_address-of_IsAddress a v, mac_groups-length 5 a v.groups)

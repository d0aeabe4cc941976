-- ===== src/Media/Url/Laws.antt =====
-- What a URL that is let through looks like (backend/bl_haos/health.py: validate_media_url).
use bl_haos_bridge.Prelude.{
  ℕ, ◌≤◌, ◌≡◌, refl, ap, subst, ◌∙◌, arith, ◌⊎◌, inl, inr, if_neg, Bool, true, false, not, ◌&&◌,
  ◌||◌, [], ◌∷◌, ◌++◌, length, ltb, ◌==◌, if◌then◌else◌, none, some, Bool-cases, Option-cases,
}
use bl_haos_bridge.Dict.{Text, Text-discrete}
use bl_haos_bridge.Text.{codes, text_eq, to_lower, lower, starts_with}
use bl_haos_bridge.Media.Parts.{partition}
use bl_haos_bridge.Media.Host.{media_host_is_blocked}
use bl_haos_bridge.Media.Url.{
  skip_space, scheme_of, after_scheme, until_path, is_scheme, netloc_of, names_user, hostname,
  hostinfo, is_http, validate_media_url,
}

partition-some : (sep : ℕ) (s a b : Text) → partition sep s ≡ some (a, b) → s ≡ a ++ sep ∷ b
unfolding partition
partition-some sep [] a b h = cc
partition-some sep (c ∷ s) a b h = elim (Option-cases (partition sep s)) [
  | inl e ↦ ground arith
  | inr (p, e) ↦ ground (arith, partition-some sep s p.0 p.1 e)
]

text_eq-eq : (a b : Text) → text_eq a b ≡ true → a ≡ b
text_eq-eq a b h = elim (Text-discrete a b) [
  | yes e ↦ e
  | no n ↦ let f = if_neg (Text-discrete a b) n true false in cc
]

lower-append : (a b : Text) → lower (a ++ b) ≡ lower a ++ lower b
unfolding lower
lower-append [] b = refl
lower-append (c ∷ a) b = rw (lower-append a b) refl

slashes :
    (b : Bool) (s : Text)
    → (length (hostname (if b then until_path s else [])) == 0) ≡ false
    → b ≡ true
unfolding hostname hostinfo lower
slashes true s h = refl
slashes false s h = ground arith

-- A host is read only behind two slashes.
host-slashes :
    (s : Text)
    → (length (hostname (netloc_of s)) == 0) ≡ false
    → starts_with (codes "//") (lower s) ≡ true
unfolding hostname hostinfo lower to_lower starts_with
host-slashes [] h = ground arith
host-slashes (c ∷ []) h = ground arith
host-slashes (c ∷ d ∷ s) h = let e = slashes (c == b'/' && d == b'/') s h in ground (arith, e)

-- What holds when none of some tests does.
second_of : (a b c d e : Bool) → (a || b || c || d || e) ≡ false → b ≡ false
second_of a b c d e h = ground arith

all_three : (a b c : Bool) → (a || b || c) ≡ false → (a ≡ false) × (b ≡ false) × (c ≡ false)
all_three a b c h = ground arith

short_enough : (n : ℕ) → ltb 2048 n ≡ false → n ≤ 2048
short_enough n h = ground arith

is-true : (b : Bool) → not b ≡ false → b ≡ true
is-true true h = refl
is-true false h = cc

-- The result of four refusals in turn.
passed :
    (a b c d : Bool) (url u : Text)
    → (if a then none else if b then none else if c then none else if d then none else some url)
      ≡ some u
    → (u ≡ url) × (a ≡ false) × (b ≡ false) × (c ≡ false)
passed a b c d url u h = ground arith

validated :
    (normal : Text → Bool) (url u : Text)
    → validate_media_url normal url ≡ some u
    → (u ≡ url)
      × (length url ≤ 2048)
      × (is_http (scheme_of url).0 ≡ true)
      × ((length (hostname (netloc_of (scheme_of url).1)) == 0) ≡ false)
      × (names_user (netloc_of (scheme_of url).1) ≡ false)
      × (media_host_is_blocked (hostname (netloc_of (scheme_of url).1)) ≡ false)
unfolding validate_media_url
validated normal url u h =
    let (same, first, second, host) = passed _ _ _ _ url u h in
    let short = second_of _ _ _ _ _ first in
    let (scheme, named, user) = all_three _ _ _ second in
    (same, short_enough _ short, is-true _ scheme, named, user, host)

is_http-cases :
    (scheme : Text) → is_http scheme ≡ true → (scheme ≡ codes "http") ⊎ (scheme ≡ codes "https")
is_http-cases scheme h = elim (Bool-cases (text_eq scheme (codes "http"))) [
  | inl e ↦ inl (text_eq-eq scheme (codes "http") e)
  | inr e ↦ inr (text_eq-eq scheme (codes "https") (ground arith))
]

-- The text before the first colon and the slashes behind it.
url_start :
    (s before behind : Text)
    → s ≡ before ++ b':' ∷ behind
    → is_http (lower before) ≡ true
    → starts_with (codes "//") (lower behind) ≡ true
    → (starts_with (codes "http://") (lower s) || starts_with (codes "https://") (lower s)) ≡ true
unfolding lower to_lower starts_with
url_start s before behind e h v =
    let start : lower s ≡ lower before ++ b':' ∷ lower behind =
      ap lower e ∙ lower-append before (b':' ∷ behind) in
    rw start (elim (is_http-cases (lower before) h) [
      | inl f ↦ rw f (ground arith)
      | inr f ↦ rw f (ground arith)
    ])

no_scheme : is_http [] ≡ true → ⊥
unfolding Text-discrete
no_scheme h = cc

with_scheme :
    (before behind s : Text)
    → partition b':' s ≡ some (before, behind)
    → is_scheme before ≡ true
    → after_scheme s (partition b':' s) ≡ (lower before, behind)
with_scheme before behind s e f = rw e (rw f refl)

without_scheme :
    (before behind s : Text)
    → partition b':' s ≡ some (before, behind)
    → is_scheme before ≡ false
    → after_scheme s (partition b':' s) ≡ ([], s)
without_scheme before behind s e f = rw e (rw f refl)

by_parts :
    (before behind s : Text)
    → partition b':' s ≡ some (before, behind)
    → (is_scheme before ≡ true) ⊎ (is_scheme before ≡ false)
    → is_http (after_scheme s (partition b':' s)).0 ≡ true
    → (length (hostname (netloc_of (after_scheme s (partition b':' s)).1)) == 0) ≡ false
    → (starts_with (codes "http://") (lower s) || starts_with (codes "https://") (lower s)) ≡ true
by_parts before behind s e (inl f) http named =
    url_start s before behind (partition-some b':' s before behind e)
      (subst (λ r. is_http r.0 ≡ true) (with_scheme before behind s e f) http)
      (host-slashes behind (
        subst (λ r. (length (hostname (netloc_of r.1)) == 0) ≡ false)
          (with_scheme before behind s e f) named))
by_parts before behind s e (inr f) http named =
    absurd (no_scheme (subst (λ r. is_http r.0 ≡ true) (without_scheme before behind s e f) http))

-- A URL that `validate_media_url` accepts is returned as it is, has at most 2048 characters,
-- starts with `http://` or `https://` in any case behind spaces, names no user or password, and
-- its host is not blocked.
pub validate_media_url_safe :
    (normal : Text → Bool) (url u : Text)
    → validate_media_url normal url ≡ some u
    → (u ≡ url)
      × (length url ≤ 2048)
      × ((starts_with (codes "http://") (lower (skip_space url))
            || starts_with (codes "https://") (lower (skip_space url)))
          ≡ true)
      × (names_user (netloc_of (scheme_of url).1) ≡ false)
      × (media_host_is_blocked (hostname (netloc_of (scheme_of url).1)) ≡ false)
unfolding scheme_of
validate_media_url_safe normal url u h =
    let (same, short, http, named, user, host) = validated normal url u h in
    (same, short, start (skip_space url) http named, user, host)
  where
    start :
        (s : Text)
        → is_http (after_scheme s (partition b':' s)).0 ≡ true
        → ((length (hostname (netloc_of (after_scheme s (partition b':' s)).1)) == 0) ≡ false)
        → (starts_with (codes "http://") (lower s) || starts_with (codes "https://") (lower s))
          ≡ true
    start s http named = elim (Option-cases (partition b':' s)) [
      | inl e ↦ ground arith
      | inr (p, e) ↦ by_parts p.0 p.1 s e (Bool-cases (is_scheme p.0)) http named
    ]

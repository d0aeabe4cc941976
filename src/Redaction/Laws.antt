-- ===== src/Redaction/Laws.antt =====
-- What redaction guarantees.
use bl_haos_bridge.Prelude.{
  ℕ, zero, suc, ◌-◌, ◌≡◌, refl, ap, true, false, not, ◌⊎◌, [], ◌∷◌, ◌++◌, ◌==◌, take, none, some,
  arith, Bool-cases, inl, inr,
}
use bl_haos_bridge.Dict.{Text}
use bl_haos_bridge.Text.{codes, is_space, contains, starts_with}
use bl_haos_bridge.Redaction.{
  Matcher, sub_from, run_length, url_redaction_placeholder, url_match, is_url, url_rest, url_tail,
  solid_head, is_letter, fold_case, redact_urls, redact_str, redact_secrets, safe_text,
  max_detail_length,
}

-- No URL starts anywhere in the text.
abbrev pub HasNoUrl : Text → Type 0
HasNoUrl [] = Unit
HasNoUrl (c ∷ s) = (is_url (c ∷ s) ≡ false) × HasNoUrl s

letter_is_solid : (c : ℕ) → is_letter c ≡ true → is_space c ≡ false
unfolding is_letter fold_case is_space
letter_is_solid c h = ground arith

-- One step of a scan: a match is replaced, another character kept.
sub_from-match :
    (m : Matcher) (c : ℕ) (s new : Text) (n : ℕ)
    → m (c ∷ s) ≡ some (new, n)
    → sub_from m 0 (c ∷ s) ≡ new ++ sub_from m (n - 1) s
unfolding sub_from
sub_from-match m c s new n h = rw (h, sub_from) refl

sub_from-no_match :
    (m : Matcher) (c : ℕ) (s : Text) → m (c ∷ s) ≡ none → sub_from m 0 (c ∷ s) ≡ c ∷ sub_from m 0 s
unfolding sub_from
sub_from-no_match m c s h = rw (h, sub_from) refl

abbrev scan : ℕ → Text → Text
scan = sub_from url_match

abbrev url_length : Text → ℕ
url_length = run_length (λ c. not (is_space c))

abbrev hidden : Text → ℕ → Text
hidden s n = url_redaction_placeholder ++ scan n s

-- The two cases of a step for the URL pattern.
scan-cases :
    (c : ℕ) (s : Text)
    → ((is_url (c ∷ s) ≡ true) × ((n : ℕ) × (scan 0 (c ∷ s) ≡ hidden s n)))
      ⊎ ((is_url (c ∷ s) ≡ false) × (scan 0 (c ∷ s) ≡ c ∷ scan 0 s))
scan-cases c s = elim (Bool-cases (is_url (c ∷ s))) [
  | inl hit ↦ inl (
    hit,
    (
      url_length (c ∷ s) - 1,
      sub_from-match url_match c s url_redaction_placeholder (url_length (c ∷ s))
          (unfold url_match in rw hit refl),
    ),
  )
  | inr miss ↦ inr (miss, sub_from-no_match url_match c s (unfold url_match in rw miss refl))
]

-- The scan keeps whether the text starts with a character that is no blank, and whether `://` and
-- such a character come next.
solid_head-scan : (s : Text) → solid_head (scan 0 s) ≡ solid_head s
unfolding solid_head is_url
solid_head-scan [] = unfold sub_from in refl
solid_head-scan (c ∷ s) = elim (scan-cases c s) [
  | inl (hit, (n, e)) ↦ rw e (ground (arith, letter_is_solid c, space_bracket))
  | inr (miss, e) ↦ rw e refl
]
  where
    space_bracket : is_space b'[' ≡ false
    space_bracket = unfold is_space in refl

url_tail-scan : (s : Text) → url_tail (scan 0 s) ≡ true → url_tail s ≡ true
unfolding url_tail
url_tail-scan [] h = unfold sub_from in h
url_tail-scan (a ∷ s) h = elim (scan-cases a s) [
  | inl (hit, (n, e)) ↦ ground (arith, ap url_tail e)
  | inr (miss, e) ↦ second a s (rw e at h)
]
  where
    third : (a b : ℕ) (s : Text) → url_tail (a ∷ b ∷ scan 0 s) ≡ true → url_tail (a ∷ b ∷ s) ≡ true
    third a b [] h = unfold sub_from in h
    third a b (c ∷ s) h = elim (scan-cases c s) [
      | inl (hit, (n, e)) ↦ ground (arith, ap (λ t. url_tail (a ∷ b ∷ t)) e)
      | inr (miss, e) ↦ ground (arith, ap (λ t. url_tail (a ∷ b ∷ t)) e, solid_head-scan s)
    ]

    second : (a : ℕ) (s : Text) → url_tail (a ∷ scan 0 s) ≡ true → url_tail (a ∷ s) ≡ true
    second a [] h = unfold sub_from in h
    second a (b ∷ s) h = elim (scan-cases b s) [
      | inl (hit, (n, e)) ↦ ground (arith, ap (λ t. url_tail (a ∷ t)) e)
      | inr (miss, e) ↦ third a b s (rw e at h)
    ]

url_rest-scan : (s : Text) → url_rest (scan 0 s) ≡ true → url_rest s ≡ true
unfolding url_rest is_url
url_rest-scan [] h = unfold sub_from in h
url_rest-scan (c ∷ s) h = elim (scan-cases c s) [
  | inl (hit, (n, e)) ↦ ground (arith, ap url_rest e, bracket)
  | inr (miss, e) ↦ ground (arith, ap url_rest e, url_rest-scan s, url_tail-scan (c ∷ s))
]
  where
    bracket : is_letter b'[' ≡ false
    bracket = unfold is_letter fold_case in refl

url_tail-no_colon : (a : ℕ) (s : Text) → (a == b':') ≡ false → url_tail (a ∷ s) ≡ false
unfolding url_tail
url_tail-no_colon a [] h = refl
url_tail-no_colon a (b ∷ []) h = refl
url_tail-no_colon a (b ∷ c ∷ s) h = ground arith

HasNoUrl-hidden : (s : Text) → HasNoUrl s → HasNoUrl (url_redaction_placeholder ++ s)
unfolding is_url url_rest is_letter fold_case
HasNoUrl-hidden s h =
    ground (arith, url_tail-no_colon b']' s, url_tail-no_colon b' ' (codes "redacted]" ++ s))

is_url-scan : (c : ℕ) (s : Text) → is_url (c ∷ s) ≡ false → is_url (c ∷ scan 0 s) ≡ false
unfolding is_url
is_url-scan c s h = ground (arith, url_rest-scan s)

scan-nil : (n : ℕ) → scan n [] ≡ []
unfolding sub_from
scan-nil n = refl

scan-skip : (n c : ℕ) (s : Text) → scan (suc n) (c ∷ s) ≡ scan n s
unfolding sub_from
scan-skip n c s = refl

scan-HasNoUrl : (n : ℕ) (s : Text) → HasNoUrl (scan n s)
scan-HasNoUrl n [] = rw (scan-nil n) tt
scan-HasNoUrl (suc n) (c ∷ s) = rw (scan-skip n c s) (scan-HasNoUrl n s)
scan-HasNoUrl zero (c ∷ s) = step (scan-HasNoUrl 0 s) (λ n. scan-HasNoUrl n s)
  where
    step : HasNoUrl (scan 0 s) → ((n : ℕ) → HasNoUrl (scan n s)) → HasNoUrl (scan 0 (c ∷ s))
    step kept dropped = elim (scan-cases c s) [
      | inl (hit, (n, e)) ↦ rw e (HasNoUrl-hidden (scan n s) (dropped n))
      | inr (miss, e) ↦ rw e (is_url-scan c s miss, kept)
    ]

url_tail-marker : (s : Text) → url_tail s ≡ true → starts_with (codes "://") s ≡ true
unfolding url_tail starts_with
url_tail-marker (a ∷ b ∷ c ∷ s) h = ground arith
url_tail-marker _ h = cc

url_rest-marker : (s : Text) → url_rest s ≡ true → contains (codes "://") s ≡ true
unfolding url_rest contains
url_rest-marker [] h = cc
url_rest-marker (c ∷ s) h = ground (arith, url_rest-marker s, url_tail-marker (c ∷ s))

-- A text without `://` holds no URL.
pub no_marker-HasNoUrl : (s : Text) → contains (codes "://") s ≡ false → HasNoUrl s
unfolding contains is_url
no_marker-HasNoUrl [] h = tt
no_marker-HasNoUrl (c ∷ s) h = ground (arith, url_rest-marker s, no_marker-HasNoUrl s)

-- A URL in a prefix is one in the text.
url_tail-take : (n : ℕ) (s : Text) → url_tail (take n s) ≡ true → url_tail s ≡ true
unfolding url_tail solid_head
url_tail-take (suc (suc (suc (suc n)))) (a ∷ b ∷ c ∷ d ∷ s) h = h
url_tail-take zero s h = cc
url_tail-take (suc zero) [] h = cc
url_tail-take (suc zero) (a ∷ s) h = cc
url_tail-take _ _ h = ground arith

url_rest-take : (n : ℕ) (s : Text) → url_rest (take n s) ≡ true → url_rest s ≡ true
unfolding url_rest
url_rest-take zero s h = cc
url_rest-take (suc n) [] h = cc
url_rest-take (suc n) (c ∷ s) h = ground (arith, url_rest-take n s, url_tail-take (suc n) (c ∷ s))

pub take-HasNoUrl : (n : ℕ) (s : Text) → HasNoUrl s → HasNoUrl (take n s)
unfolding is_url
take-HasNoUrl zero s h = tt
take-HasNoUrl (suc n) [] h = tt
take-HasNoUrl (suc n) (c ∷ s) h = ground (arith, url_rest-take n s, take-HasNoUrl n s h.1)

pub redact_str-HasNoUrl : (t : Text) → HasNoUrl (redact_str t)
redact_str-HasNoUrl t = elim (Bool-cases (contains (codes "://") t)) [
  | inl marked ↦ unfold redact_str in rw marked (unfold redact_urls in scan-HasNoUrl 0 t)
  | inr plain ↦ unfold redact_str in rw plain (no_marker-HasNoUrl t plain)
]

-- Whatever the detail, no URL starts anywhere in the text that `safe_detail` returns.
pub safe_text-HasNoUrl : (detail : Text) → HasNoUrl (safe_text detail)
safe_text-HasNoUrl detail =
    unfold safe_text in
    take-HasNoUrl max_detail_length (redact_str (redact_secrets _))
      (redact_str-HasNoUrl (redact_secrets _))

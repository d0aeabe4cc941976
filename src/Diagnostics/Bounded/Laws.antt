-- ===== src/Diagnostics/Bounded/Laws.antt =====
-- What a bounded copy holds (backend/bl_haos/diagnostics.py: _bounded).
use bl_haos_bridge.Prelude.{
  ℕ, zero, suc, ◌+◌, ◌≤◌, ◌≡◌, refl, arith, Bool, true, false, length, length-take-le, ltb,
  if◌then◌else◌,
}
use bl_haos_bridge.Dict.{Text}
use bl_haos_bridge.Text.{contains, starts_with}
use bl_haos_bridge.Redaction.{redact_str, redact_secrets, safe_text}
use bl_haos_bridge.Redaction.Laws.{
  HasNoUrl, no_marker-HasNoUrl, take-HasNoUrl, redact_str-HasNoUrl, safe_text-HasNoUrl,
}
use bl_haos_bridge.Json.{
  Value, null, flag, number, text, object, items, mapping, Values, no_values, value, Entries,
  no_entries, entry,
}
use bl_haos_bridge.Diagnostics.Bounded.{
  is_withheld, text_le, insert_entry, sort_entries, take_entries, take_items, limited, bounded_in,
  bounded_items, bounded_entries, bounded, omitted_placeholder,
}

pub count_items : Values → ℕ
count_items no_values = 0
count_items (value v vs) = suc (count_items vs)

pub count_entries : Entries → ℕ
count_entries no_entries = 0
count_entries (entry k v es) = suc (count_entries es)

-- What support may read, with `levels` levels of collections: strings are short and hold no URL,
-- collections are small, and no key is one of those that are withheld.
unfoldable mutual
  unfolding count_items count_entries

  pub IsSafe : ℕ → Value → Type 0
  IsSafe levels null = Unit
  IsSafe levels (flag b) = Unit
  IsSafe levels (number n) = Unit
  IsSafe levels (text t) = (length t ≤ 256) × HasNoUrl t
  IsSafe levels (object t) = ⊥
  IsSafe zero (items vs) = ⊥
  IsSafe (suc levels) (items vs) = (count_items vs ≤ 100) × AreSafe levels vs
  IsSafe zero (mapping es) = ⊥
  IsSafe (suc levels) (mapping es) = (count_entries es ≤ 100) × EntriesAreSafe levels es

  pub AreSafe : ℕ → Values → Type 0
  AreSafe levels no_values = Unit
  AreSafe levels (value v vs) = IsSafe levels v × AreSafe levels vs

  pub EntriesAreSafe : ℕ → Entries → Type 0
  EntriesAreSafe levels no_entries = Unit
  EntriesAreSafe levels (entry k v es) =
      (is_withheld k ≡ false) × IsSafe levels v × EntriesAreSafe levels es

count_items-take : (n : ℕ) (vs : Values) → count_items (take_items n vs) ≤ n
unfolding count_items take_items
count_items-take zero vs = omega arith
count_items-take (suc n) no_values = omega arith
count_items-take (suc n) (value v vs) = omega (arith, count_items-take n vs)

count_entries-take : (n : ℕ) (es : Entries) → count_entries (take_entries n es) ≤ n
unfolding count_entries take_entries
count_entries-take zero es = omega arith
count_entries-take (suc n) no_entries = omega arith
count_entries-take (suc n) (entry k v es) = omega (arith, count_entries-take n es)

take-AreSafe : (n levels : ℕ) (vs : Values) → AreSafe levels vs → AreSafe levels (take_items n vs)
unfolding IsSafe take_items
take-AreSafe zero levels vs h = tt
take-AreSafe (suc n) levels no_values h = tt
take-AreSafe (suc n) levels (value v vs) h = (h.0, take-AreSafe n levels vs h.1)

take-EntriesAreSafe :
    (n levels : ℕ) (es : Entries)
    → EntriesAreSafe levels es
    → EntriesAreSafe levels (take_entries n es)
unfolding IsSafe take_entries
take-EntriesAreSafe zero levels es h = tt
take-EntriesAreSafe (suc n) levels no_entries h = tt
take-EntriesAreSafe (suc n) levels (entry k v es) (clean, safe, rest) =
    (clean, safe, take-EntriesAreSafe n levels es rest)

if-EntriesAreSafe :
    (b : Bool) (levels : ℕ) (es fs : Entries)
    → EntriesAreSafe levels es
    → EntriesAreSafe levels fs
    → EntriesAreSafe levels (if b then es else fs)
if-EntriesAreSafe true levels es fs h g = h
if-EntriesAreSafe false levels es fs h g = g

insert-EntriesAreSafe :
    (levels : ℕ) (k : Text) (v : Value) (es : Entries)
    → is_withheld k ≡ false
    → IsSafe levels v
    → EntriesAreSafe levels es
    → EntriesAreSafe levels (insert_entry k v es)
unfolding IsSafe insert_entry
insert-EntriesAreSafe levels k v no_entries c s h = (c, s, tt)
insert-EntriesAreSafe levels k v (entry j w es) c s (clean, safe, rest) =
    if-EntriesAreSafe (text_le k j) levels (entry k v (entry j w es))
      (entry j w (insert_entry k v es)) (c, s, (clean, safe, rest))
      (clean, safe, insert-EntriesAreSafe levels k v es c s rest)

sort-EntriesAreSafe :
    (levels : ℕ) (es : Entries) → EntriesAreSafe levels es → EntriesAreSafe levels (sort_entries es)
unfolding IsSafe sort_entries
sort-EntriesAreSafe levels no_entries h = tt
sort-EntriesAreSafe levels (entry k v es) (clean, safe, rest) =
    insert-EntriesAreSafe levels k v (sort_entries es) clean safe
      (sort-EntriesAreSafe levels es rest)

pub placeholder-IsSafe : (levels : ℕ) → IsSafe levels (text omitted_placeholder)
unfolding IsSafe contains starts_with
placeholder-IsSafe levels = (omega arith, no_marker-HasNoUrl omitted_placeholder refl)

safe_text-length : (t : Text) → length (safe_text t) ≤ 256
unfolding safe_text
safe_text-length t = length-take-le 256 (redact_str (redact_secrets _))

-- A value is looked at only above the limit; below it the placeholder stands.
limited-IsSafe :
    (depth levels : ℕ) (v : Value)
    → (ltb 4 depth ≡ false → IsSafe levels v)
    → IsSafe levels (limited depth v)
limited-IsSafe depth levels v safe = go (ltb 4 depth) safe
  where
    go :
        (b : Bool)
        → (b ≡ false → IsSafe levels v)
        → IsSafe levels (if b then text omitted_placeholder else v)
    go true safe = placeholder-IsSafe levels
    go false safe = safe refl

too_deep : (depth : ℕ) → depth + 0 ≡ 5 → ltb 4 depth ≡ false → ⊥
too_deep depth h e = ground arith

kept-EntriesAreSafe :
    (b : Bool) (levels : ℕ) (k : Text) (v : Value) (es : Entries)
    → is_withheld k ≡ b
    → IsSafe levels v
    → EntriesAreSafe levels es
    → EntriesAreSafe levels (if b then es else entry k v es)
unfolding IsSafe
kept-EntriesAreSafe true levels k v es e safe rest = rest
kept-EntriesAreSafe false levels k v es e safe rest = (e, safe, rest)

mutual
  unfolding IsSafe bounded_in

  bounded_in-IsSafe :
      (v : Value) (depth levels : ℕ)
      → depth + suc levels ≡ 5
      → IsSafe (suc levels) (bounded_in depth v)
  bounded_in-IsSafe null depth levels h = tt
  bounded_in-IsSafe (flag b) depth levels h = tt
  bounded_in-IsSafe (number n) depth levels h = tt
  bounded_in-IsSafe (text t) depth levels h =
      (length-take-le 256 (redact_str t), take-HasNoUrl 256 (redact_str t) (redact_str-HasNoUrl t))
  bounded_in-IsSafe (object t) depth levels h = (safe_text-length t, safe_text-HasNoUrl t)
  bounded_in-IsSafe (items vs) depth levels h = (
    count_items-take 100 (bounded_items (suc depth) vs),
    take-AreSafe 100 levels (bounded_items (suc depth) vs)
        (bounded_items-AreSafe vs (suc depth) levels (omega arith)),
  )
  bounded_in-IsSafe (mapping es) depth levels h =
      let kept = bounded_entries (suc depth) es in
      (
        count_entries-take 100 (sort_entries kept),
        take-EntriesAreSafe 100 levels (sort_entries kept) (
            sort-EntriesAreSafe levels kept
              (bounded_entries-EntriesAreSafe es (suc depth) levels (omega arith))),
      )

  bounded_items-AreSafe :
      (vs : Values) (depth levels : ℕ)
      → depth + levels ≡ 5
      → AreSafe levels (bounded_items depth vs)
  bounded_items-AreSafe no_values depth levels h = tt
  bounded_items-AreSafe (value v vs) depth zero h = (
    limited-IsSafe depth zero (bounded_in depth v) (λ e. absurd (too_deep depth h e)),
    bounded_items-AreSafe vs depth zero h,
  )
  bounded_items-AreSafe (value v vs) depth (suc levels) h = (
    limited-IsSafe depth (suc levels) (bounded_in depth v)
        (λ _. bounded_in-IsSafe v depth levels h),
    bounded_items-AreSafe vs depth (suc levels) h,
  )

  bounded_entries-EntriesAreSafe :
      (es : Entries) (depth levels : ℕ)
      → depth + levels ≡ 5
      → EntriesAreSafe levels (bounded_entries depth es)
  bounded_entries-EntriesAreSafe no_entries depth levels h = tt
  bounded_entries-EntriesAreSafe (entry k v es) depth zero h =
      kept-EntriesAreSafe (is_withheld k) zero k (limited depth (bounded_in depth v))
        (bounded_entries depth es) refl
        (limited-IsSafe depth zero (bounded_in depth v) (λ e. absurd (too_deep depth h e)))
        (bounded_entries-EntriesAreSafe es depth zero h)
  bounded_entries-EntriesAreSafe (entry k v es) depth (suc levels) h =
      kept-EntriesAreSafe (is_withheld k) (suc levels) k (limited depth (bounded_in depth v))
        (bounded_entries depth es) refl
        (limited-IsSafe depth (suc levels) (bounded_in depth v)
          (λ _. bounded_in-IsSafe v depth levels h))
        (bounded_entries-EntriesAreSafe es depth (suc levels) h)

-- The bounded copy of any value has at most five levels of collections, none with over 100
-- items, every string that stands in it as a value has at most 256 characters and holds no URL,
-- and no key at any depth is one of those that are withheld.
pub bounded-IsSafe : (v : Value) → IsSafe 5 (bounded 0 v)
unfolding bounded
bounded-IsSafe v = bounded_in-IsSafe v 0 4 (omega arith)

-- ===== src/Diagnostics/Events.antt =====
-- The ring of recent events and the order of failures (backend/bl_haos/diagnostics.py).
use bl_haos_bridge.Prelude.{
  ℕ, zero, suc, ◌+◌, ◌-◌, ◌≤◌, ◌≡◌, refl, sym, ap, ◌∙◌, inl, inr, arith, List, [], ◌∷◌, ◌++◌, map,
  All, All-take, take, drop, length, length-append, length-take-le, leb, Option, none, some,
  Bool-cases,
}
use mathlib.Core.List.{append_assoc, append-nil}
use bl_haos_bridge.Dict.{Text}
use bl_haos_bridge.Health.{Time}
use bl_haos_bridge.Health.Model.{HealthSnapshot}
use bl_haos_bridge.Diagnostics.{
  DiagnosticsEvent, Report, event_of, within_size, keep_last, record_event, FailureRecord,
  component_failures, speaker_failures, insert_newest, sort_newest, failure_records, first_of,
  max_events,
}

-- One call of `record_event`: the time, the fresh identifier and the arguments.
abbrev pub Call : Type 0
Call = Time × Text × Report

pub recorded : (DiagnosticsEvent → ℕ) → List Call → List DiagnosticsEvent → List DiagnosticsEvent
recorded size [] events = events
recorded size ((now, fresh, r) ∷ calls) events =
    recorded size calls (record_event size now fresh r events).0

-- What each call reports.
abbrev pub reported : (DiagnosticsEvent → ℕ) → List Call → List DiagnosticsEvent
reported size = map (λ (c : Call). within_size size (event_of c.0 c.1 c.2))

module _ {ℓ} {A : Type ℓ} where
  drop-append : (n : ℕ) (xs ys : List A) → n ≤ length xs → drop n (xs ++ ys) ≡ drop n xs ++ ys
  drop-append zero xs ys h = refl
  drop-append (suc n) [] ys h = absurd (omega arith)
  drop-append (suc n) (x ∷ xs) ys h = drop-append n xs ys (omega arith)

  drop-nil : (n : ℕ) → drop {A = A} n [] ≡ []
  drop-nil zero = refl
  drop-nil (suc n) = refl

  drop-drop : (m n : ℕ) (xs : List A) → drop m (drop n xs) ≡ drop (n + m) xs
  drop-drop m zero xs = let e : m ≡ 0 + m = omega arith in ap (λ k. drop k xs) e
  drop-drop m (suc n) [] = drop-nil m ∙ sym (drop-nil (suc n + m))
  drop-drop m (suc n) (x ∷ xs) =
      let e : suc (n + m) ≡ suc n + m = omega arith in
      drop-drop m n xs ∙ ap (λ k. drop k (x ∷ xs)) e

  length-drop : (n : ℕ) (xs : List A) → length (drop n xs) ≡ length xs - n
  length-drop zero xs = omega arith
  length-drop (suc n) [] = omega arith
  length-drop (suc n) (x ∷ xs) = omega (arith, length-drop n xs)

  keep_last-again :
      (n : ℕ) (xs ys : List A) → keep_last n (keep_last n xs ++ ys) ≡ keep_last n (xs ++ ys)
  keep_last-again n xs ys =
      let k = length xs - n in
      let behind = drop-append k xs ys (omega arith) in
      let kept = length-append (drop k xs) ys in
      let cut = length-drop k xs in
      let whole = length-append xs ys in
      rw (← behind) (
        drop-drop (length (drop k (xs ++ ys)) - n) k (xs ++ ys)
        ∙ ap (λ j. drop j (xs ++ ys)) (omega (arith, ap length behind)))

-- A ring that drops at each step is the end of the whole list.
pub recorded-keep_last :
    (size : DiagnosticsEvent → ℕ) (calls : List Call) (before : List DiagnosticsEvent)
    → recorded size calls (keep_last max_events before)
      ≡ keep_last max_events (before ++ reported size calls)
unfolding recorded record_event
recorded-keep_last size [] before = simp append-nil
recorded-keep_last size ((now, fresh, r) ∷ calls) before =
    let e = within_size size (event_of now fresh r) in
    rw (keep_last-again max_events before (e ∷ [])) (
      recorded-keep_last size calls (before ++ e ∷ [])
      ∙ ap (keep_last max_events) (append_assoc before (e ∷ []) (reported size calls)))

-- The later failure first.
abbrev pub IsNewestFirst : List FailureRecord → Type 0
IsNewestFirst [] = Unit
IsNewestFirst (f ∷ fs) = All (λ g. g.observed_at ≤ f.observed_at) fs × IsNewestFirst fs

insert_newest-All {κ} :
    (P : FailureRecord → Type κ) (f : FailureRecord) (fs : List FailureRecord)
    → P f
    → All P fs
    → All P (insert_newest f fs)
unfolding insert_newest
insert_newest-All P f [] p h = (p, tt)
insert_newest-All P f (g ∷ fs) p h = ground (arith, insert_newest-All P f fs p h.1)

All-le :
    (m n : ℕ) (fs : List FailureRecord)
    → m ≤ n
    → All (λ g. g.observed_at ≤ m) fs
    → All (λ g. g.observed_at ≤ n) fs
All-le m n [] h v = tt
All-le m n (f ∷ fs) h v = (omega arith, All-le m n fs h v.1)

insert_newest-IsNewestFirst :
    (f : FailureRecord) (fs : List FailureRecord)
    → IsNewestFirst fs
    → IsNewestFirst (insert_newest f fs)
unfolding insert_newest
insert_newest-IsNewestFirst f [] v = (tt, tt)
insert_newest-IsNewestFirst f (g ∷ fs) (newer, rest) =
    elim (Bool-cases (leb g.observed_at f.observed_at)) [
      | inl e ↦ rw e (
        (ground arith, All-le g.observed_at f.observed_at fs (ground arith) newer),
        (newer, rest),
      )
      | inr e ↦ rw e (
        insert_newest-All (λ h. h.observed_at ≤ g.observed_at) f fs (ground arith) newer,
        insert_newest-IsNewestFirst f fs rest,
      )
    ]

sort_newest-IsNewestFirst : (fs : List FailureRecord) → IsNewestFirst (sort_newest fs)
unfolding sort_newest
sort_newest-IsNewestFirst [] = tt
sort_newest-IsNewestFirst (f ∷ fs) =
    insert_newest-IsNewestFirst f (sort_newest fs) (sort_newest-IsNewestFirst fs)

take-IsNewestFirst :
    (n : ℕ) (fs : List FailureRecord) → IsNewestFirst fs → IsNewestFirst (take n fs)
take-IsNewestFirst zero fs v = tt
take-IsNewestFirst (suc n) [] v = tt
take-IsNewestFirst (suc n) (f ∷ fs) v =
    (All-take (λ g. g.observed_at ≤ f.observed_at) n fs v.0, take-IsNewestFirst n fs v.1)

uninserted-All {κ} :
    (P : FailureRecord → Type κ) (f : FailureRecord) (fs : List FailureRecord)
    → All P (insert_newest f fs)
    → P f × All P fs
unfolding insert_newest
uninserted-All P f [] h = h
uninserted-All P f (g ∷ fs) h = ground (arith, uninserted-All P f fs)

-- What holds of the sorted list holds of the list.
unsorted-All {κ} :
    (P : FailureRecord → Type κ) (fs : List FailureRecord) → All P (sort_newest fs) → All P fs
unfolding sort_newest
unsorted-All P [] h = tt
unsorted-All P (f ∷ fs) h =
    let (p, rest) = uninserted-All P f (sort_newest fs) h in (p, unsorted-All P fs rest)

All-none : (fs : List FailureRecord) → All (λ f. ⊥) fs → fs ≡ []
All-none [] h = refl
All-none (f ∷ fs) h = absurd h.0

-- The newest of some failures, if there is one.
abbrev pub IsNewest : Option FailureRecord → List FailureRecord → Type 0
IsNewest none fs = fs ≡ []
IsNewest (some f) fs = All (λ g. g.observed_at ≤ f.observed_at) fs

sorted-IsNewest :
    (fs gs : List FailureRecord)
    → sort_newest fs ≡ gs
    → IsNewestFirst gs
    → IsNewest (first_of (take 100 gs)) fs
sorted-IsNewest fs [] e v = All-none fs (unsorted-All (λ f. ⊥) fs (rw e tt))
sorted-IsNewest fs (g ∷ gs) e v =
    unsorted-All (λ f. f.observed_at ≤ g.observed_at) fs (rw e (omega arith, v.0))

-- The failures of a snapshot are listed with the newest first and are at most 100, and the
-- first of them is the newest of all failures of components and speakers; there is no first
-- only when there are no failures.
pub failure_records-IsNewestFirst :
    (s : HealthSnapshot)
    → IsNewestFirst (failure_records s)
      × (length (failure_records s) ≤ 100)
      × IsNewest
          (first_of (failure_records s))
          (component_failures s.components ++ speaker_failures s.speakers)
unfolding failure_records
failure_records-IsNewestFirst s =
    let fs = component_failures s.components ++ speaker_failures s.speakers in
    let sorted = sort_newest-IsNewestFirst fs in
    (
      take-IsNewestFirst 100 (sort_newest fs) sorted,
      length-take-le 100 (sort_newest fs),
      sorted-IsNewest fs (sort_newest fs) refl sorted,
    )

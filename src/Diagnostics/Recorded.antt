-- ===== src/Diagnostics/Recorded.antt =====
-- What the service has of the calls of record_event (backend/bl_haos/diagnostics.py).
use bl_haos_bridge.Prelude.{
  ℕ, zero, suc, ◌-◌, ◌≤◌, ◌<◌, ◌≡◌, refl, sym, ap, subst, ◌∙◌, ◌⊎◌, inl, inr, arith, true, false,
  List, [], ◌∷◌, Bool, ltb→lt, take, drop, length, ltb, if◌then◌else◌, Option, none, some,
}
use bl_haos_bridge.Dict.{Text}
use bl_haos_bridge.Text.{codes}
use bl_haos_bridge.Json.{Value, text}
use bl_haos_bridge.Diagnostics.Bounded.{bounded}
use bl_haos_bridge.Diagnostics.Bounded.Laws.{IsSafe, bounded-IsSafe, placeholder-IsSafe}
use bl_haos_bridge.Diagnostics.{
  DiagnosticsEvent, Report, event_of, clipped, or_fresh, bounded_detail,
}
use bl_haos_bridge.Diagnostics.Events.{Call, recorded, reported, recorded-keep_last}

-- The first `n` characters of what was given; an empty text was not.
abbrev pub IsClip : ℕ → Option Text → Option Text → Type 0
IsClip n none c = c ≡ none
IsClip n (some []) c = c ≡ none
IsClip n (some (a ∷ t)) c = c ≡ some (take n (a ∷ t))

-- The identifier that was given, or the fresh one.
abbrev pub IsIdentifier : Option Text → Text → Text → Type 0
IsIdentifier none fresh c = c ≡ fresh
IsIdentifier (some []) fresh c = c ≡ fresh
IsIdentifier (some (a ∷ t)) fresh c = c ≡ a ∷ t

abbrev pub copy : Option Value → Option Value
copy none = none
copy (some v) = some (bounded 0 v)

abbrev pub IsSafeDetail : Option Value → Type 0
IsSafeDetail none = Unit
IsSafeDetail (some v) = IsSafe 5 v

module _ (size : DiagnosticsEvent → ℕ) where
  -- The event that a call at a time reports. The detail is a bounded copy, or the placeholder when
  -- with that copy the event is too long.
  pub record IsEventOf (now : ℕ) (fresh : Text) (r : Report) (e : DiagnosticsEvent) : Type 0 where
    pub timestamp : e.timestamp ≡ now
    pub name : e.name ≡ take 64 r.name
    pub component : e.component ≡ take 64 r.component
    pub identifier : IsIdentifier r.correlation_id fresh e.correlation_id
    pub speaker : IsClip 64 r.speaker e.speaker
    pub adapter : IsClip 64 r.adapter e.adapter
    pub reason : IsClip 256 r.transition_reason e.transition_reason
    pub recovery : IsClip 64 r.recovery e.recovery
    pub failure : e.failure_class ≡ r.failure_class
    pub detail :
        ((e.detail ≡ copy r.detail) × (size e ≤ 4096))
        ⊎ ((e.detail ≡ some (text (codes "[omitted]")))
            × (4096 < size (record e { detail = copy r.detail })))
    pub safe : IsSafeDetail e.detail

  -- Each event is that of the call at its place.
  abbrev pub AreEventsOf : List Call → List DiagnosticsEvent → Type 0
  AreEventsOf [] [] = Unit
  AreEventsOf ((now, fresh, r) ∷ calls) (e ∷ events) =
      IsEventOf now fresh r e × AreEventsOf calls events
  AreEventsOf _ _ = ⊥

  clipped-IsClip : (n : ℕ) (t : Option Text) → IsClip n t (clipped n t)
  clipped-IsClip n none = refl
  clipped-IsClip n (some []) = refl
  clipped-IsClip n (some (a ∷ t)) = refl

  or_fresh-IsIdentifier : (t : Option Text) (fresh : Text) → IsIdentifier t fresh (or_fresh t fresh)
  or_fresh-IsIdentifier none fresh = refl
  or_fresh-IsIdentifier (some []) fresh = refl
  or_fresh-IsIdentifier (some (a ∷ t)) fresh = refl

  copy-IsSafeDetail : (v : Option Value) → IsSafeDetail (copy v)
  copy-IsSafeDetail none = tt
  copy-IsSafeDetail (some v) = bounded-IsSafe v

  bounded_detail-copy : (v : Option Value) → bounded_detail v ≡ copy v
  bounded_detail-copy none = refl
  bounded_detail-copy (some v) = refl

  not_over : (n : ℕ) → ltb 4096 n ≡ false → n ≤ 4096
  not_over n h = ground arith

  sized-IsEventOf :
      (now : ℕ) (fresh : Text) (r : Report) (over : Bool)
      → ltb 4096 (size (event_of now fresh r)) ≡ over
      → IsEventOf now fresh r (
          if over
          then record (event_of now fresh r) { detail = some (text (codes "[omitted]")) }
          else event_of now fresh r)
  unfolding event_of
  sized-IsEventOf now fresh r true h = record {
    timestamp = refl;
    name = refl;
    component = refl;
    identifier = or_fresh-IsIdentifier r.correlation_id fresh;
    speaker = clipped-IsClip 64 r.speaker;
    adapter = clipped-IsClip 64 r.adapter;
    reason = clipped-IsClip 256 r.transition_reason;
    recovery = clipped-IsClip 64 r.recovery;
    failure = refl;
    detail = inr (
      refl,
      subst (λ d. 4096 < size (record (event_of now fresh r) { detail = d }))
          (bounded_detail-copy r.detail) (ltb→lt 4096 (size (event_of now fresh r)) h),
    );
    safe = placeholder-IsSafe 5;
  }
  sized-IsEventOf now fresh r false h = record {
    timestamp = refl;
    name = refl;
    component = refl;
    identifier = or_fresh-IsIdentifier r.correlation_id fresh;
    speaker = clipped-IsClip 64 r.speaker;
    adapter = clipped-IsClip 64 r.adapter;
    reason = clipped-IsClip 256 r.transition_reason;
    recovery = clipped-IsClip 64 r.recovery;
    failure = refl;
    detail = inl (bounded_detail-copy r.detail, not_over (size (event_of now fresh r)) h);
    safe = subst IsSafeDetail (sym (bounded_detail-copy r.detail)) (copy-IsSafeDetail r.detail);
  }

  reported-AreEventsOf : (calls : List Call) → AreEventsOf calls (reported size calls)
  reported-AreEventsOf [] = tt
  reported-AreEventsOf ((now, fresh, r) ∷ calls) =
      (sized-IsEventOf now fresh r _ refl, reported-AreEventsOf calls)

  drop-reported :
      (n : ℕ) (calls : List Call) → drop n (reported size calls) ≡ reported size (drop n calls)
  drop-reported zero calls = refl
  drop-reported (suc n) [] = refl
  drop-reported (suc n) (c ∷ calls) = drop-reported n calls

  length-reported : (calls : List Call) → length (reported size calls) ≡ length calls
  length-reported [] = refl
  length-reported (c ∷ calls) = ap suc (length-reported calls)

-- After any calls of `record_event` on a new service, it has exactly one event for each of the
-- last 50 calls, in order: with the time, the failure class, and the texts of the call cut to
-- their bounds (64 characters, 256 for the reason; an empty text counts as missing), the
-- identifier given or a fresh one, and as detail the safe bounded copy when with it the event
-- has at most 4096 bytes, else the placeholder.
pub recorded-AreEventsOf :
    (size : DiagnosticsEvent → ℕ) (calls : List Call)
    → AreEventsOf size (drop (length calls - 50) calls) (recorded size calls [])
recorded-AreEventsOf size calls =
    let last = drop (length calls - 50) calls in
    let same : recorded size calls [] ≡ reported size last =
      recorded-keep_last size calls []
      ∙ ap (λ n. drop (n - 50) (reported size calls)) (length-reported size calls)
      ∙ drop-reported size (length calls - 50) calls in
    subst (AreEventsOf size last) (sym same) (reported-AreEventsOf size last)

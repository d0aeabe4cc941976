-- ===== src/Diagnostics.antt =====
-- The diagnostics service (backend/bl_haos/diagnostics.py): the ring of recent events, and the
-- snapshot that support reads.
pub mod Bounded
pub mod Events
pub mod Recorded
use bl_haos_bridge.Prelude.{
  ℕ, zero, suc, ◌+◌, ◌-◌, Bool, true, false, not, ◌&&◌, ◌||◌, List, [], ◌∷◌, ◌++◌, map, any, select,
  length, take, drop, ltb, leb, ◌==◌, if◌then◌else◌, Option, none, some,
}
use bl_haos_bridge.Dict.{Text, Dict}
use bl_haos_bridge.Text.{codes, lower, contains, text_eq}
use bl_haos_bridge.Redaction.{redact_str, safe_text}
use bl_haos_bridge.Json.{Value, text}
use Bounded.{bounded, omitted_placeholder, max_collection_items, text_le}
use bl_haos_bridge.Health.Model.{
  HealthState, FailureClass, FailureObservation, ComponentHealth, SpeakerHealth, HealthSnapshot,
  SpeakerState,
}
use bl_haos_bridge.Health.{Time}

abbrev pub max_events : ℕ
max_events = 50

abbrev pub max_event_bytes : ℕ
max_event_bytes = 4096

-- Seconds, in the ticks of the clock.
abbrev pub max_event_age : ℕ
max_event_age = 86400

pub record DiagnosticsEvent : Type 0 where
  pub name : Text
  pub timestamp : Time
  pub correlation_id : Text
  pub component : Text
  pub speaker : Option Text
  pub adapter : Option Text
  pub detail : Option Value
  pub failure_class : Option Text
  pub transition_reason : Option Text
  pub recovery : Option Text

-- The arguments of `record_event`. `failure_class` is the value of the class, or its `str`.
pub record Report : Type 0 where
  pub name : Text
  pub component : Text
  pub speaker : Option Text
  pub adapter : Option Text
  pub detail : Option Value
  pub failure_class : Option Text
  pub transition_reason : Option Text
  pub recovery : Option Text
  pub correlation_id : Option Text

-- `if x: event[...] = x[:n]`: an empty string counts as missing.
abbrev pub clipped : ℕ → Option Text → Option Text
clipped n (some (c ∷ t)) = some (take n (c ∷ t))
clipped n _ = none

abbrev pub bounded_detail : Option Value → Option Value
bounded_detail none = none
bounded_detail (some v) = some (bounded 0 v)

-- `correlation_id or uuid.uuid4().hex`
abbrev or_fresh : Option Text → Text → Text
or_fresh (some (c ∷ t)) fresh = c ∷ t
or_fresh _ fresh = fresh

pub event_of : Time → Text → Report → DiagnosticsEvent
unfolding bounded
event_of now fresh r = record {
  name = take 64 r.name;
  timestamp = now;
  correlation_id = or_fresh r.correlation_id fresh;
  component = take 64 r.component;
  speaker = clipped 64 r.speaker;
  adapter = clipped 64 r.adapter;
  detail = bounded_detail r.detail;
  failure_class = r.failure_class;
  transition_reason = clipped 256 r.transition_reason;
  recovery = clipped 64 r.recovery;
}

-- `size` is the length of the event in JSON.
abbrev pub within_size : (DiagnosticsEvent → ℕ) → DiagnosticsEvent → DiagnosticsEvent
within_size size e =
    if ltb max_event_bytes (size e)
    then record e { detail = some (text omitted_placeholder) }
    else e

-- `deque(maxlen=n)`: the last `n`.
abbrev pub keep_last {ℓ} : {A : Type ℓ} → ℕ → List A → List A
keep_last n xs = drop (length xs - n) xs

-- The service's own state: its events, oldest first.
pub record_event :
    (DiagnosticsEvent → ℕ)
    → Time
    → Text
    → Report
    → List DiagnosticsEvent
    → List DiagnosticsEvent × DiagnosticsEvent
unfolding event_of
record_event size now fresh r events =
    let e = within_size size (event_of now fresh r) in (keep_last max_events (events ++ e ∷ []), e)

-- The cutoff is the clock less the age; a clock that has run for less has none.
pub recent : Time → List DiagnosticsEvent → List DiagnosticsEvent
recent now = select (λ e. leb now (e.timestamp + max_event_age))

pub record FailureRecord : Type 0 where
  pub component : Text
  pub speaker : Option Text
  pub classification : FailureClass
  pub detail : Option Text
  pub observed_at : Time

abbrev failure_record : Text → Option Text → Option FailureObservation → List FailureRecord
failure_record component speaker none = []
failure_record component speaker (some f) =
    record {
      component = component;
      speaker = speaker;
      classification = f.classification;
      detail = f.detail;
      observed_at = f.observed_at;
    }
    ∷ []

pub component_failures : Dict ComponentHealth → List FailureRecord
component_failures [] = []
component_failures ((_, c) ∷ components) =
    failure_record c.name none c.failure ++ component_failures components

pub speaker_failures : Dict SpeakerHealth → List FailureRecord
speaker_failures [] = []
speaker_failures ((_, s) ∷ speakers) =
    failure_record (codes "speaker") (some s.address) s.failure ++ speaker_failures speakers

-- A later failure first; of two at one time, the one that came first in the list.
pub insert_newest : FailureRecord → List FailureRecord → List FailureRecord
insert_newest f [] = f ∷ []
insert_newest f (g ∷ fs) =
    if leb g.observed_at f.observed_at then f ∷ g ∷ fs else g ∷ insert_newest f fs

pub sort_newest : List FailureRecord → List FailureRecord
unfolding insert_newest
sort_newest [] = []
sort_newest (f ∷ fs) = insert_newest f (sort_newest fs)

-- `_failure_records`
unfoldable pub failure_records : HealthSnapshot → List FailureRecord
unfolding component_failures speaker_failures sort_newest
failure_records s =
    take max_collection_items
      (sort_newest (component_failures s.components ++ speaker_failures s.speakers))

-- `failures[0] if failures else None`
abbrev pub first_of {ℓ} : {A : Type ℓ} → List A → Option A
first_of [] = none
first_of (a ∷ _) = some a

pub record SpeakerLine : Type 0 where
  pub address : Text
  pub state : SpeakerState
  pub transition : Option Text
  pub attempt : ℕ
  pub failure_class : Option FailureClass
  pub observed_at : Time

pub record ComponentLine : Type 0 where
  pub state : HealthState
  pub required : Bool
  pub source : Option Text
  pub failure_class : Option FailureClass

abbrev class_of : Option FailureObservation → Option FailureClass
class_of none = none
class_of (some f) = some f.classification

abbrev component_line : ComponentHealth → ComponentLine
component_line c = record {
  state = c.state;
  required = c.required;
  source = c.source;
  failure_class = class_of c.failure;
}

abbrev speaker_line : SpeakerHealth → SpeakerLine
speaker_line s = record {
  address = s.address;
  state = s.state;
  transition = s.transition;
  attempt = s.attempt;
  failure_class = class_of s.failure;
  observed_at = s.observed_at;
}

-- `sorted` by a key that is a string.
pub insert_by {ℓ} : {A : Type ℓ} → (A → Text) → A → List A → List A
unfolding text_le
insert_by key a [] = a ∷ []
insert_by key a (b ∷ bs) = if text_le (key a) (key b) then a ∷ b ∷ bs else b ∷ insert_by key a bs

pub sort_by {ℓ} : {A : Type ℓ} → (A → Text) → List A → List A
unfolding insert_by
sort_by key [] = []
sort_by key (a ∷ bs) = insert_by key a (sort_by key bs)

pub record DiagnosticsSnapshot : Type 0 where
  pub contract_version : ℕ
  pub health_version : ℕ
  pub status : HealthState
  pub lifecycle : HealthState
  pub timestamp : Time
  pub components : List (Text × ComponentLine)
  pub adapters : Value
  pub speakers : List SpeakerLine
  pub sink_availability : Value
  pub last_failure : Option FailureRecord
  pub recent_failures : List FailureRecord
  pub event_count : ℕ

-- `adapters or []`, and `sinks or` a mapping that says that there are none, are the caller's.
unfoldable pub snapshot :
    Time → Value → Value → HealthSnapshot → List DiagnosticsEvent → DiagnosticsSnapshot
unfolding failure_records sort_by bounded recent
snapshot now adapters sinks s events = record {
  contract_version = 1;
  health_version = s.version;
  status = s.status;
  lifecycle = s.lifecycle;
  timestamp = now;
  components =
      map (λ (e : Text × ComponentHealth). (e.0, component_line e.1))
        (sort_by (λ e. e.0) s.components);
  adapters = bounded 0 adapters;
  speakers = map speaker_line (
      take max_collection_items
        (sort_by (λ p. p.address) (map (λ (e : Text × SpeakerHealth). e.1) s.speakers)));
  sink_availability = bounded 0 sinks;
  last_failure = first_of (failure_records s);
  recent_failures = failure_records s;
  event_count = length (recent now events);
}

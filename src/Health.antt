-- ===== src/Health.antt =====
-- The health registry (backend/bl_haos/health.py): canonical observations of components and
-- speakers, and the one snapshot that its consumers read.
pub mod Model
pub mod Status
pub mod Counters
pub mod Registry
use bl_haos_bridge.Prelude.{
  ◌>>=◌, ℕ, ◌+◌, Bool, true, false, not, ◌&&◌, ◌||◌, List, [], ◌∷◌, ◌++◌, map, if◌then◌else◌, any,
  length, select, leb, ltb, Option, none, some, is_some,
}
use bl_haos_bridge.Dict.{Text, Dict, lookup, insert}
use bl_haos_bridge.Text.{codes}
use bl_haos_bridge.Address.{normalize_address, safe_codec}
use bl_haos_bridge.Redaction.{safe_detail}
use mathlib.Core.Option
use Model.{
  HealthState, starting, healthy, degraded, unavailable, stopping, stopped, unknown, SpeakerState,
  FailureClass, FailureObservation, ComponentHealth, SpeakerHealth, HealthSnapshot, Delivery,
  to_listener, to_event_bus, is_unavailable, is_impaired, is_ending, is_starting, speaker_value,
  is_connected, is_disconnected,
}

-- Seconds of the wall clock, in ticks. `clock i` is the i-th reading of a clock within one call:
-- `self.clock()`, or `time.time()` for a field that is left to its default.
abbrev pub Time : Type 0
Time = ℕ

abbrev pub Clock : Type 0
Clock = ℕ → Time

abbrev pub health_contract_version : ℕ
health_contract_version = 1

abbrev pub max_identifier_length : ℕ
max_identifier_length = 64

-- The listeners are callables; here each has a number.
pub record HealthRegistry : Type 0 where
  pub components : Dict ComponentHealth
  pub speakers : Dict SpeakerHealth
  pub lifecycle : HealthState
  pub listeners : List ℕ

unfoldable pub init : HealthRegistry
init = record { components = []; speakers = []; lifecycle = starting; listeners = [] }

unfoldable pub add_listener : ℕ → HealthRegistry → HealthRegistry
add_listener listener r = record r { listeners = r.listeners ++ listener ∷ [] }

-- The states of the required components.
pub required_states : Dict ComponentHealth → List HealthState
required_states components = map (λ e. e.1.state) (select (λ e. e.1.required) components)

abbrev is_empty : List HealthState → Bool
is_empty [] = true
is_empty (_ ∷ _) = false

unfoldable pub status : HealthRegistry → HealthState
unfolding required_states
status r =
    let states = required_states r.components in
    if any is_unavailable states
    then unavailable
    else if is_ending r.lifecycle
    then r.lifecycle
    else if is_starting r.lifecycle && is_empty states
    then r.lifecycle
    else if any is_impaired states
    then degraded
    else if is_starting r.lifecycle
    then r.lifecycle
    else healthy

pub snapshot : Time → HealthRegistry → HealthSnapshot
unfolding status
snapshot now r = record {
  version = health_contract_version;
  status = status r;
  lifecycle = r.lifecycle;
  components = r.components;
  speakers = r.speakers;
  updated_at = now;
}

-- `listener(snapshot)` for each listener, then `event_bus.broadcast("health", snapshot)`.
unfoldable pub publish : Time → Bool → HealthRegistry → List Delivery
unfolding snapshot
publish now has_event_bus r =
    let s = snapshot now r in
    map (λ l. to_listener l s) r.listeners ++ (if has_event_bus then to_event_bus s ∷ [] else [])

-- The record that `observe_component` writes.
unfoldable pub observed_component :
    Clock
    → Text
    → HealthState
    → Bool
    → Option FailureClass
    → Option Text
    → Option Text
    → ComponentHealth
observed_component clock name state required failure detail source = record {
  name = name;
  state = state;
  required = required;
  failure =
      Option.map
        (λ f. record {
          classification = f;
          detail = safe_detail detail;
          observed_at = clock 0;
          attempt = none;
        })
        failure;
  source = source;
  observed_at = clock 1;
}

unfoldable pub observe_component :
    Clock
    → Text
    → HealthState
    → Bool
    → Option FailureClass
    → Option Text
    → Option Text
    → HealthRegistry
    → HealthRegistry
observe_component clock name state required failure detail source r =
    let component = observed_component clock name state required failure detail source in
    record r { components = insert name component r.components }

abbrev pub component_lifecycle : Text
component_lifecycle = codes "lifecycle"

unfoldable pub set_lifecycle :
    Clock → HealthState → Option FailureClass → Option Text → HealthRegistry → HealthRegistry
set_lifecycle clock state none detail r = record r { lifecycle = state }
set_lifecycle clock state (some failure) detail r =
    observe_component clock component_lifecycle state false (some failure) detail
      (some (codes "lifecycle")) (record r { lifecycle = state })

-- `a or b` for optional strings: an empty string counts as missing.
abbrev pub or_text : Option Text → Option Text → Option Text
or_text (some (c ∷ s)) other = some (c ∷ s)
or_text _ other = other

abbrev pub count_if : Bool → ℕ
count_if true = 1
count_if false = 0

-- A field of the previous record, or the value that its absence stands for.
abbrev pub previous_or {ℓ} : {A : Type ℓ} → (SpeakerHealth → A) → A → Option SpeakerHealth → A
previous_or f d none = d
previous_or f d (some p) = f p

-- The validation of `codec`: at most 64 characters, then a codec name or nothing. `none` is the
-- ValidationError.
abbrev pub checked_codec : Option Text → Option (Option Text)
checked_codec none = some none
checked_codec (some c) =
    if ltb max_identifier_length (length c) then none else some (safe_codec (some c))

-- A new failure, or the previous one unless the speaker is connected.
abbrev pub failure_after :
    Clock
    → SpeakerState
    → Option FailureClass
    → Option Text
    → ℕ
    → Option SpeakerHealth
    → Option FailureObservation
failure_after clock state (some f) detail attempt previous = some (record {
  classification = f;
  detail = safe_detail detail;
  observed_at = clock 0;
  attempt = some attempt;
})
failure_after clock state none detail attempt previous =
    if is_connected state then none else previous_or (λ p. p.failure) none previous

-- The record that `observe_speaker` writes, over the previous one.
unfoldable pub observed_speaker :
    Clock
    → Text
    → SpeakerState
    → Option FailureClass
    → Option Text
    → ℕ
    → Option Text
    → Option SpeakerHealth
    → SpeakerHealth
observed_speaker clock address state failure detail attempt codec previous = record {
  address = address;
  state = state;
  failure = failure_after clock state failure detail attempt previous;
  transition = some (
      previous_or (λ p. speaker_value p.state ++ codes "->" ++ speaker_value state)
        (speaker_value state) previous);
  observed_at = clock 1;
  attempt = attempt;
  connects =
      previous_or (λ p. p.connects) 0 previous
      + count_if
          (is_connected state && not (previous_or (λ p. is_connected p.state) false previous));
  disconnects =
      previous_or (λ p. p.disconnects) 0 previous
      + count_if (is_disconnected state && previous_or (λ p. is_connected p.state) false previous);
  suppressed_flaps = previous_or (λ p. p.suppressed_flaps) 0 previous;
  codec = codec;
  link_reason =
      if is_some failure
      then safe_detail detail
      else previous_or (λ p. p.link_reason) none previous;
}

-- `codec or (previous.codec if previous else None)`
abbrev pub known_codec : Option Text → Option SpeakerHealth → Option Text
known_codec codec previous = or_text codec (previous_or (λ p. p.codec) none previous)

-- `self.speakers[address] = speaker`
abbrev pub with_speaker : Text → SpeakerHealth → HealthRegistry → HealthRegistry
with_speaker addr speaker r = record r { speakers = insert addr speaker r.speakers }

-- `none` is the ValueError of a bad address or codec.
unfoldable pub observe_speaker :
    Clock
    → Text
    → SpeakerState
    → Option FailureClass
    → Option Text
    → ℕ
    → Option Text
    → HealthRegistry
    → Option HealthRegistry
observe_speaker clock address state failure detail attempt codec r = do
  addr ← normalize_address address
  let previous = lookup addr r.speakers
  name ← checked_codec (known_codec codec previous)
  some
      (with_speaker addr (observed_speaker clock addr state failure detail attempt name previous) r)

-- `SpeakerHealth(address=address)`
abbrev pub new_speaker : Time → Text → SpeakerHealth
new_speaker now address = record {
  address = address;
  state = SpeakerState.unknown;
  failure = none;
  transition = none;
  observed_at = now;
  attempt = 0;
  connects = 0;
  disconnects = 0;
  suppressed_flaps = 0;
  codec = none;
  link_reason = none;
}

abbrev pub base_speaker : Time → Text → Option SpeakerHealth → SpeakerHealth
base_speaker now address none = new_speaker now address
base_speaker now address (some p) = record p { observed_at = now }

-- The record that `record_suppressed_flap` writes.
abbrev pub flapped : Time → Text → Option Text → Option SpeakerHealth → SpeakerHealth
flapped now addr reason previous =
    let base = base_speaker now addr previous in
    record base {
      suppressed_flaps = base.suppressed_flaps + 1;
      link_reason = or_text (safe_detail reason) base.link_reason;
    }

unfoldable pub record_suppressed_flap :
    Clock → Text → Option Text → HealthRegistry → Option HealthRegistry
record_suppressed_flap clock address reason r = do
  addr ← normalize_address address
  some (with_speaker addr (flapped (clock 0) addr reason (lookup addr r.speakers)) r)

-- A usable codec name is stored; anything else leaves the record alone.
abbrev pub store_codec : Time → Text → Option Text → HealthRegistry → HealthRegistry
store_codec now addr none r = r
store_codec now addr (some name) r =
    with_speaker addr
      (record (base_speaker now addr (lookup addr r.speakers)) { codec = some name }) r

unfoldable pub record_speaker_codec :
    Clock → Text → Option Text → HealthRegistry → Option HealthRegistry
record_speaker_codec clock address codec r = do
  addr ← normalize_address address
  some (store_codec (clock 0) addr (safe_codec codec) r)

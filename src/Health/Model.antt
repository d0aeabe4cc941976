-- ===== src/Health/Model.antt =====
-- The states, failure classes and records of the health contract (backend/bl_haos/health.py).
use bl_haos_bridge.Prelude.{ℕ, Bool, true, false, Option}
use bl_haos_bridge.Dict.{Text, Dict}
use bl_haos_bridge.Text.{codes}

pub data HealthState : Type 0 where
  starting healthy degraded unavailable stopping stopped unknown : HealthState

pub data SpeakerState : Type 0 where
  unknown connected disconnected reconnecting unavailable : SpeakerState

pub data FailureClass : Type 0 where
  pairing_failed native_integration_unavailable dbus_unavailable dbus_disconnected : FailureClass
  stale_bluez_object pipewire_unavailable sink_missing : FailureClass
  sink_unavailable_transport_held reconnect_exhausted startup_failed : FailureClass
  shutdown_incomplete : FailureClass

pub HealthState-discrete : Discrete HealthState
HealthState-discrete = hlevel

pub SpeakerState-discrete : Discrete SpeakerState
SpeakerState-discrete = hlevel

-- `state.value`
abbrev pub speaker_value : SpeakerState → Text
speaker_value SpeakerState.unknown = codes "unknown"
speaker_value SpeakerState.connected = codes "connected"
speaker_value SpeakerState.disconnected = codes "disconnected"
speaker_value SpeakerState.reconnecting = codes "reconnecting"
speaker_value SpeakerState.unavailable = codes "unavailable"

-- The tests on states that the registry makes.
abbrev pub is_unavailable : HealthState → Bool
is_unavailable HealthState.unavailable = true
is_unavailable _ = false

abbrev pub is_impaired : HealthState → Bool
is_impaired HealthState.degraded = true
is_impaired HealthState.unknown = true
is_impaired _ = false

abbrev pub is_ending : HealthState → Bool
is_ending HealthState.stopping = true
is_ending HealthState.stopped = true
is_ending _ = false

abbrev pub is_starting : HealthState → Bool
is_starting HealthState.starting = true
is_starting _ = false

abbrev pub is_connected : SpeakerState → Bool
is_connected SpeakerState.connected = true
is_connected _ = false

abbrev pub is_disconnected : SpeakerState → Bool
is_disconnected SpeakerState.disconnected = true
is_disconnected _ = false

pub record FailureObservation : Type 0 where
  pub classification : FailureClass
  pub detail : Option Text
  pub observed_at : ℕ
  pub attempt : Option ℕ

pub record ComponentHealth : Type 0 where
  pub name : Text
  pub state : HealthState
  pub required : Bool
  pub failure : Option FailureObservation
  pub source : Option Text
  pub observed_at : ℕ

pub record SpeakerHealth : Type 0 where
  pub address : Text
  pub state : SpeakerState
  pub failure : Option FailureObservation
  pub transition : Option Text
  pub observed_at : ℕ
  pub attempt : ℕ
  pub connects : ℕ
  pub disconnects : ℕ
  pub suppressed_flaps : ℕ
  pub codec : Option Text
  pub link_reason : Option Text

pub record HealthSnapshot : Type 0 where
  pub version : ℕ
  pub status : HealthState
  pub lifecycle : HealthState
  pub components : Dict ComponentHealth
  pub speakers : Dict SpeakerHealth
  pub updated_at : ℕ

-- Whom `publish` hands a snapshot to.
pub data Delivery : Type 0 where
  to_listener : ℕ → HealthSnapshot → Delivery
  to_event_bus : HealthSnapshot → Delivery

-- ===== src/Reconnect/Model.antt =====
-- The records of the reconnect engine and its constants (backend/bl_haos/bluetooth/reconnect.py,
-- backend/bl_haos/constants.py). Times and delays are in milliseconds.
use bl_haos_bridge.Prelude.{
  ℕ, Bool, true, false, List, [], Option, none, ltb, leb, ◌==◌, ◌≡◌, ◌*◌, ◌^◌,
}
use bl_haos_bridge.Dict.{Text}
use bl_haos_bridge.Health.Model.{SpeakerState, FailureClass}

abbrev pub Time : Type 0
Time = ℕ

abbrev pub min_backoff : Time
min_backoff = 10000

-- `RECONNECT_BACKOFF_JITTER` is 0.15; a drawn jitter is in millionths.
abbrev pub backoff_jitter : ℕ
backoff_jitter = 150000

abbrev pub millionths : ℕ
millionths = 1000000

abbrev pub disconnect_grace : Time
disconnect_grace = 5000

abbrev pub post_connect_settle : Time
post_connect_settle = 15000

abbrev pub flap_window : Time
flap_window = 120000

abbrev pub flap_limit : ℕ
flap_limit = 6

abbrev pub flap_cooldown : Time
flap_cooldown = 60000

pub data ReconnectState : Type 0 where
  idle connected reconnecting backoff circuit_broken : ReconnectState

-- `CONNECTED` or `IDLE`: the states in which a dropout is noticed.
abbrev pub is_settled : ReconnectState → Bool
is_settled ReconnectState.idle = true
is_settled ReconnectState.connected = true
is_settled _ = false

abbrev pub is_connected : ReconnectState → Bool
is_connected ReconnectState.connected = true
is_connected _ = false

abbrev pub is_backoff : ReconnectState → Bool
is_backoff ReconnectState.backoff = true
is_backoff _ = false

abbrev pub is_circuit_broken : ReconnectState → Bool
is_circuit_broken ReconnectState.circuit_broken = true
is_circuit_broken _ = false

-- The arguments of the constructor, and what the float arithmetic of _calculate_backoff_delay makes
-- of them: `saturates` is its test with logarithms and `growth` the product of `ldexp` and `exp2`,
-- at each step. The multiplier is a fraction.
pub record Config : Type 0 where
  pub initial_backoff : Time
  pub multiplier_num : ℕ
  pub multiplier_den : ℕ
  pub max_backoff : Time
  pub saturates : ℕ → Bool
  pub growth : ℕ → Time
  pub max_failures : ℕ
  pub breaker_cooldown : Time

-- With the multiplier 2 the growth is exact, and 10 s reach 120 s at the fourth step.
abbrev pub default_config : Config
default_config = record {
  initial_backoff = 10000;
  multiplier_num = 2;
  multiplier_den = 1;
  max_backoff = 120000;
  saturates = λ step. leb 4 step;
  growth = λ step. 10000 * 2 ^ step;
  max_failures = 8;
  breaker_cooldown = 300000;
}

-- The constructor's checks: a multiplier of at least one and a positive cap. Finite, non-negative
-- delays hold by the representation.
pub record IsConfig (c : Config) : Type 0 where
  pub positive_den : ltb 0 c.multiplier_den ≡ true
  pub growing : ltb c.multiplier_num c.multiplier_den ≡ false
  pub positive_cap : (c.max_backoff == 0) ≡ false

-- A Python object: `identity` tells two profiles of one address apart.
pub record SpeakerReconnectProfile : Type 0 where
  pub identity : ℕ
  pub address : Text
  pub enabled : Bool
  pub state : ReconnectState
  pub consecutive_failures : ℕ
  pub backoff_step : ℕ
  pub next_retry_time : Time
  pub circuit_broken_until : Time
  pub preferred_adapter : Option Text
  pub disconnected_since : Option Time
  pub connected_at : Time
  pub suppressed_flaps : ℕ
  pub flap_times : List Time
  pub cooldown_until : Time

abbrev pub new_profile : ℕ → Text → Bool → Option Text → SpeakerReconnectProfile
new_profile identity address enabled preferred_adapter = record {
  identity = identity;
  address = address;
  enabled = enabled;
  state = ReconnectState.idle;
  consecutive_failures = 0;
  backoff_step = 0;
  next_retry_time = 0;
  circuit_broken_until = 0;
  preferred_adapter = preferred_adapter;
  disconnected_since = none;
  connected_at = 0;
  suppressed_flaps = 0;
  flap_times = [];
  cooldown_until = 0;
}

-- What the engine tells the health registry of a profile's speaker.
pub data HealthNote : Type 0 where
  flap : Text → HealthNote
  observe : SpeakerState → Option FailureClass → Option Text → ℕ → HealthNote

-- The fields of `DeviceInfo` that the engine reads.
pub record DeviceInfo : Type 0 where
  pub address : Text
  pub paired : Bool
  pub trusted : Bool
  pub connected : Bool
  pub is_audio_sink : Bool

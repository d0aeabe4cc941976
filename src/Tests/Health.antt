-- ===== src/Tests/Health.antt =====
-- Runs of the health registry (backend/bl_haos/health.py).
use bl_haos_bridge.Prelude.{◌+◌, ◌≡◌, ◌↔◌, refl, true, false, [], ◌∷◌, none, some}
use bl_haos_bridge.Dict.{Text, lookup, insert, Text-discrete}
use bl_haos_bridge.Text.{codes}
use bl_haos_bridge.Address.{normalize_address}
use bl_haos_bridge.Health.Model.{
  HealthState, SpeakerState, FailureClass, SpeakerHealth, is_unavailable, is_impaired, is_ending,
  is_starting,
}
use bl_haos_bridge.Health.{
  HealthRegistry, Clock, init, status, observe_component, observe_speaker, record_suppressed_flap,
  record_speaker_codec, set_lifecycle, observed_speaker, with_speaker, flapped, publish,
}
use bl_haos_bridge.Health.Status.{IsOptional, has_required, status_meaning}
use bl_haos_bridge.Health.Registry.{IsValid, observe_speaker-IsValid}
use bl_haos_bridge.Health.Counters.{
  History, connects_at, disconnects_at, ups, downs, History-Counts,
}

abbrev wall : Clock
wall i = 1000

abbrev speaker : Text
speaker = codes "a0:bb:cc:dd:ee:01"

-- The registry of a bridge that runs, with one required component.
abbrev bridge : HealthRegistry
bridge =
    observe_component wall (codes "pipewire") HealthState.degraded true
      (some FailureClass.pipewire_unavailable) (some (codes "socket missing")) none
      (set_lifecycle wall HealthState.healthy none none init)

bridge_degraded : status bridge ≡ HealthState.degraded
unfolding status observe_component bl_haos_bridge.Dict.insert set_lifecycle init
    bl_haos_bridge.Health.observed_component
bridge_degraded = refl

abbrev with_demo : HealthRegistry
with_demo =
    observe_component wall (codes "demo") HealthState.unavailable false none none none bridge

demo_ignored : status with_demo ≡ HealthState.degraded
unfolding status observe_component bl_haos_bridge.Dict.insert set_lifecycle init
    bl_haos_bridge.Dict.Text-discrete bl_haos_bridge.Health.observed_component
demo_ignored = refl

abbrev connected_record : SpeakerHealth
connected_record = observed_speaker wall speaker SpeakerState.connected none none 0 none none

abbrev with_connected : HealthRegistry
with_connected = with_speaker speaker connected_record bridge

abbrev with_dropped : HealthRegistry
with_dropped =
    with_speaker speaker
      (observed_speaker wall speaker SpeakerState.disconnected none none 0 none
        (some connected_record))
      bridge

connect :
    observe_speaker wall speaker SpeakerState.connected none none 0 none bridge
    ≡ some with_connected
unfolding observe_speaker normalize_address bl_haos_bridge.Text.strip bl_haos_bridge.Text.is_space
    bl_haos_bridge.Text.replace_char bl_haos_bridge.Text.lower lookup observe_component
    set_lifecycle init
connect = refl

connect_again :
    observe_speaker wall speaker SpeakerState.disconnected none none 0 none with_connected
    ≡ some with_dropped
unfolding observe_speaker normalize_address bl_haos_bridge.Text.strip bl_haos_bridge.Text.is_space
    bl_haos_bridge.Text.replace_char bl_haos_bridge.Text.lower lookup bl_haos_bridge.Dict.insert
    observe_component set_lifecycle init bl_haos_bridge.Dict.Text-discrete observed_speaker
connect_again = refl

named : normalize_address speaker ≡ some speaker
unfolding normalize_address bl_haos_bridge.Text.strip bl_haos_bridge.Text.is_space
    bl_haos_bridge.Text.replace_char bl_haos_bridge.Text.lower
named = refl

drop_history :
    History speaker (SpeakerState.connected ∷ SpeakerState.disconnected ∷ []) bridge with_dropped
drop_history =
    History.seen wall speaker SpeakerState.connected none none 0 none bridge named connect (
      History.seen wall speaker SpeakerState.disconnected none none 0 none with_connected named
        connect_again History.start)

bridge-IsValid : IsValid bridge
unfolding observe_component set_lifecycle init
bridge-IsValid = tt

abbrev with_flap : HealthRegistry
with_flap = with_speaker speaker (flapped 1000 speaker (some (codes "grace")) none) bridge

abbrev with_codec : HealthRegistry
with_codec = with_speaker speaker (record connected_record { codec = some (codes "ldac") }) bridge

flap_counted : record_suppressed_flap wall speaker (some (codes "grace")) bridge ≡ some with_flap
unfolding record_suppressed_flap normalize_address bl_haos_bridge.Text.strip
    bl_haos_bridge.Text.is_space bl_haos_bridge.Text.replace_char bl_haos_bridge.Text.lower lookup
    observe_component set_lifecycle init
flap_counted = refl

codec_stored :
    record_speaker_codec wall speaker (some (codes " LDAC")) with_connected ≡ some with_codec
unfolding record_speaker_codec normalize_address bl_haos_bridge.Text.strip
    bl_haos_bridge.Text.is_space bl_haos_bridge.Text.replace_char bl_haos_bridge.Text.lower
    bl_haos_bridge.Address.safe_codec observed_speaker lookup observe_component
    bl_haos_bridge.Dict.insert set_lifecycle init bl_haos_bridge.Dict.Text-discrete
codec_stored = refl

unnamed_raises : record_suppressed_flap wall (codes "a0") none bridge ≡ none
unfolding record_suppressed_flap normalize_address bl_haos_bridge.Text.strip
    bl_haos_bridge.Text.is_space bl_haos_bridge.Text.replace_char bl_haos_bridge.Text.lower
unnamed_raises = refl

with_connected-IsValid : IsValid with_connected
with_connected-IsValid =
    observe_speaker-IsValid wall speaker SpeakerState.connected none none 0 none bridge
      with_connected bridge-IsValid connect

demo_new : IsOptional (codes "demo") bridge.components
unfolding observe_component set_lifecycle init insert lookup Text-discrete
demo_new c h = cc

status_meaning_example :
    ((status bridge ≡ HealthState.unavailable) ↔ (has_required is_unavailable bridge ≡ true))
    × ((status bridge ≡ HealthState.degraded) ↔ (
        (has_required is_unavailable bridge ≡ false)
        × (is_ending bridge.lifecycle ≡ false)
        × (has_required is_impaired bridge ≡ true)))
    × ((status bridge ≡ HealthState.healthy) ↔ (
        (has_required is_unavailable bridge ≡ false)
        × (has_required is_impaired bridge ≡ false)
        × (is_ending bridge.lifecycle ≡ false)
        × (is_starting bridge.lifecycle ≡ false)))
status_meaning_example = status_meaning bridge

History-Counts_example :
    (connects_at speaker with_dropped ≡ connects_at speaker bridge + 1)
    × (disconnects_at speaker with_dropped ≡ disconnects_at speaker bridge + 1)
unfolding ups downs lookup observe_component set_lifecycle init
History-Counts_example = History-Counts drop_history

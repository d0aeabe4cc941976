-- ===== src/Tests/Reconnect/Engine.antt =====
-- A run of the engine: a speaker is registered, comes up, drops, and gets an attempt.
use bl_haos_bridge.Prelude.{◌↔◌, false, All, ℕ, ◌≡◌, refl, true, false, [], ◌∷◌, none, some}
use bl_haos_bridge.Dict.{Text, lookup, insert, Text-discrete}
use bl_haos_bridge.Address.{normalize_address}
use bl_haos_bridge.Reconnect.Model.{
  ReconnectState, SpeakerReconnectProfile, new_profile, default_config, DeviceInfo,
}
use bl_haos_bridge.Reconnect.Tracking.{Engine, Draws, Task, Phase, init, register_speaker, put_task}
use bl_haos_bridge.Reconnect.Engine.{
  on_device_event, BluetoothEvent, handle_bluetooth_event, tick, begin, start,
}
use bl_haos_bridge.Reconnect.Engine.Steps.{Step, Reach}
use bl_haos_bridge.Reconnect.Engine.Ownership.{one_attempt}
use bl_haos_bridge.Reconnect.Engine.Unknown.{IsTurnedAway, on_device_event-raises}
use bl_haos_bridge.Reconnect.Engine.Profiles.{IsWatched}
use bl_haos_bridge.Reconnect.Engine.Watched.{table-IsWatched}
use bl_haos_bridge.Health
use bl_haos_bridge.Health.{HealthRegistry}
use bl_haos_bridge.Health.Registry.{IsValid}
use bl_haos_bridge.Tests.Reconnect.{speaker, playing, dropped}

abbrev draws : Draws
draws = record { jitter = 0; clocks = λ i j. 1000 }

abbrev up : DeviceInfo
up = record {
  address = speaker;
  paired = true;
  trusted = true;
  connected = true;
  is_audio_sink = true;
}

abbrev down : DeviceInfo
down = record up { connected = false }

abbrev fresh_profile : SpeakerReconnectProfile
fresh_profile = new_profile 0 speaker true none

abbrev waiting : SpeakerReconnectProfile
waiting = record playing {
  state = ReconnectState.backoff;
  next_retry_time = 216000;
  flap_times = 206000 ∷ [];
}

abbrev reconnecting : SpeakerReconnectProfile
reconnecting = record waiting { state = ReconnectState.reconnecting }

-- The engine with this profile of the speaker.
abbrev engine : SpeakerReconnectProfile → Engine
engine p = record {
  config = default_config;
  health = none;
  profiles = (speaker, p) ∷ [];
  globally_enabled = true;
  running = true;
  loop_alive = true;
  awaited = none;
  inflight = [];
  tasks = λ n. none;
  next_object = 1;
}

abbrev registered : Engine
registered = record (engine fresh_profile) { running = false; loop_alive = false }

abbrev attempt : Task
attempt = record { address = speaker; profile = 0; phase = Phase.created; cancelled = false }

abbrev connecting : Task
connecting = record attempt { phase = Phase.connecting }

abbrev spawned : Engine
spawned = record (engine waiting) {
  inflight = (speaker, 1) ∷ [];
  tasks = put_task 1 attempt (λ n. none);
  next_object = 2;
}

abbrev begun : Engine
begun = record spawned {
  profiles = (speaker, reconnecting) ∷ [];
  tasks = put_task 1 connecting (put_task 1 attempt (λ n. none));
}

registers : register_speaker speaker true none (init default_config none) ≡ some registered
unfolding register_speaker normalize_address bl_haos_bridge.Text.strip bl_haos_bridge.Text.is_space
    bl_haos_bridge.Text.replace_char bl_haos_bridge.Text.lower init lookup insert
registers = refl

starts : start registered ≡ engine fresh_profile
unfolding start
starts = refl

comes_up :
    handle_bluetooth_event 100000 draws (BluetoothEvent.device_updated up) (engine fresh_profile)
    ≡ some (engine playing)
unfolding handle_bluetooth_event on_device_event normalize_address bl_haos_bridge.Text.strip
    bl_haos_bridge.Text.is_space bl_haos_bridge.Text.replace_char bl_haos_bridge.Text.lower lookup
    Text-discrete insert bl_haos_bridge.Reconnect.Profile.link_up
comes_up = refl

drops :
    handle_bluetooth_event 200000 draws (BluetoothEvent.device_updated down) (engine playing)
    ≡ some (engine dropped)
unfolding handle_bluetooth_event on_device_event normalize_address bl_haos_bridge.Text.strip
    bl_haos_bridge.Text.is_space bl_haos_bridge.Text.replace_char bl_haos_bridge.Text.lower lookup
    Text-discrete insert bl_haos_bridge.Reconnect.Profile.link_down
drops = refl

arms : tick 206000 (λ a. draws) (engine dropped) ≡ engine waiting
unfolding tick bl_haos_bridge.Reconnect.Profile.tick_profile
    bl_haos_bridge.Reconnect.Delay.calculate_backoff_delay insert Text-discrete
arms = refl

spawns : tick 230000 (λ a. draws) (engine waiting) ≡ spawned
unfolding tick bl_haos_bridge.Reconnect.Profile.tick_profile lookup insert Text-discrete
spawns = refl

begins : begin 230001 draws 1 attempt spawned ≡ begun
unfolding begin lookup Text-discrete insert bl_haos_bridge.Reconnect.Profile.begin_attempt
begins = refl

begun-Reach : Reach default_config none begun
begun-Reach =
    Reach.next
      (Reach.next
        (Reach.next
          (Reach.next
            (Reach.next
              (Reach.next (Reach.next Reach.fresh (Step.registers speaker true none registers))
                (Step.starts refl starts))
              (Step.hears 100000 draws (BluetoothEvent.device_updated up) comes_up))
            (Step.hears 200000 draws (BluetoothEvent.device_updated down) drops))
          (Step.ticks 206000 (λ a. draws) refl arms))
        (Step.ticks 230000 (λ a. draws) refl spawns))
      (Step.begins 230001 draws 1 attempt refl refl begins)

abbrev worker : ℕ
worker = 1

one_attempt_example : (worker ≡ worker) × (lookup speaker begun.inflight ≡ some worker)
one_attempt_example =
    one_attempt default_config none begun worker worker connecting connecting begun-Reach refl refl
      refl refl refl

abbrev switched_off : Engine
switched_off = record (engine playing) { globally_enabled = false; profiles = [] }

-- With reconnection switched off, the event of a trusted sink raises.
unknown_raises : on_device_event 100000 draws up switched_off ≡ none
unfolding on_device_event normalize_address bl_haos_bridge.Text.strip bl_haos_bridge.Text.is_space
    bl_haos_bridge.Text.replace_char bl_haos_bridge.Text.lower lookup register_speaker
unknown_raises = refl

on_device_event-raises_example :
    (on_device_event 100000 draws up switched_off ≡ none)
    ↔ ((addr : Text) × (normalize_address speaker ≡ some addr) × IsTurnedAway up addr switched_off)
on_device_event-raises_example = on_device_event-raises 100000 draws up switched_off

table-IsWatched_example :
    All (IsWatched default_config) begun.profiles
    × (begun.globally_enabled ≡ false → begun.profiles ≡ [])
table-IsWatched_example = table-IsWatched default_config none begun begun-Reach

speaker_canonical : normalize_address speaker ≡ some speaker
unfolding normalize_address bl_haos_bridge.Text.strip bl_haos_bridge.Text.is_space
    bl_haos_bridge.Text.replace_char bl_haos_bridge.Text.lower
speaker_canonical = refl

init-IsValid : IsValid Health.init
unfolding Health.init
init-IsValid = tt

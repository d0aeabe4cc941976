-- ===== src/Reconnect/Engine/Steps.antt =====
-- The steps of the reconnect engine and its environment (backend/bl_haos/bluetooth/reconnect.py):
-- calls from outside, Bluetooth events, ticks, and tasks that start, end and call back, in any
-- order that asyncio allows.
use bl_haos_bridge.Prelude.{ℕ, ◌≡◌, Bool, true, List, Option, none, some, All}
use bl_haos_bridge.Dict.{Text}
use bl_haos_bridge.Health.{HealthRegistry}
use bl_haos_bridge.Reconnect.Model.{Config, Time}
use bl_haos_bridge.Reconnect.Tracking.{
  Engine, Draws, Task, Phase, init, register_speaker, unregister_speaker, set_global_enabled,
}
use bl_haos_bridge.Reconnect.Engine.{
  BluetoothEvent, Outcome, handle_bluetooth_event, tick, begin, finish, release_inflight, start,
  stop_begin, stop_end, is_done,
}

-- `start` and `stop` are not called while a `stop` still waits for its workers.
pub data Step (e e' : Engine) : Type 0 where
  registers :
      (address : Text) (enabled : Bool) (adapter : Option Text)
      → register_speaker address enabled adapter e ≡ some e'
      → Step e e'
  unregisters : (address : Text) → unregister_speaker address e ≡ some e' → Step e e'
  gates : (enabled : Bool) → set_global_enabled enabled e ≡ some e' → Step e e'
  hears :
      (now : Time) (draws : Draws) (event : BluetoothEvent)
      → handle_bluetooth_event now draws event e ≡ some e'
      → Step e e'
  ticks : (now : Time) (draws : Text → Draws) → e.running ≡ true → tick now draws e ≡ e' → Step e e'
  begins :
      (now : Time) (draws : Draws) (n : ℕ) (t : Task)
      → e.tasks n ≡ some t
      → t.phase ≡ Phase.created
      → begin now draws n t e ≡ e'
      → Step e e'
  finishes :
      (now : Time) (draws : Draws) (outcome : Outcome) (n : ℕ) (t : Task)
      → e.tasks n ≡ some t
      → t.phase ≡ Phase.connecting
      → finish now draws outcome n t e ≡ e'
      → Step e e'
  releases :
      (n : ℕ) (t : Task)
      → e.tasks n ≡ some t
      → t.phase ≡ Phase.finished
      → release_inflight t.address n e ≡ e'
      → Step e e'
  starts : e.awaited ≡ none → start e ≡ e' → Step e e'
  stops : e.awaited ≡ none → stop_begin e ≡ e' → Step e e'
  gathers :
      (ns : List ℕ)
      → e.awaited ≡ some ns
      → All (λ n. is_done (e.tasks n) ≡ true) ns
      → stop_end e ≡ e'
      → Step e e'

-- What can be reached from a new engine.
pub data Reach (c : Config) (health : Option HealthRegistry) : Engine → Type 0 where
  fresh : Reach c health (init c health)
  next : {e e' : Engine} → Reach c health e → Step e e' → Reach c health e'

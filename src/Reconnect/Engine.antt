-- ===== src/Reconnect/Engine.antt =====
-- The events and the tasks of the reconnect engine (backend/bl_haos/bluetooth/reconnect.py,
-- AutoReconnectEngine). A coroutine runs without interruption between two awaits, so each stretch
-- is one function here: `begin` runs an attempt up to `connect_device`, and `finish` from its
-- return to the end.
pub mod Steps
pub mod Induction
pub mod Table
pub mod Tracked
pub mod Ownership
pub mod Unknown
pub mod Profiles
pub mod Closing
pub mod Watched
use bl_haos_bridge.Prelude.{
  ◌>>=◌, ℕ, suc, ◌+◌, ◌≡◌, Bool, true, false, not, ◌&&◌, ◌||◌, List, [], ◌∷◌, map, Option, none,
  some, ltb, ◌==◌, if◌then◌else◌, is_some,
}
use bl_haos_bridge.Dict.{Text, Dict, lookup, insert, erase}
use bl_haos_bridge.Address.{normalize_address}
use bl_haos_bridge.Reconnect.Model.{Config, Time, SpeakerReconnectProfile, DeviceInfo}
use bl_haos_bridge.Reconnect.Profile.{
  Noted, link_up, link_down, begin_attempt, attempt_succeeded, attempt_cancelled, attempt_failed,
  defer_busy_connection, tick_profile,
}
use bl_haos_bridge.Reconnect.Tracking.{
  Engine, Draws, Task, Phase, is_finished, put_task, cancel_task, update_profile, current_profile,
  register_speaker,
}

-- `_on_device_event` on a registered profile.
abbrev pub device_noted : Time → Bool → SpeakerReconnectProfile → Noted
device_noted now true p = link_up now p
device_noted now false p = link_down now p

abbrev pub on_profile_event : Time → Draws → Text → Bool → SpeakerReconnectProfile → Engine → Engine
on_profile_event now draws addr connected p e =
    if not p.enabled then e else update_profile draws.clocks addr (device_noted now connected p) e

abbrev pub is_candidate : DeviceInfo → Bool
is_candidate d = (d.trusted || d.paired || d.connected) && d.is_audio_sink

-- A trusted sink is registered first. `none` is the KeyError of `self.profiles[addr]`.
abbrev pub on_enrolled : Time → Draws → Text → Bool → Engine → Option Engine
on_enrolled now draws addr connected e = do
  p ← lookup addr e.profiles
  some (on_profile_event now draws addr connected p e)

abbrev pub on_unknown_device : Time → Draws → Text → DeviceInfo → Engine → Option Engine
on_unknown_device now draws addr device e =
    if is_candidate device
    then register_speaker addr true none e >>= on_enrolled now draws addr device.connected
    else some e

-- The event by what is registered at the address, and by the address that the device reports.
abbrev pub at_device :
    Time → Draws → Text → DeviceInfo → Option SpeakerReconnectProfile → Engine → Option Engine
at_device now draws addr device none e = on_unknown_device now draws addr device e
at_device now draws addr device (some p) e =
    some (on_profile_event now draws addr device.connected p e)

abbrev pub at_address : Time → Draws → DeviceInfo → Option Text → Engine → Option Engine
at_address now draws device none e = some e
at_address now draws device (some addr) e =
    at_device now draws addr device (lookup addr e.profiles) e

unfoldable pub on_device_event : Time → Draws → DeviceInfo → Engine → Option Engine
on_device_event now draws device e =
    at_address now draws device (normalize_address device.address) e

-- The events of the manager: the two that the engine reacts to carry a device.
pub data BluetoothEvent : Type 0 where
  device_updated device_discovered : DeviceInfo → BluetoothEvent
  other : BluetoothEvent

unfoldable pub handle_bluetooth_event : Time → Draws → BluetoothEvent → Engine → Option Engine
handle_bluetooth_event now draws (device_updated d) e =
    if not e.running then some e else on_device_event now draws d e
handle_bluetooth_event now draws (device_discovered d) e =
    if not e.running then some e else on_device_event now draws d e
handle_bluetooth_event now draws other e = some e

abbrev pub is_done : Option Task → Bool
is_done none = true
is_done (some t) = is_finished t.phase

-- `current is None or current.done()`
abbrev pub may_attempt : Text → Engine → Bool
may_attempt addr e = elim (lookup addr e.inflight) [ none ↦ true | some n ↦ is_done (e.tasks n) ]

abbrev pub spawn : Text → ℕ → Engine → Engine
spawn addr identity e = record e {
  inflight = insert addr e.next_object e.inflight;
  tasks =
      put_task e.next_object
        (record { address = addr; profile = identity; phase = Phase.created; cancelled = false })
        e.tasks;
  next_object = suc e.next_object;
}

-- An attempt that is due, unless one is running.
abbrev pub spawn_due : Bool → Text → ℕ → Engine → Engine
spawn_due due addr identity e = if due && may_attempt addr e then spawn addr identity e else e

-- `_tick` for one entry of `list(self.profiles.items())`.
pub tick_entry : Time → Draws → Text → SpeakerReconnectProfile → Engine → Engine
tick_entry now draws addr p e =
    let (q, notes, due) = tick_profile e.config draws.jitter now p in
    spawn_due due addr q.identity (update_profile draws.clocks addr (q, notes) e)

pub tick_entries : Time → (Text → Draws) → Dict SpeakerReconnectProfile → Engine → Engine
unfolding tick_entry
tick_entries now draws [] e = e
tick_entries now draws ((addr, p) ∷ entries) e =
    tick_entries now draws entries (tick_entry now (draws addr) addr p e)

unfoldable pub tick : Time → (Text → Draws) → Engine → Engine
unfolding tick_entries
tick now draws e = tick_entries now draws e.profiles e

-- The guard of `_attempt_reconnect` on the current profile.
abbrev pub may_begin : Time → SpeakerReconnectProfile → Bool
may_begin now p = p.enabled && not (ltb now p.circuit_broken_until)

abbrev pub with_phase : Phase → ℕ → Task → Engine → Engine
with_phase phase n t e = record e { tasks = put_task n (record t { phase = phase }) e.tasks }

-- `_attempt_reconnect` up to `connect_device`, by the profile that is current.
abbrev pub begin_current :
    Time → Draws → ℕ → Task → Option SpeakerReconnectProfile → Engine → Engine
begin_current now draws n t none e = with_phase Phase.finished n t e
begin_current now draws n t (some p) e =
    if may_begin now p
    then with_phase Phase.connecting n t (update_profile draws.clocks t.address (begin_attempt p) e)
    else with_phase Phase.finished n t e

-- A task that starts: one that was cancelled before never runs.
unfoldable pub begin : Time → Draws → ℕ → Task → Engine → Engine
begin now draws n t e =
    if t.cancelled
    then with_phase Phase.finished n t e
    else begin_current now draws n t (current_profile t.address t.profile e) e

-- How `connect_device` ends: it returns, is cancelled, or raises.
pub data Outcome : Type 0 where
  succeeded cancelled busy failed : Outcome

abbrev pub outcome_noted : Config → ℕ → Time → Outcome → SpeakerReconnectProfile → Noted
outcome_noted c jitter now succeeded p = attempt_succeeded now p
outcome_noted c jitter now cancelled p = attempt_cancelled c jitter now p
outcome_noted c jitter now busy p = defer_busy_connection c jitter now p
outcome_noted c jitter now failed p = attempt_failed c jitter now p

abbrev pub finish_current :
    Time → Draws → Outcome → ℕ → Task → Option SpeakerReconnectProfile → Engine → Engine
finish_current now draws outcome n t none e = with_phase Phase.finished n t e
finish_current now draws outcome n t (some p) e =
    with_phase Phase.finished n t
      (update_profile draws.clocks t.address (outcome_noted e.config draws.jitter now outcome p) e)

pub finish : Time → Draws → Outcome → ℕ → Task → Engine → Engine
finish now draws outcome n t e =
    finish_current now draws outcome n t (current_profile t.address t.profile e) e

-- `_release_inflight`, the done callback.
abbrev pub is_held : ℕ → Option ℕ → Bool
is_held n none = false
is_held n (some m) = m == n

pub release_inflight : Text → ℕ → Engine → Engine
release_inflight addr n e =
    if is_held n (lookup addr e.inflight) then record e { inflight = erase addr e.inflight } else e

unfoldable pub start : Engine → Engine
start e = if e.running then e else record e { running = true; loop_alive = true }

-- `stop` up to the gather, and behind it.
pub cancel_all : List ℕ → (ℕ → Option Task) → ℕ → Option Task
cancel_all [] tasks = tasks
cancel_all (n ∷ ns) tasks = cancel_all ns (cancel_task n tasks)

abbrev pub workers : Engine → List ℕ
workers e = map (λ entry. entry.1) e.inflight

pub stop_begin : Engine → Engine
unfolding cancel_all
stop_begin e = record e {
  running = false;
  tasks = cancel_all (workers e) e.tasks;
  awaited = some (workers e);
}

pub stop_end : Engine → Engine
stop_end e = record e { inflight = []; loop_alive = false; awaited = none }

-- `_attempt_in_progress`
unfoldable pub attempt_in_progress : Text → Engine → Bool
attempt_in_progress addr e = not (may_attempt addr e)

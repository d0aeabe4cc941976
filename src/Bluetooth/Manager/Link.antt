-- ===== src/Bluetooth/Manager/Link.antt =====
-- Connecting, disconnecting and removing a device (backend/bl_haos/bluetooth/manager.py). Each
-- `await` has the number at which `World` says what other tasks do there.
pub mod Laws
pub mod Lock
pub mod Stale
use bl_haos_bridge.Prelude.{
  ℕ, Bool, true, false, not, ◌&&◌, ◌||◌, List, [], ◌∷◌, ◌++◌, if◌then◌else◌, Option, none, some,
  is_some,
}
use bl_haos_bridge.Dict.{Text, Dict, lookup, insert, erase}
use bl_haos_bridge.Text.{codes, lower}
use bl_haos_bridge.Health.Model.{SpeakerState, FailureClass, stale_bluez_object, unavailable}
use bl_haos_bridge.Health.{Clock, HealthRegistry, observe_speaker}
use bl_haos_bridge.Bluetooth.Results.{
  Reply, replied, failed, operation_in_progress, value_error, runtime_error, Exception, Result, ok,
  raised, message, propagate,
}
use bl_haos_bridge.Bluetooth.Device.Model.{BluetoothDevice}
use bl_haos_bridge.Bluetooth.Device
use bl_haos_bridge.Bluetooth.Device.{ConnectReplies, contains_any}
use bl_haos_bridge.Bluetooth.Manager.Model.{BluetoothManager, is_current, held, write}
use bl_haos_bridge.Bluetooth.Manager.Table.{find_device}
use bl_haos_bridge.Bluetooth.Manager.Lookup.{
  Query, checked_address, checked_adapter, ensure_device, stop_scan,
}
use bl_haos_bridge.Bluetooth.Manager.Coroutine.{
  World, M, returns, raises, ◌>>=◌, ◌>>◌, reads, updates, lifted, awaits, try_except, attempt,
  finally_do, timeout,
}

-- What one call of `connect_device` meets.
pub record ConnectRun : Type 0 where
  pub world : World
  pub query : Query
  pub replies : ConnectReplies
  pub disconnect_reply : Reply
  pub trust_reply : Reply
  pub clock : Clock

abbrev pub device_not_found : Text → Exception
device_not_found a = value_error (
    codes "Device with address "
    ++ a
    ++ codes " not found. Ensure device is powered on and in pairing mode.")

abbrev pub withdrawn : Text → Exception
withdrawn a =
    runtime_error (codes "Device " ++ a ++ codes " was withdrawn or superseded during connection")

-- `if self.devices.get(dev.path) is not dev or dev.detached: raise`
abbrev pub check_current : Text → BluetoothDevice → M (Unit {0})
check_current a dev m = if is_current dev m then (ok tt, m) else (raised (withdrawn a), m)

abbrev pub is_up : BluetoothDevice → M Bool
is_up dev = reads (λ m. Device.connected (held dev m))

-- `dev.disconnect()` and the pause after it.
abbrev drop_link : ConnectRun → BluetoothDevice → M (Unit {0})
drop_link run dev = do
  awaits run.world 3
  updates (λ m. write dev (Device.disconnect run.disconnect_reply) m)
  awaits run.world 4

-- The calls of `dev.connect()`, then its write.
abbrev dial : ConnectRun → BluetoothDevice → M (Unit {0})
dial run dev = do
  awaits run.world 5
  λ m. lifted ((Device.connect run.replies (held dev m)).0) m
  updates (λ m. write dev (Device.set_connected true) m)

-- The `try` around the link.
unfoldable pub link_up : ConnectRun → Bool → Text → BluetoothDevice → M (Unit {0})
unfolding is_current held write Device.connect Device.disconnect
link_up run reset a dev = do
  up ← is_up dev
  if up && reset then drop_link run dev else returns tt
  check_current a dev
  dial run dev

abbrev pub stale_markers : List Text
stale_markers =
    codes "unknownobject"
    ∷ codes "unknown object"
    ∷ codes "interface not found"
    ∷ codes "stale device1"
    ∷ codes "unknownmethod"
    ∷ []

abbrev observed : Option HealthRegistry → M (Unit {0})
observed none m = (raised (value_error (codes "Invalid Bluetooth address")), m)
observed (some r) m = (ok tt, record m { health = some r })

-- With no health registry there is nothing to tell.
abbrev observe_stale : Clock → Text → Exception → Option HealthRegistry → M (Unit {0})
observe_stale clock a e none m = (ok tt, m)
observe_stale clock a e (some r) m =
    observed
      (observe_speaker clock a SpeakerState.unavailable (some stale_bluez_object) (some (message e))
        0 none r)
      m

-- The two handlers of the link's `try`.
pub on_link_error : ConnectRun → Text → BluetoothDevice → Exception → M (Unit {0})
unfolding lower Device.mark_detached write
on_link_error run a dev (operation_in_progress text) m = (raised (operation_in_progress text), m)
on_link_error run a dev e m =
    if contains_any stale_markers (lower (message e))
    then (updates (λ m. write dev Device.mark_detached m)
          >> (λ m. observe_stale run.clock a e m.health m)
          >> raises e)
        m
    else (raised e, m)

-- The check, then `return True`.
abbrev pub confirmed : Text → BluetoothDevice → M Bool
confirmed a dev = check_current a dev >> returns true

abbrev pub trust_now : ConnectRun → BluetoothDevice → M (Unit {0})
trust_now run dev =
    attempt
      (awaits run.world 6 >> updates (λ m. write dev (Device.set_trusted run.trust_reply true) m))

abbrev pub scan_stopped : ConnectRun → Text → M (Unit {0})
scan_stopped run adapter = attempt (stop_scan (some adapter) >> awaits run.world 1)

abbrev pub link_tried : ConnectRun → Bool → Text → BluetoothDevice → M (Unit {0})
link_tried run reset a dev = try_except (link_up run reset a dev) (on_link_error run a dev)

-- The body of the lock, from the check that the link is not up.
pub reconnect : ConnectRun → Bool → Text → BluetoothDevice → Text → M Bool
unfolding is_current link_up on_link_error write Device.set_trusted stop_scan
reconnect run reset a dev adapter = do
  scan_stopped run adapter
  awaits run.world 2
  check_current a dev
  link_tried run reset a dev
  trust_now run dev
  confirmed a dev

abbrev pub unless_up : ConnectRun → Bool → Text → BluetoothDevice → Text → Bool → M Bool
unless_up run reset a dev adapter up =
    if up && not reset then returns true else reconnect run reset a dev adapter

pub connect_locked : ConnectRun → Bool → Text → BluetoothDevice → Text → M Bool
unfolding is_current held reconnect
connect_locked run reset a dev adapter = do
  check_current a dev
  up ← is_up dev
  unless_up run reset a dev adapter up

abbrev pub is_held : Option Bool → Bool
is_held none = false
is_held (some b) = b

abbrev pub set_lock : Text → Bool → BluetoothManager → BluetoothManager
set_lock name b m = record m { connection_locks = insert name b m.connection_locks }

-- The lock of one adapter: a second caller is turned away, and the lock is let go however the
-- body ends.
pub with_lock {ℓ} : {A : Type ℓ} → Text → M A → M A
with_lock name body m =
    if is_held (lookup name m.connection_locks)
    then (
      raised (operation_in_progress (codes "Bluetooth connection already in progress on " ++ name)),
      m,
    )
    else finally_do body (set_lock name false) (set_lock name true m)

abbrev pub on_device : ConnectRun → Bool → Text → Option BluetoothDevice → M Bool
on_device run reset a none = raises (device_not_found a)
on_device run reset a (some dev) = do
  adapter ← checked_adapter (Device.adapter_name dev)
  with_lock adapter (connect_locked run reset a dev adapter)

-- What runs under the timeout.
abbrev pub within_timeout : ConnectRun → Bool → Text → M Bool
within_timeout run reset a = do
  dev ← ensure_device run.query a
  awaits run.world 0
  on_device run reset a dev

unfoldable pub connect_device : ConnectRun → Bool → Text → M Bool
unfolding ensure_device with_lock connect_locked Device.adapter_name
connect_device run reset addr = do a ← checked_address addr; timeout (within_timeout run reset a)

abbrev drop_device : Reply → Text → Option BluetoothDevice → M Bool
drop_device reply a none =
    raises (value_error (codes "Device with address " ++ a ++ codes " not found"))
drop_device reply a (some dev) =
    updates (λ m. write dev (Device.disconnect reply) m) >> returns true

unfoldable pub disconnect_device : Query → Reply → Text → M Bool
unfolding ensure_device write Device.disconnect
disconnect_device q reply addr = do
  a ← checked_address addr
  dev ← ensure_device q a
  drop_device reply a dev

abbrev cached_or_live : Query → Text → Option BluetoothDevice → M (Option BluetoothDevice)
cached_or_live q a (some d) m = (ok (some d), m)
cached_or_live q a none m = ensure_device q a m

-- What D-Bus answers to RemoveDevice is swallowed, and with no bus or no object it is not asked:
-- the record goes in every case.
abbrev forget : Reply → Reply → Option BluetoothDevice → M Bool
forget trust reply none = returns false
forget trust reply (some dev) = do
  updates (λ m. write dev (Device.set_trusted trust false) m)
  updates (λ m. if Device.connected (held dev m) then write dev (Device.disconnect reply) m else m)
  updates (λ m. record m { devices = erase dev.path m.devices })
  returns true

unfoldable pub remove_device : Query → Reply → Reply → Text → M Bool
unfolding ensure_device find_device write held Device.set_trusted Device.disconnect
remove_device q trust reply addr = do
  a ← checked_address addr
  dev ← λ m. cached_or_live q a (find_device a m.devices) m
  forget trust reply dev

-- ===== src/Bluetooth/Manager/Link/Lock.antt =====
-- The connection lock of an adapter (backend/bl_haos/bluetooth/manager.py: connect_device).
use bl_haos_bridge.Prelude.{◌≡◌, refl, inl, inr, arith, Bool, true, false, ◌++◌, some, Bool-cases}
use bl_haos_bridge.Dict.{Text, lookup, lookup-insert_self}
use bl_haos_bridge.Text.{codes}
use bl_haos_bridge.Address.{normalize_address, validate_adapter_name}
use bl_haos_bridge.Bluetooth.Results.{Result, ok, raised, operation_in_progress}
use bl_haos_bridge.Bluetooth.Device.Model.{BluetoothDevice}
use bl_haos_bridge.Bluetooth.Device
use bl_haos_bridge.Bluetooth.Manager.Model.{BluetoothManager}
use bl_haos_bridge.Bluetooth.Manager.Lookup.{ensure_device}
use bl_haos_bridge.Bluetooth.Manager.Coroutine.{M, timed_out}
use bl_haos_bridge.Bluetooth.Manager.Link.{
  ConnectRun, with_lock, is_held, set_lock, connect_locked, connect_device,
}

timed_out-state : (r : Result Bool × BluetoothManager) → (timed_out r).1 ≡ r.1
timed_out-state (ok b, m) = refl
timed_out-state (raised e, m) = refl

with_lock-keeps :
    (name : Text) (body : M Bool) (m : BluetoothManager)
    → is_held (lookup name (with_lock name body m).1.connection_locks)
      ≡ is_held (lookup name m.connection_locks)
unfolding with_lock
with_lock-keeps name body m = elim (Bool-cases (is_held (lookup name m.connection_locks))) [
  | inl busy ↦ ground (arith, busy)
  | inr free ↦
      ground (
        arith,
        free,
        lookup-insert_self name false (body (set_lock name true m)).1.connection_locks,
      )
]

-- A call that finds its device: the one at `a`, whose adapter is `adapter`.
module _ (run : ConnectRun) (reset : Bool) (addr : Text) (m : BluetoothManager) {a : Text}
    {dev : BluetoothDevice} {m1 : BluetoothManager} {adapter : Text}
    (valid : normalize_address addr ≡ some a)
    (found : ensure_device run.query a m ≡ (ok (some dev), m1))
    (uncancelled : run.world.cancels 0 ≡ false)
    (named : validate_adapter_name (Device.adapter_name dev) ≡ some adapter) where
  connect_device-with_lock :
      connect_device run reset addr m
      ≡ timed_out
          (with_lock adapter (connect_locked run reset a dev adapter) (run.world.meanwhile 0 m1))
  unfolding connect_device
  connect_device-with_lock = ground (arith, valid, found, uncancelled, named)

  -- A lock that is held: the call is refused and leaves it.
  pub connect_device-busy :
      is_held (lookup adapter (run.world.meanwhile 0 m1).connection_locks) ≡ true
      → connect_device run reset addr m ≡ (
        raised (
            operation_in_progress
              (codes "Bluetooth connection already in progress on " ++ adapter)),
        run.world.meanwhile 0 m1,
      )
  unfolding with_lock
  connect_device-busy held = rw (connect_device-with_lock, held)

  -- A call of `connect_device` that finds its device, on an adapter with a valid name, leaves
  -- the lock of that adapter as it found it, held or not, however the call ends and whatever
  -- other tasks do at its awaits.
  pub connect_device-keeps_lock :
      is_held (lookup adapter (connect_device run reset addr m).1.connection_locks)
      ≡ is_held (lookup adapter (run.world.meanwhile 0 m1).connection_locks)
  connect_device-keeps_lock = rw connect_device-with_lock (
      ground (
        arith,
        timed_out-state
            (with_lock adapter (connect_locked run reset a dev adapter) (run.world.meanwhile 0 m1)),
        with_lock-keeps adapter (connect_locked run reset a dev adapter) (run.world.meanwhile 0 m1),
      ))

-- ===== src/Bluetooth/Manager/Link/Laws.antt =====
-- What a call of `connect_device` guarantees, whatever other tasks do at its awaits
-- (backend/bl_haos/bluetooth/manager.py).
use bl_haos_bridge.Prelude.{
  ◌≡◌, refl, inl, inr, arith, Bool, true, false, not, ◌&&◌, Option, none, some, Bool-cases,
  Option-cases,
}
use bl_haos_bridge.Dict.{Text, lookup}
use bl_haos_bridge.Address.{normalize_address}
use bl_haos_bridge.Bluetooth.Results.{ok}
use bl_haos_bridge.Bluetooth.Device.Model.{BluetoothDevice}
use bl_haos_bridge.Bluetooth.Device
use bl_haos_bridge.Bluetooth.Device.{contains_any}
use bl_haos_bridge.Bluetooth.Manager.Model.{BluetoothManager, is_current}
use bl_haos_bridge.Bluetooth.Manager.Lookup.{checked_address, checked_adapter, ensure_device}
use bl_haos_bridge.Bluetooth.Manager.Coroutine.{M, ◌>>=◌, awaits, timeout}
use bl_haos_bridge.Bluetooth.Manager.Coroutine.Laws.{>>=-eq-ok, timeout-eq-ok}
use bl_haos_bridge.Bluetooth.Manager.Link.{
  ConnectRun, check_current, is_up, reconnect, unless_up, connect_locked, with_lock, confirmed,
  trust_now, scan_stopped, link_tried, is_held, set_lock, on_device, within_timeout, connect_device,
}

check_current-ok :
    (a : Text) (dev : BluetoothDevice) (m : BluetoothManager) {m' : BluetoothManager}
    → check_current a dev m ≡ (ok tt, m')
    → (m' ≡ m) × (is_current dev m ≡ true)
check_current-ok a dev m h = ground arith

confirmed-current :
    (a : Text) (dev : BluetoothDevice) (m : BluetoothManager) {b : Bool} {m' : BluetoothManager}
    → confirmed a dev m ≡ (ok b, m')
    → (b ≡ true) × (is_current dev m' ≡ true)
confirmed-current a dev m h = ground arith

-- The last thing that a successful attempt does is the check.
reconnect-current :
    (run : ConnectRun) (reset : Bool) (a : Text) (dev : BluetoothDevice) (adapter : Text)
    → (m : BluetoothManager) {b : Bool} {m' : BluetoothManager}
    → reconnect run reset a dev adapter m ≡ (ok b, m')
    → (b ≡ true) × (is_current dev m' ≡ true)
unfolding reconnect
reconnect-current run reset a dev adapter m h =
    let last = λ (u : Unit {0}). confirmed a dev in
    let trusting = λ (u : Unit {0}). trust_now run dev >>= last in
    let linking = λ (u : Unit {0}). link_tried run reset a dev >>= trusting in
    let checking = λ (u : Unit {0}). check_current a dev >>= linking in
    let pausing = λ (u : Unit {0}). awaits run.world 2 >>= checking in
    let (_, m1, _, h1) = >>=-eq-ok (scan_stopped run adapter) pausing m h in
    let (_, m2, _, h2) = >>=-eq-ok (awaits run.world 2) checking m1 h1 in
    let (_, m3, _, h3) = >>=-eq-ok (check_current a dev) linking m2 h2 in
    let (_, m4, _, h4) = >>=-eq-ok (link_tried run reset a dev) trusting m3 h3 in
    let (_, m5, _, h5) = >>=-eq-ok (trust_now run dev) last m4 h4 in confirmed-current a dev m5 h5

connect_locked-current :
    (run : ConnectRun) (reset : Bool) (a : Text) (dev : BluetoothDevice) (adapter : Text)
    → (m : BluetoothManager) {b : Bool} {m' : BluetoothManager}
    → connect_locked run reset a dev adapter m ≡ (ok b, m')
    → (b ≡ true) × (is_current dev m' ≡ true)
unfolding connect_locked
connect_locked-current run reset a dev adapter m {b} {m'} h =
    let rest = λ (up : Bool). unless_up run reset a dev adapter up in
    let (_, m1, e1, h1) = >>=-eq-ok (check_current a dev) (λ _. is_up dev >>= rest) m h in
    let (same, current) = check_current-ok a dev m e1 in
    let (up, m2, e2, h2) = >>=-eq-ok (is_up dev) rest m1 h1 in
    elim (Bool-cases (up && not reset)) [
      | inl already ↦ ground arith
      | inr needed ↦
          reconnect-current run reset a dev adapter m2 {b = b} {m' = m'} (ground (arith, needed))
    ]

with_lock-ok :
    (name : Text) (body : M Bool) (m : BluetoothManager) {b : Bool} {m' : BluetoothManager}
    → with_lock name body m ≡ (ok b, m')
    → (m1 : BluetoothManager) × (body (set_lock name true m) ≡ (ok b, m1))
      × (m'.devices ≡ m1.devices)
unfolding with_lock
with_lock-ok name body m h = elim (Bool-cases (is_held (lookup name m.connection_locks))) [
  | inl busy ↦ ground (arith, busy)
  | inr free ↦ ((body (set_lock name true m)).1, ground (arith, free), ground (arith, free))
]

-- The object that the manager's table has at its path, live.
abbrev pub IsLive : BluetoothDevice → BluetoothManager → Type 0
IsLive dev m =
    (d : BluetoothDevice) × (lookup dev.path m.devices ≡ some d)
    × (d.object ≡ dev.object)
    × (d.detached ≡ false)

is_current-IsLive :
    (dev : BluetoothDevice) (m : BluetoothManager) → is_current dev m ≡ true → IsLive dev m
unfolding is_current
is_current-IsLive dev m h = elim (Option-cases (lookup dev.path m.devices)) [
  | inl e ↦ ground (arith, e)
  | inr (d, e) ↦ (d, e, ground (arith, e), ground (arith, e))
]

-- The address that the caller gave, and the device that it stands for when the call starts.
abbrev pub Resolves : ConnectRun → Text → BluetoothManager → BluetoothDevice → Type 0
Resolves run addr m dev =
    (a : Text) × (m1 : BluetoothManager) × (normalize_address addr ≡ some a)
    × (ensure_device run.query a m ≡ (ok (some dev), m1))

checked_address-ok :
    (addr : Text) (m : BluetoothManager) {a : Text} {m' : BluetoothManager}
    → checked_address addr m ≡ (ok a, m')
    → (normalize_address addr ≡ some a) × (m' ≡ m)
checked_address-ok addr m h = elim (Option-cases (normalize_address addr)) [
  | inl e ↦ ground (arith, e)
  | inr (a, e) ↦ ground (arith, e)
]

on_device-IsLive :
    (run : ConnectRun) (reset : Bool) (a : Text) (found : Option BluetoothDevice)
    → (m : BluetoothManager) {b : Bool} {m' : BluetoothManager}
    → on_device run reset a found m ≡ (ok b, m')
    → (dev : BluetoothDevice) × (found ≡ some dev) × (b ≡ true) × IsLive dev m'
on_device-IsLive run reset a none m h = cc
on_device-IsLive run reset a (some dev) m {b} {m'} h =
    let locked = λ (adapter : Text). with_lock adapter (connect_locked run reset a dev adapter) in
    let (adapter, m1, _, h1) = >>=-eq-ok (checked_adapter (Device.adapter_name dev)) locked m h in
    let (m2, h2, kept) = with_lock-ok adapter (connect_locked run reset a dev adapter) m1 h1 in
    let (success, current) =
      connect_locked-current run reset a dev adapter (set_lock adapter true m1) h2 in
    let (d, there, same, live) = is_current-IsLive dev m2 current in
    (dev, refl, success, (d, ground (arith, kept), same, live))

-- Whatever other tasks do to the manager at each await, a call of `connect_device` that returns
-- returns true, and then the table still has, at its path and not offline, the very object that
-- the call had looked up for the address.
pub connect_device-IsLive :
    (run : ConnectRun) (reset : Bool) (addr : Text) (m : BluetoothManager)
    → {b : Bool} {m' : BluetoothManager} → connect_device run reset addr m ≡ (ok b, m')
    → (b ≡ true) × (dev : BluetoothDevice) × Resolves run addr m dev × IsLive dev m'
unfolding connect_device
connect_device-IsLive run reset addr m h =
    let (a, m1, e1, h1) =
      >>=-eq-ok (checked_address addr) (λ a. timeout (within_timeout run reset a)) m h in
    let (valid, same) = checked_address-ok addr m e1 in
    let h2 = timeout-eq-ok (within_timeout run reset a) m1 h1 in
    let rest =
      λ (found : Option BluetoothDevice). awaits run.world 0 >>= λ _. on_device run reset a found in
    let (found, m2, e3, h3) = >>=-eq-ok (ensure_device run.query a) rest m1 h2 in
    let (_, m3, _, h4) =
      >>=-eq-ok (awaits run.world 0) (λ (u : Unit {0}). on_device run reset a found) m2 h3 in
    let (dev, e5, success, live) = on_device-IsLive run reset a found m3 h4 in
    (success, dev, (a, m2, valid, ground arith), live)

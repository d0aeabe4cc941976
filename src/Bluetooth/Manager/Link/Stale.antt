-- ===== src/Bluetooth/Manager/Link/Stale.antt =====
-- The D-Bus error of an object that BlueZ no longer has
-- (backend/bl_haos/bluetooth/manager.py: connect_device).
use bl_haos_bridge.Prelude.{
  ◌≡◌, refl, inl, inr, arith, Bool, true, false, not, ◌&&◌, Option, none, some, Bool-cases,
  Option-cases,
}
use bl_haos_bridge.Dict.{Text, lookup, lookup-insert_self}
use bl_haos_bridge.Text.{lower}
use bl_haos_bridge.Address.{normalize_address, validate_adapter_name}
use bl_haos_bridge.Bluetooth.Manager.Lookup.Laws.{ensure_device-not_dbus}
use bl_haos_bridge.Bluetooth.Manager.Link.{is_held, set_lock}
use bl_haos_bridge.Bluetooth.Manager.Link.Laws.{IsLive, Resolves}
use bl_haos_bridge.Bluetooth.Results.{
  Result, ok, raised, Exception, dbus_error, cancelled, timeout_error, operation_in_progress,
  value_error, runtime_error,
}
use bl_haos_bridge.Bluetooth.Device.Model.{BluetoothDevice}
use bl_haos_bridge.Bluetooth.Device
use bl_haos_bridge.Bluetooth.Device.{contains_any}
use bl_haos_bridge.Bluetooth.Manager.Model.{BluetoothManager, is_current, held, write}
use bl_haos_bridge.Bluetooth.Manager.Lookup.{stop_scan, ensure_device}
use bl_haos_bridge.Bluetooth.Manager.Coroutine.{M, ◌>>=◌, ◌>>◌, awaits, updates, caught}
use bl_haos_bridge.Bluetooth.Manager.Coroutine.Laws.{
  >>=-eq-raised, attempt-cancelled, awaits-cancelled, timeout-eq-dbus_error,
}
use bl_haos_bridge.Bluetooth.Manager.Link.{
  ConnectRun, check_current, is_up, link_up, on_link_error, stale_markers, confirmed, trust_now,
  scan_stopped, link_tried, reconnect, unless_up, connect_locked, with_lock, is_held, set_lock,
  on_device, within_timeout, connect_device,
}

mark_detached-not_current :
    (dev : BluetoothDevice) (m : BluetoothManager)
    → is_current dev (write dev Device.mark_detached m) ≡ false
unfolding is_current write Device.mark_detached
mark_detached-not_current dev m = elim (Option-cases (lookup dev.path m.devices)) [
  | inl e ↦ ground (arith, e)
  | inr (d, e) ↦ ground (arith, e, lookup-insert_self dev.path (Device.mark_detached d) m.devices)
]

-- What leaves the handlers as a D-Bus error came in as that error, and if it says that the
-- object is stale, the record is offline.
on_link_error-stale :
    (run : ConnectRun) (a : Text) (dev : BluetoothDevice) (e : Exception) (t : Text)
    → (m : BluetoothManager) {m' : BluetoothManager} → contains_any stale_markers (lower t) ≡ true
    → on_link_error run a dev e m ≡ (raised (dbus_error t), m')
    → is_current dev m' ≡ false
unfolding on_link_error is_current
on_link_error-stale run a dev (operation_in_progress u) t m stale h = cc
on_link_error-stale run a dev (value_error u) t m stale h = ground arith
on_link_error-stale run a dev (runtime_error u) t m stale h = ground arith
on_link_error-stale run a dev (dbus_error u) t m stale h =
    ground (arith, mark_detached-not_current dev m)
on_link_error-stale run a dev cancelled t m stale h = ground arith
on_link_error-stale run a dev timeout_error t m stale h = ground arith

caught-stale :
    (run : ConnectRun) (a : Text) (dev : BluetoothDevice) (t : Text)
    → (r : Result (Unit {0}) × BluetoothManager) {m' : BluetoothManager}
    → contains_any stale_markers (lower t) ≡ true
    → caught (on_link_error run a dev) r ≡ (raised (dbus_error t), m')
    → is_current dev m' ≡ false
caught-stale run a dev t (ok u, m) stale h = cc
caught-stale run a dev t (raised cancelled, m) stale h = cc
caught-stale run a dev t (raised timeout_error, m) stale h =
    on_link_error-stale run a dev timeout_error t m stale h
caught-stale run a dev t (raised (operation_in_progress u), m) stale h =
    on_link_error-stale run a dev (operation_in_progress u) t m stale h
caught-stale run a dev t (raised (value_error u), m) stale h =
    on_link_error-stale run a dev (value_error u) t m stale h
caught-stale run a dev t (raised (runtime_error u), m) stale h =
    on_link_error-stale run a dev (runtime_error u) t m stale h
caught-stale run a dev t (raised (dbus_error u), m) stale h =
    on_link_error-stale run a dev (dbus_error u) t m stale h

trust_now-cancelled :
    (run : ConnectRun) (dev : BluetoothDevice) (m : BluetoothManager)
    → {e : Exception} {m' : BluetoothManager} → trust_now run dev m ≡ (raised e, m')
    → e ≡ cancelled
trust_now-cancelled run dev m h =
    attempt-cancelled
      (awaits run.world 6 >> updates (λ m. write dev (Device.set_trusted run.trust_reply true) m)) m
      h

scan_stopped-cancelled :
    (run : ConnectRun) (adapter : Text) (m : BluetoothManager)
    → {e : Exception} {m' : BluetoothManager} → scan_stopped run adapter m ≡ (raised e, m')
    → e ≡ cancelled
scan_stopped-cancelled run adapter m h =
    attempt-cancelled (stop_scan (some adapter) >> awaits run.world 1) m h

module _ (run : ConnectRun) (reset : Bool) (a : Text) (dev : BluetoothDevice) (t : Text)
    {m' : BluetoothManager} (stale : contains_any stale_markers (lower t) ≡ true) where
  -- A check raises no D-Bus error.
  check_current-not_dbus :
      (m : BluetoothManager) → check_current a dev m ≡ (raised (dbus_error t), m') → ⊥
  check_current-not_dbus m h = elim (Bool-cases (is_current dev m)) [
    | inl e ↦ ground (arith, e)
    | inr e ↦ ground (arith, e)
  ]

  confirmed-not_dbus : (m : BluetoothManager) → confirmed a dev m ≡ (raised (dbus_error t), m') → ⊥
  confirmed-not_dbus m h = elim (Bool-cases (is_current dev m)) [
    | inl e ↦ ground (arith, e)
    | inr e ↦ ground (arith, e)
  ]

  reconnect-stale :
      (adapter : Text) (m : BluetoothManager)
      → reconnect run reset a dev adapter m ≡ (raised (dbus_error t), m')
      → is_current dev m' ≡ false
  unfolding reconnect
  reconnect-stale adapter m h = elim (>>=-eq-raised (scan_stopped run adapter) pausing m h) [
    | inl e ↦ absurd (not_cancelled (scan_stopped-cancelled run adapter m e))
    | inr (_, m1, _, h1) ↦ elim (>>=-eq-raised (awaits run.world 2) checking m1 h1) [
      | inl e ↦ absurd (not_cancelled (awaits-cancelled run.world 2 m1 e))
      | inr (_, m2, _, h2) ↦ elim (>>=-eq-raised (check_current a dev) linking m2 h2) [
        | inl e ↦ absurd (check_current-not_dbus m2 e)
        | inr (_, m3, _, h3) ↦ linked m3 h3
      ]
    ]
  ]
    where
      trusting : Unit {0} → M Bool
      trusting u = trust_now run dev >>= λ _. confirmed a dev

      linking : Unit {0} → M Bool
      linking u = link_tried run reset a dev >>= trusting

      checking : Unit {0} → M Bool
      checking u = check_current a dev >>= linking

      pausing : Unit {0} → M Bool
      pausing u = awaits run.world 2 >>= checking

      not_cancelled : dbus_error t ≡ cancelled → ⊥
      not_cancelled h = cc

      linked :
          (m : BluetoothManager)
          → linking tt m ≡ (raised (dbus_error t), m')
          → is_current dev m' ≡ false
      linked m h = elim (>>=-eq-raised (link_tried run reset a dev) trusting m h) [
        | inl e ↦ caught-stale run a dev t (link_up run reset a dev m) stale e
        | inr (_, m1, _, h1) ↦
            elim (>>=-eq-raised (trust_now run dev) (λ _. confirmed a dev) m1 h1) [
              | inl e ↦ absurd (not_cancelled (trust_now-cancelled run dev m1 e))
              | inr (_, m2, _, h2) ↦ absurd (confirmed-not_dbus m2 h2)
            ]
      ]

  connect_locked-stale :
      (adapter : Text) (m : BluetoothManager)
      → connect_locked run reset a dev adapter m ≡ (raised (dbus_error t), m')
      → is_current dev m' ≡ false
  unfolding connect_locked
  connect_locked-stale adapter m h =
      let rest = λ (up : Bool). unless_up run reset a dev adapter up in
      elim (>>=-eq-raised (check_current a dev) (λ (u : Unit {0}). is_up dev >>= rest) m h) [
        | inl e ↦ absurd (check_current-not_dbus m e)
        | inr (_, m1, _, h1) ↦ elim (Bool-cases (Device.connected (held dev m1) && not reset)) [
          | inl e ↦ ground (arith, e)
          | inr e ↦ reconnect-stale adapter m1 (ground (arith, e))
        ]
      ]

with_lock-stale :
    (run : ConnectRun) (reset : Bool) (a : Text) (dev : BluetoothDevice) (t adapter : Text)
    → (m : BluetoothManager) {m' : BluetoothManager} → contains_any stale_markers (lower t) ≡ true
    → with_lock adapter (connect_locked run reset a dev adapter) m ≡ (raised (dbus_error t), m')
    → is_current dev m' ≡ false
unfolding with_lock is_current
with_lock-stale run reset a dev t adapter m stale h =
    let held_in = set_lock adapter true m in
    let (r, m1) = connect_locked run reset a dev adapter held_in in
    elim (Bool-cases (is_held (lookup adapter m.connection_locks))) [
      | inl busy ↦ ground (arith, busy)
      | inr free ↦
          let before =
            connect_locked-stale run reset a dev t {m' = m1} stale adapter held_in
              (ground (arith, free)) in
          ground (arith, free, before)
    ]

on_device-stale :
    (run : ConnectRun) (reset : Bool) (a : Text) (found : Option BluetoothDevice) (t : Text)
    → (m : BluetoothManager) {m' : BluetoothManager} → contains_any stale_markers (lower t) ≡ true
    → on_device run reset a found m ≡ (raised (dbus_error t), m')
    → (dev : BluetoothDevice) × (found ≡ some dev) × (is_current dev m' ≡ false)
on_device-stale run reset a none t m stale h = cc
on_device-stale run reset a (some dev) t m stale h =
    elim (Option-cases (validate_adapter_name (Device.adapter_name dev))) [
      | inl e ↦ ground (arith, e)
      | inr (adapter, e) ↦
          (dev, refl, with_lock-stale run reset a dev t adapter m stale (ground (arith, e)))
    ]

is_current-not_IsLive :
    (dev : BluetoothDevice) (m : BluetoothManager) → is_current dev m ≡ false → ¬ IsLive dev m
unfolding is_current
is_current-not_IsLive dev m h (d, there, same, live) = ground (arith, there)

-- Whatever other tasks do at each await, when `connect_device` raises a D-Bus error that says
-- that BlueZ has no such object, the object that the call had looked up is no longer live in
-- the table: it is marked as offline there, or another has its place.
pub connect_device-stale :
    (run : ConnectRun) (reset : Bool) (addr t : Text) (m : BluetoothManager) {m' : BluetoothManager}
    → contains_any stale_markers (lower t) ≡ true
    → connect_device run reset addr m ≡ (raised (dbus_error t), m')
    → (dev : BluetoothDevice) × Resolves run addr m dev × (¬ IsLive dev m')
unfolding connect_device
connect_device-stale run reset addr t m {m'} stale h =
    elim (Option-cases (normalize_address addr)) [
      | inl e ↦ ground (arith, e)
      | inr (a, e) ↦
          let h1 =
            timeout-eq-dbus_error (within_timeout run reset a) m {t = t} {m' = m'}
              (ground (arith, e)) in
          let rest = λ (found : Option BluetoothDevice).
            awaits run.world 0 >>= λ _. on_device run reset a found in
          elim (>>=-eq-raised (ensure_device run.query a) rest m h1) [
            | inl e1 ↦ absurd (ensure_device-not_dbus run.query a t m e1)
            | inr (found, m2, e2, h2) ↦
                elim (>>=-eq-raised (awaits run.world 0)
                  (λ (u : Unit {0}). on_device run reset a found) m2 h2) [
                    | inl e3 ↦ let c = awaits-cancelled run.world 0 m2 e3 in cc
                    | inr (_, m3, _, h3) ↦
                        let (dev, same, gone) = on_device-stale run reset a found t m3 stale h3 in
                        (dev, (a, m2, e, ground arith), is_current-not_IsLive dev m' gone)
                  ]
          ]
    ]

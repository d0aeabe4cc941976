-- ===== src/Bluetooth/Manager/Transport/Laws.antt =====
-- Losing and recovering D-Bus (backend/bl_haos/bluetooth/manager.py).
use bl_haos_bridge.Prelude.{
  ℕ, ◌≡◌, refl, arith, Bool, true, false, ◌&&◌, List, [], ◌∷◌, any, Option, none, some, ◌⊎◌, inl,
  inr, Option-cases, Bool-cases, subst, is_some,
}
use bl_haos_bridge.Dict.{Text, Dict, insert}
use bl_haos_bridge.Text.{codes}
use bl_haos_bridge.Bluetooth.Manager.Table.{Interfaces, add_adapter}
use bl_haos_bridge.Health.Model.{
  HealthState, ComponentHealth, FailureClass, dbus_disconnected, dbus_unavailable, is_unavailable,
}
use bl_haos_bridge.Health.{HealthRegistry, Clock, observe_component, observed_component, status}
use bl_haos_bridge.Health.Status.{status_meaning}
use bl_haos_bridge.Bluetooth.Manager.Model.{BluetoothManager, notify}
use bl_haos_bridge.Bluetooth.Manager.Pairing.{close_pairing_window}
use bl_haos_bridge.Bluetooth.Manager.Transport.{
  component_bluetooth, Startup, start_failed, detail_or_default, connected_start,
  load_managed_objects, load_device, load_adapter, Connection, connected_to, refused, Listing,
  listed, unlisted, started, subscribed, mark_dbus_disconnected, recover_dbus, observe_bluetooth,
  initialize,
}

any-insert :
    (p : Text × ComponentHealth → Bool) (k : Text) (c : ComponentHealth) (d : Dict ComponentHealth)
    → p (k, c) ≡ true
    → any p (insert k c d) ≡ true
unfolding insert
any-insert p k c [] h = ground arith
any-insert p k c ((j, b) ∷ d) h = ground (arith, any-insert p k c d h)

-- The status of the manager's health registry; with no registry there is none.
abbrev pub status_of : Option HealthRegistry → Option HealthState
status_of none = none
status_of (some r) = some (status r)

unavailable-status :
    (clock : Clock) (failure : Option FailureClass) (detail source : Option Text)
    → (r : HealthRegistry)
    → status (
        observe_component clock component_bluetooth HealthState.unavailable true failure detail
          source r)
      ≡ HealthState.unavailable
unfolding observe_component observed_component
unavailable-status clock failure detail source r = (status_meaning _).0.1 (
    any-insert (λ e. e.1.required && is_unavailable e.1.state) component_bluetooth _ r.components
      refl)

-- Bluetooth is out: no bus, and whoever reads the health sees that the bridge is unavailable.
pub record IsLost (m : BluetoothManager) : Type 0 where
  pub no_bus : m.bus ≡ none
  pub not_ready : m.initialized ≡ false
  pub seen : status_of m.health ≡ some HealthState.unavailable

-- After the loss of D-Bus there is no device and no adapter.
pub mark_dbus_disconnected-IsLost :
    (clock : Clock) (detail : Option Text) (m : BluetoothManager) {r : HealthRegistry}
    → m.health ≡ some r
    → IsLost (mark_dbus_disconnected clock detail m)
      × ((mark_dbus_disconnected clock detail m).devices ≡ [])
      × ((mark_dbus_disconnected clock detail m).adapters ≡ [])
unfolding mark_dbus_disconnected notify observe_bluetooth
mark_dbus_disconnected-IsLost clock detail m {r} watched =
    let lost =
      unavailable-status clock (some dbus_disconnected) (detail_or_default detail)
        (some (codes "bluez")) r in
    (record { no_bus = refl; not_ready = refl; seen = rw (watched, lost) }, refl, refl)

load_managed_objects-keeps :
    (now : ℕ) (objects : List (Text × Interfaces)) (m : BluetoothManager)
    → ((load_managed_objects now objects m).health ≡ m.health)
      × ((load_managed_objects now objects m).bus ≡ m.bus)
unfolding load_managed_objects add_adapter
load_managed_objects-keeps now [] m = (refl, refl)
load_managed_objects-keeps now ((path, i) ∷ objects) m = ground (
  arith,
  load_managed_objects-keeps now objects
      (load_device now path i.device (load_adapter path i.adapter m)),
)

-- A manager that is ready, whose registry is `r`.
abbrev pub IsReady : BluetoothManager → Type 0
IsReady m = (is_some m.bus ≡ true) × (m.initialized ≡ true)

start_failed-IsLost :
    (clock : Clock) (e : Text) (m : BluetoothManager) {r : HealthRegistry}
    → m.health ≡ some r
    → IsLost (start_failed clock e m)
unfolding observe_bluetooth
start_failed-IsLost clock e m {r} watched =
    let lost = unavailable-status clock (some dbus_unavailable) (some e) (some (codes "bluez")) r in
    record { no_bus = refl; not_ready = refl; seen = rw (watched, lost) }

started-meaning :
    (s : Startup) (objects : Listing) (m : BluetoothManager) {r : HealthRegistry}
    → m.health ≡ some r
    → is_some m.bus ≡ true
    → IsReady (started s objects m) ⊎ IsLost (started s objects m)
unfolding observe_bluetooth close_pairing_window
started-meaning s (unlisted e) m watched up = inr (start_failed-IsLost s.clock e m watched)
started-meaning s (listed objects) m watched up =
    inl (ground (arith, load_managed_objects-keeps s.now objects m), refl)

initialize-meaning :
    (s : Startup) (m : BluetoothManager) {r : HealthRegistry}
    → m.health ≡ some r
    → IsReady (initialize s m) ⊎ IsLost (initialize s m)
unfolding initialize
initialize-meaning s m watched = go s.connection
  where
    go : (c : Connection) → IsReady (connected_start s c m) ⊎ IsLost (connected_start s c m)
    go (refused e) = inr (start_failed-IsLost s.clock e m watched)
    go (connected_to bus) = started-meaning s s.objects (subscribed bus m) watched refl

IsLost-still :
    (clock : Clock) (detail : Option Text) (m : BluetoothManager)
    → IsLost m
    → IsLost (observe_bluetooth clock HealthState.unavailable (some dbus_unavailable) detail m)
unfolding observe_bluetooth
IsLost-still clock detail m v = elim (Option-cases m.health) [
  | inl e ↦ let h = v.seen in ground (arith, e)
  | inr (r, e) ↦
      let lost = unavailable-status clock (some dbus_unavailable) detail (some (codes "bluez")) r in
      record { no_bus = v.no_bus; not_ready = v.not_ready; seen = rw (e, lost) }
]

-- With a health registry, an attempt to recover D-Bus returns true with the manager connected
-- and ready, or false with no bus, not ready, and the status of the bridge `unavailable`.
pub recover_dbus-meaning :
    (s : Startup) (m : BluetoothManager) {r : HealthRegistry}
    → m.health ≡ some r
    → (((recover_dbus s m).0 ≡ true) × IsReady (recover_dbus s m).1)
      ⊎ (((recover_dbus s m).0 ≡ false) × IsLost (recover_dbus s m).1)
unfolding recover_dbus
recover_dbus-meaning s m watched = elim (Bool-cases (is_some m.bus && m.initialized)) [
  | inl ready ↦ ground (arith, ready)
  | inr lost ↦ elim (initialize-meaning s m watched) [
    | inl up ↦ inl (ground (arith, lost, up.0), ground (arith, lost, up.0, up.1))
    | inr down ↦
        let gone = down.no_bus in
        let still =
          IsLost-still s.clock (some (codes "D-Bus reinitialization unavailable")) (initialize s m)
            down in
        inr (ground (arith, lost, gone), subst (λ n. IsLost n) (ground (arith, lost, gone)) still)
  ]
]

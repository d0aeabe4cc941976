-- ===== src/Bluetooth/Manager/Transport.antt =====
-- The connection to D-Bus (backend/bl_haos/bluetooth/manager.py): starting, losing it, and one
-- attempt to get it back.
pub mod Laws
use bl_haos_bridge.Prelude.{
  ℕ, Bool, true, false, ◌&&◌, List, [], ◌∷◌, if◌then◌else◌, Option, none, some, is_some,
}
use bl_haos_bridge.Dict.{Text, insert}
use bl_haos_bridge.Text.{codes}
use bl_haos_bridge.Health.Model.{HealthState, FailureClass, dbus_unavailable, dbus_disconnected}
use bl_haos_bridge.Health.{Clock, HealthRegistry, observe_component}
use bl_haos_bridge.Bluetooth.Manager.Model.{BluetoothManager, notify}
use bl_haos_bridge.Bluetooth.Manager.Model
use bl_haos_bridge.Bluetooth.Manager.Table.{
  Interfaces, new_device, new_adapter, add_adapter, count_object,
}
use bl_haos_bridge.Bluetooth.Device.Model.{DeviceProperties}
use bl_haos_bridge.Bluetooth.Adapter.{AdapterProperties}
use bl_haos_bridge.Bluetooth.Manager.Pairing.{AdapterReplies, close_pairing_window}

abbrev pub component_bluetooth : Text
component_bluetooth = codes "bluetooth"

-- With no registry nothing is observed.
abbrev observed_in :
    Clock
    → HealthState
    → Option FailureClass
    → Option Text
    → Option HealthRegistry
    → Option HealthRegistry
observed_in clock state failure detail none = none
observed_in clock state failure detail (some r) =
    some (
      observe_component clock component_bluetooth state true failure detail (some (codes "bluez"))
        r)

pub observe_bluetooth :
    Clock → HealthState → Option FailureClass → Option Text → BluetoothManager → BluetoothManager
unfolding observe_component
observe_bluetooth clock state failure detail m = record m {
  health = observed_in clock state failure detail m.health;
}

-- A message that is empty counts as missing.
abbrev detail_or_default : Option Text → Option Text
detail_or_default (some (c ∷ s)) = some (c ∷ s)
detail_or_default _ = some (codes "D-Bus transport disconnected")

pub mark_dbus_disconnected : Clock → Option Text → BluetoothManager → BluetoothManager
unfolding observe_bluetooth notify
mark_dbus_disconnected clock detail m = notify (Model.dbus_disconnected detail) (
    observe_bluetooth clock HealthState.unavailable (some dbus_disconnected)
      (detail_or_default detail)
      (record m { bus = none; initialized = false; adapters = []; devices = [] }))

-- An object that D-Bus lists takes its place in the tables; no listener is told.
abbrev load_adapter : Text → Option AdapterProperties → BluetoothManager → BluetoothManager
load_adapter path none m = m
load_adapter path (some p) m = add_adapter path p m

abbrev load_device : ℕ → Text → Option DeviceProperties → BluetoothManager → BluetoothManager
load_device now path none m = m
load_device now path (some p) m = record (count_object m) {
  devices = insert path (new_device now path p m) m.devices;
}

pub load_managed_objects : ℕ → List (Text × Interfaces) → BluetoothManager → BluetoothManager
unfolding add_adapter new_device
load_managed_objects now [] m = m
load_managed_objects now ((path, i) ∷ objects) m =
    load_managed_objects now objects (load_device now path i.device (load_adapter path i.adapter m))

-- What the start meets: the number of the connection, or the message that it was refused with, and
-- the objects that D-Bus lists, or its error. The registration of the agent and of the match rules
-- may fail with no effect.
pub data Connection : Type 0 where
  connected_to : ℕ → Connection
  refused : Text → Connection

pub data Listing : Type 0 where
  listed : List (Text × Interfaces) → Listing
  unlisted : Text → Listing

pub record Startup : Type 0 where
  pub connection : Connection
  pub objects : Listing
  pub pairable : AdapterReplies
  pub now : ℕ
  pub clock : Clock

-- The `except` of `initialize`.
abbrev pub start_failed : Clock → Text → BluetoothManager → BluetoothManager
start_failed clock e m =
    observe_bluetooth clock HealthState.unavailable (some dbus_unavailable) (some e)
      (record m { bus = none; initialized = false })

abbrev started : Startup → Listing → BluetoothManager → BluetoothManager
started s (unlisted e) m = start_failed s.clock e m
started s (listed objects) m =
    observe_bluetooth s.clock HealthState.healthy none none
      (record (close_pairing_window s.pairable (load_managed_objects s.now objects m)) {
        initialized = true;
      })

-- `_subscribe_signals`: the handler is added once to a connection.
abbrev subscribed : ℕ → BluetoothManager → BluetoothManager
subscribed bus m = record m { bus = some bus; signal_bus = some bus }

abbrev connected_start : Startup → Connection → BluetoothManager → BluetoothManager
connected_start s (refused e) m = start_failed s.clock e m
connected_start s (connected_to bus) m = started s s.objects (subscribed bus m)

pub initialize : Startup → BluetoothManager → BluetoothManager
unfolding observe_bluetooth load_managed_objects close_pairing_window
initialize s m = connected_start s s.connection m

abbrev recovered : Clock → BluetoothManager → Bool × BluetoothManager
recovered clock m = if is_some m.bus then (true, m) else (
  false,
  observe_bluetooth clock HealthState.unavailable (some dbus_unavailable)
      (some (codes "D-Bus reinitialization unavailable")) m,
)

pub recover_dbus : Startup → BluetoothManager → Bool × BluetoothManager
unfolding initialize observe_bluetooth
recover_dbus s m =
    if is_some m.bus && m.initialized then (true, m) else recovered s.clock (initialize s m)

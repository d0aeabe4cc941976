-- ===== src/Bluetooth/Manager/Model.antt =====
-- The state of the manager (backend/bl_haos/bluetooth/manager.py: BluetoothManager), and the events
-- that its listeners hear.
use bl_haos_bridge.Prelude.{
  ℕ, Bool, false, ◌&&◌, not, List, [], ◌∷◌, ◌++◌, map, ◌==◌, if◌then◌else◌, Option, none, some,
}
use bl_haos_bridge.Dict.{Text, Dict, lookup, insert}
use bl_haos_bridge.Health.{HealthRegistry}
use bl_haos_bridge.Bluetooth.Device.Model.{BluetoothDevice, DeviceInfo}
use bl_haos_bridge.Bluetooth.Adapter.{BluetoothAdapter, AdapterInfo}

pub data Event : Type 0 where
  adapter_added adapter_updated : AdapterInfo → Event
  adapter_removed device_removed : Text → Event
  device_discovered device_updated : DeviceInfo → Event
  dbus_disconnected : Option Text → Event

-- `bus` is the number of the connection, for `is`. `connection_locks` says of each lock whether it
-- is held. The listeners are callables; here each has a number, and `sent` lists what they were
-- called with. `next_object` is the number of the next device object.
pub record BluetoothManager : Type 0 where
  pub bus : Option ℕ
  pub signal_bus : Option ℕ
  pub adapters : Dict BluetoothAdapter
  pub devices : Dict BluetoothDevice
  pub connection_locks : Dict Bool
  pub listeners : List ℕ
  pub initialized : Bool
  pub health : Option HealthRegistry
  pub pairing_address : Option Text
  pub pairing_pin : Option Text
  pub pairing_expires_at : ℕ
  pub next_object : ℕ
  pub sent : List (ℕ × Event)

unfoldable pub init : Option HealthRegistry → BluetoothManager
init health = record {
  bus = none;
  signal_bus = none;
  adapters = [];
  devices = [];
  connection_locks = [];
  listeners = [];
  initialized = false;
  health = health;
  pairing_address = none;
  pairing_pin = none;
  pairing_expires_at = 0;
  next_object = 0;
  sent = [];
}

unfoldable pub add_event_listener : ℕ → BluetoothManager → BluetoothManager
add_event_listener listener m = record m { listeners = m.listeners ++ listener ∷ [] }

-- Every listener is called; what one raises is swallowed.
unfoldable pub notify : Event → BluetoothManager → BluetoothManager
notify event m = record m { sent = m.sent ++ map (λ l. (l, event)) m.listeners }

-- `self.devices[path] = device`
abbrev pub put_device : Text → BluetoothDevice → BluetoothManager → BluetoothManager
put_device path d m = record m { devices = insert path d m.devices }

abbrev has_object : ℕ → Option BluetoothDevice → Bool
has_object object none = false
has_object object (some d) = d.object == object && not d.detached

-- `self.devices.get(dev.path) is dev and not dev.detached`, for an object that a caller holds.
unfoldable pub is_current : BluetoothDevice → BluetoothManager → Bool
is_current dev m = has_object dev.object (lookup dev.path m.devices)

abbrev same_object : BluetoothDevice → Option BluetoothDevice → BluetoothDevice
same_object dev none = dev
same_object dev (some d) = if d.object == dev.object then d else dev

-- The fields of the object that a caller holds: those of the table while it is there.
unfoldable pub held : BluetoothDevice → BluetoothManager → BluetoothDevice
held dev m = same_object dev (lookup dev.path m.devices)

abbrev write_object :
    BluetoothDevice
    → (BluetoothDevice → BluetoothDevice)
    → Option BluetoothDevice
    → BluetoothManager
    → BluetoothManager
write_object dev f none m = m
write_object dev f (some d) m = if d.object == dev.object then put_device dev.path (f d) m else m

-- A write to the object that a caller holds, which the table shows while it is there.
unfoldable pub write :
    BluetoothDevice → (BluetoothDevice → BluetoothDevice) → BluetoothManager → BluetoothManager
write dev f m = write_object dev f (lookup dev.path m.devices) m

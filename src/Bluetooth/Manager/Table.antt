-- ===== src/Bluetooth/Manager/Table.antt =====
-- The tables of adapters and devices, and the D-Bus signals that change them
-- (backend/bl_haos/bluetooth/manager.py).
pub mod Laws
pub mod Invariant
use bl_haos_bridge.Prelude.{
  ℕ, ◌+◌, Bool, true, false, not, ◌&&◌, ◌||◌, List, [], ◌∷◌, map, select, if◌then◌else◌, Option,
  none, some, is_some, ◌>>=◌,
}
use bl_haos_bridge.Dict.{Text, Dict, lookup, insert, erase}
use bl_haos_bridge.Text.{text_eq}
use bl_haos_bridge.Address.{normalize_address}
use bl_haos_bridge.Health.Model.{SpeakerState, HealthState, FailureClass}
use bl_haos_bridge.Health.{Clock, HealthRegistry, observe_speaker}
use bl_haos_bridge.Bluetooth.Device.Model.{DeviceProperties, BluetoothDevice, DeviceInfo}
use bl_haos_bridge.Bluetooth.Device.{
  address, trusted, paired, mark_detached, update_properties, to_info,
}
use bl_haos_bridge.Bluetooth.Adapter
use bl_haos_bridge.Bluetooth.Adapter.{AdapterProperties, BluetoothAdapter, AdapterInfo}
use bl_haos_bridge.Bluetooth.Manager.Model.{
  BluetoothManager, Event, adapter_added, adapter_updated, adapter_removed, device_removed,
  device_discovered, device_updated, notify, put_device,
}

-- The two interfaces that the manager reads of an object; others are ignored.
pub record Interfaces : Type 0 where
  pub adapter : Option AdapterProperties
  pub device : Option DeviceProperties

pub record RemovedInterfaces : Type 0 where
  pub adapter : Bool
  pub device : Bool

-- `BluetoothDevice(self.bus, path, properties)`, with the manager that has counted it.
unfoldable pub new_device : ℕ → Text → DeviceProperties → BluetoothManager → BluetoothDevice
new_device now path properties m = record {
  object = m.next_object;
  bus = is_some m.bus;
  path = path;
  properties = properties;
  last_seen = now;
  detached = false;
}

abbrev pub count_object : BluetoothManager → BluetoothManager
count_object m = record m { next_object = m.next_object + 1 }

pub new_adapter : Text → AdapterProperties → BluetoothManager → BluetoothAdapter
new_adapter path properties m = record { bus = is_some m.bus; path = path; properties = properties }

pub is_known_speaker : BluetoothDevice → Bool
is_known_speaker d = trusted d || paired d

-- An offline record for the same address at another object path.
abbrev pub is_superseded : BluetoothDevice → Text × BluetoothDevice → Bool
is_superseded d e = not (text_eq e.0 d.path) && e.1.detached && text_eq (address e.1) (address d)

pub drop_detached_duplicates : BluetoothDevice → BluetoothManager → BluetoothManager
drop_detached_duplicates d m = record m {
  devices = select (λ e. not (is_superseded d e)) m.devices;
}

-- A new device takes its place in the table.
unfoldable pub add_device : ℕ → Text → DeviceProperties → BluetoothManager → BluetoothManager
unfolding new_device drop_detached_duplicates
add_device now path properties m =
    let d = new_device now path properties m in
    put_device path d (drop_detached_duplicates d (count_object m))

unfoldable pub add_adapter : Text → AdapterProperties → BluetoothManager → BluetoothManager
unfolding new_adapter
add_adapter path properties m = record m {
  adapters = insert path (new_adapter path properties m) m.adapters;
}

abbrev adapter_interface_added :
    Text → Option AdapterProperties → BluetoothManager → BluetoothManager
adapter_interface_added path none m = m
adapter_interface_added path (some properties) m =
    notify (adapter_added (Adapter.to_info (new_adapter path properties m)))
      (add_adapter path properties m)

abbrev device_interface_added :
    ℕ → Text → Option DeviceProperties → BluetoothManager → BluetoothManager
device_interface_added now path none m = m
device_interface_added now path (some properties) m =
    notify (device_discovered (to_info (new_device now path properties m)))
      (add_device now path properties m)

pub on_interfaces_added : ℕ → Text → Interfaces → BluetoothManager → BluetoothManager
unfolding new_adapter new_device add_adapter add_device notify
on_interfaces_added now path interfaces m =
    device_interface_added now path interfaces.device
      (adapter_interface_added path interfaces.adapter m)

abbrev put_health : Option HealthRegistry → BluetoothManager → BluetoothManager
put_health none m = m
put_health (some r) m = record m { health = some r }

-- A malformed address is not observed.
pub observe_speaker_offline : Clock → BluetoothDevice → BluetoothManager → BluetoothManager
observe_speaker_offline clock d m =
    put_health
      (m.health >>= λ r. normalize_address (address d) >>= λ a.
        observe_speaker clock a SpeakerState.disconnected none none 0 none r)
      m

abbrev adapter_interface_removed :
    Text → Option BluetoothAdapter → BluetoothManager → BluetoothManager
adapter_interface_removed path none m = m
adapter_interface_removed path (some a) m =
    notify (adapter_removed path) (record m { adapters = erase path m.adapters })

-- A known speaker is kept as an offline record; any other device is dropped.
pub device_withdrawn : Clock → Text → Option BluetoothDevice → BluetoothManager → BluetoothManager
unfolding is_known_speaker mark_detached notify observe_speaker_offline
device_withdrawn clock path none m = m
device_withdrawn clock path (some d) m =
    if is_known_speaker d
    then notify (device_updated (to_info (mark_detached d)))
        (observe_speaker_offline clock (mark_detached d) (put_device path (mark_detached d) m))
    else notify (device_removed path) (record m { devices = erase path m.devices })

abbrev pub without_adapter : Text → RemovedInterfaces → BluetoothManager → BluetoothManager
without_adapter path interfaces m =
    if interfaces.adapter then adapter_interface_removed path (lookup path m.adapters) m else m

unfoldable pub on_interfaces_removed :
    Clock → Text → RemovedInterfaces → BluetoothManager → BluetoothManager
unfolding device_withdrawn notify
on_interfaces_removed clock path interfaces m =
    let m' = without_adapter path interfaces m in
    if interfaces.device then device_withdrawn clock path (lookup path m'.devices) m' else m'

-- A change of a device that is not in the table adds it.
pub device_changed :
    ℕ → Text → DeviceProperties → Option BluetoothDevice → BluetoothManager → BluetoothManager
unfolding notify update_properties new_device add_device
device_changed now path changed (some d) m =
    let d' = update_properties now changed d in
    notify (device_updated (to_info d')) (put_device path d' m)
device_changed now path changed none m =
    notify (device_discovered (to_info (new_device now path changed m)))
      (add_device now path changed m)

pub adapter_changed :
    Text → AdapterProperties → Option BluetoothAdapter → BluetoothManager → BluetoothManager
unfolding notify Adapter.update_properties
adapter_changed path changed none m = m
adapter_changed path changed (some a) m =
    let a' = Adapter.update_properties changed a in
    notify (adapter_updated (Adapter.to_info a'))
      (record m { adapters = insert path a' m.adapters })

-- The messages that the handler reads; what it ignores is `ignored`.
pub data Message : Type 0 where
  interfaces_added : Text → Interfaces → Message
  interfaces_removed : Text → RemovedInterfaces → Message
  adapter_properties_changed : Text → AdapterProperties → Message
  device_properties_changed : Text → DeviceProperties → Message
  ignored : Message

pub handle_dbus_message : ℕ → Clock → Message → BluetoothManager → BluetoothManager
unfolding on_interfaces_added on_interfaces_removed adapter_changed device_changed
handle_dbus_message now clock (interfaces_added path interfaces) m =
    on_interfaces_added now path interfaces m
handle_dbus_message now clock (interfaces_removed path interfaces) m =
    on_interfaces_removed clock path interfaces m
handle_dbus_message now clock (adapter_properties_changed path changed) m =
    adapter_changed path changed (lookup path m.adapters) m
handle_dbus_message now clock (device_properties_changed path changed) m =
    device_changed now path changed (lookup path m.devices) m
handle_dbus_message now clock ignored m = m

unfoldable pub get_adapters : BluetoothManager → List AdapterInfo
get_adapters m = map (λ e. Adapter.to_info e.1) m.adapters

unfoldable pub get_devices : Bool → BluetoothManager → List DeviceInfo
get_devices audio_only m =
    let devices = map (λ (e : Text × BluetoothDevice). to_info e.1) m.devices in
    if audio_only then select (λ d. d.is_audio_sink) devices else devices

-- A record that is malformed has no address.
abbrev pub has_address : Text → Text → Bool
has_address target a = is_text (normalize_address a)
  where
    is_text : Option Text → Bool
    is_text none = false
    is_text (some b) = text_eq b target

unfoldable pub find_device : Text → Dict BluetoothDevice → Option BluetoothDevice
find_device target [] = none
find_device target ((_, d) ∷ devices) =
    if has_address target (address d) then some d else find_device target devices

-- The outer `none` is the ValueError of a malformed address.
unfoldable pub get_device_by_address : Text → BluetoothManager → Option (Option BluetoothDevice)
unfolding find_device
get_device_by_address addr m = do
  target ← normalize_address addr
  some (find_device target m.devices)

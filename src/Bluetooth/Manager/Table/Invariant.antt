-- ===== src/Bluetooth/Manager/Table/Invariant.antt =====
-- The invariant of the table of devices (backend/bl_haos/bluetooth/manager.py).
use bl_haos_bridge.Prelude.{
  ℕ, ◌+◌, ◌<◌, ◌≡◌, refl, inl, inr, arith, Bool, not, List, [], ◌∷◌, All, select, Option, none,
  some, Option-cases, Bool-cases,
}
use bl_haos_bridge.Dict.{Text, Dict, lookup, lookup-All, insert-All, erase-All}
use bl_haos_bridge.Health.{Clock}
use bl_haos_bridge.Bluetooth.Device.Model.{DeviceProperties, BluetoothDevice}
use bl_haos_bridge.Bluetooth.Device.{mark_detached, update_properties}
use bl_haos_bridge.Bluetooth.Manager.Model.{BluetoothManager, notify, put_device}
use bl_haos_bridge.Bluetooth.Manager.Table.{
  RemovedInterfaces, Message, new_device, add_device, is_superseded, on_interfaces_added,
  on_interfaces_removed, device_changed, handle_dbus_message, is_known_speaker, device_withdrawn,
  without_adapter, device_interface_added, adapter_interface_added, adapter_changed, add_adapter,
  drop_detached_duplicates, interfaces_added, interfaces_removed, adapter_properties_changed,
  device_properties_changed, ignored,
}
use bl_haos_bridge.Bluetooth.Adapter.{AdapterProperties, BluetoothAdapter}
use bl_haos_bridge.Bluetooth.Manager.Table.Laws.{offline-devices, without_adapter-keeps}

select-All {ℓ κ} :
    {A : Type ℓ} (P : A → Type κ) (p : A → Bool) (xs : List A) → All P xs → All P (select p xs)
select-All P p [] h = h
select-All P p (x ∷ xs) h = ground (arith, select-All P p xs h.1)

-- The records stand under their own paths, and their objects were all counted.
abbrev pub IsEntry : ℕ → Text × BluetoothDevice → Type 0
IsEntry n e = (e.0 ≡ e.1.path) × (e.1.object < n)

abbrev pub IsTable : BluetoothManager → Type 0
IsTable m = All (IsEntry m.next_object) m.devices

All-later : (n : ℕ) (ds : Dict BluetoothDevice) → All (IsEntry n) ds → All (IsEntry (n + 1)) ds
All-later n [] v = tt
All-later n (e ∷ ds) v = ((v.0.0, omega arith), All-later n ds v.1)

pub add_device-IsTable :
    (now : ℕ) (path : Text) (properties : DeviceProperties) (m : BluetoothManager)
    → IsTable m
    → IsTable (add_device now path properties m)
unfolding add_device new_device drop_detached_duplicates
add_device-IsTable now path properties m v =
    let d = new_device now path properties m in
    insert-All (IsEntry (m.next_object + 1)) path d _
      (select-All (IsEntry (m.next_object + 1)) (λ e. not (is_superseded d e)) m.devices
        (All-later m.next_object m.devices v))
      (refl, omega arith)

-- A record is replaced by one of the same object and path.
replace-IsTable :
    (path : Text) (d d' : BluetoothDevice) (m : BluetoothManager)
    → IsTable m
    → lookup path m.devices ≡ some d
    → d'.path ≡ d.path
    → d'.object ≡ d.object
    → IsTable (put_device path d' m)
replace-IsTable path d d' m v there p o =
    let (at, counted) = lookup-All (IsEntry m.next_object) path m.devices v there in
    insert-All (IsEntry m.next_object) path d' m.devices v (ground arith, ground arith)

device_changed-IsTable :
    (now : ℕ) (path : Text) (changed : DeviceProperties) (m : BluetoothManager)
    → IsTable m
    → IsTable (device_changed now path changed (lookup path m.devices) m)
unfolding device_changed notify update_properties
device_changed-IsTable now path changed m v = elim (Option-cases (lookup path m.devices)) [
  | inl e ↦ rw e (add_device-IsTable now path changed m v)
  | inr (d, e) ↦ rw e (replace-IsTable path d (update_properties now changed d) m v e refl refl)
]

device_withdrawn-IsTable :
    (clock : Clock) (path : Text) (m : BluetoothManager)
    → IsTable m
    → IsTable (device_withdrawn clock path (lookup path m.devices) m)
unfolding device_withdrawn notify mark_detached
device_withdrawn-IsTable clock path m v = elim (Option-cases (lookup path m.devices)) [
  | inl e ↦ rw e v
  | inr (d, e) ↦ elim (Bool-cases (is_known_speaker d)) [
    | inl known ↦
        let d' = mark_detached d in
        let (same, counted) = offline-devices clock d' (put_device path d' m) in
        rw (e, known, same, counted) (replace-IsTable path d d' m v e refl refl)
    | inr noise ↦ rw (e, noise) (erase-All (IsEntry m.next_object) path m.devices v)
  ]
]

device_interface_added-IsTable :
    (now : ℕ) (path : Text) (device : Option DeviceProperties) (m : BluetoothManager)
    → IsTable m
    → IsTable (device_interface_added now path device m)
unfolding notify
device_interface_added-IsTable now path none m v = v
device_interface_added-IsTable now path (some properties) m v =
    add_device-IsTable now path properties m v

adapter_interface_added-IsTable :
    (path : Text) (adapter : Option AdapterProperties) (m : BluetoothManager)
    → IsTable m
    → IsTable (adapter_interface_added path adapter m)
unfolding notify add_adapter
adapter_interface_added-IsTable path none m v = v
adapter_interface_added-IsTable path (some properties) m v = v

without_adapter-IsTable :
    (path : Text) (interfaces : RemovedInterfaces) (m : BluetoothManager)
    → IsTable m
    → IsTable (without_adapter path interfaces m)
without_adapter-IsTable path interfaces m v =
    let (same, counted) = without_adapter-keeps path interfaces m in rw (same, counted) v

adapter_changed-IsTable :
    (path : Text) (changed : AdapterProperties) (a : Option BluetoothAdapter) (m : BluetoothManager)
    → IsTable m
    → IsTable (adapter_changed path changed a m)
unfolding adapter_changed notify
adapter_changed-IsTable path changed none m v = v
adapter_changed-IsTable path changed (some a) m v = v

-- Every D-Bus message keeps each record of the table of devices under its own object path, and
-- each of its objects among those that were counted, so that a new object is never taken for an
-- old one.
pub handle_dbus_message-IsTable :
    (now : ℕ) (clock : Clock) (message : Message) (m : BluetoothManager)
    → IsTable m
    → IsTable (handle_dbus_message now clock message m)
unfolding handle_dbus_message on_interfaces_added on_interfaces_removed
handle_dbus_message-IsTable now clock (interfaces_added path interfaces) m v =
    device_interface_added-IsTable now path interfaces.device
      (adapter_interface_added path interfaces.adapter m)
      (adapter_interface_added-IsTable path interfaces.adapter m v)
handle_dbus_message-IsTable now clock (interfaces_removed path interfaces) m v =
    let v' = without_adapter-IsTable path interfaces m v in
    elim (Bool-cases interfaces.device) [
      | inl e ↦ rw e (device_withdrawn-IsTable clock path (without_adapter path interfaces m) v')
      | inr e ↦ rw e v'
    ]
handle_dbus_message-IsTable now clock (adapter_properties_changed path changed) m v =
    adapter_changed-IsTable path changed (lookup path m.adapters) m v
handle_dbus_message-IsTable now clock (device_properties_changed path changed) m v =
    device_changed-IsTable now path changed m v
handle_dbus_message-IsTable now clock ignored m v = v

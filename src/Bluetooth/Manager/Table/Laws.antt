-- ===== src/Bluetooth/Manager/Table/Laws.antt =====
-- What the D-Bus signals leave in the table of devices (backend/bl_haos/bluetooth/manager.py).
use bl_haos_bridge.Prelude.{
  ℕ, ◌≡◌, inl, inr, arith, Bool, false, not, ◌||◌, List, [], ◌∷◌, All, select, if◌then◌else◌, ite,
  Option, none, some, Bool-cases,
}
use bl_haos_bridge.Dict.{
  Text, Text-discrete, lookup, lookup-insert, lookup-erase, lookup-insert_self, insert-All,
}
use bl_haos_bridge.Health.{Clock}
use bl_haos_bridge.Bluetooth.Device.Model.{DeviceProperties, BluetoothDevice}
use bl_haos_bridge.Bluetooth.Device.{trusted, paired, mark_detached}
use bl_haos_bridge.Bluetooth.Manager.Model.{BluetoothManager, notify, put_device}
use bl_haos_bridge.Bluetooth.Manager.Table.{
  RemovedInterfaces, new_device, add_device, is_superseded, on_interfaces_removed,
  observe_speaker_offline, is_known_speaker, device_withdrawn, without_adapter,
  drop_detached_duplicates,
}

select-not {ℓ} :
    {A : Type ℓ} (p : A → Bool) (xs : List A) → All (λ x. p x ≡ false) (select (λ x. not (p x)) xs)
select-not p [] = tt
select-not p (x ∷ xs) = elim (Bool-cases (p x)) [
  | inl e ↦ ground (arith, e, select-not p xs)
  | inr e ↦ ground (arith, e, select-not p xs)
]

pub offline-devices :
    (clock : Clock) (d : BluetoothDevice) (m : BluetoothManager)
    → ((observe_speaker_offline clock d m).devices ≡ m.devices)
      × ((observe_speaker_offline clock d m).next_object ≡ m.next_object)
unfolding observe_speaker_offline
offline-devices clock d m = ground arith

-- What becomes of the record of a device that BlueZ withdraws.
abbrev pub after_withdrawal : BluetoothDevice → Option BluetoothDevice
after_withdrawal d = if trusted d || paired d then some (mark_detached d) else none

pub without_adapter-keeps :
    (path : Text) (interfaces : RemovedInterfaces) (m : BluetoothManager)
    → ((without_adapter path interfaces m).devices ≡ m.devices)
      × ((without_adapter path interfaces m).next_object ≡ m.next_object)
unfolding notify
without_adapter-keeps path interfaces m = ground arith

device_withdrawn-devices :
    (clock : Clock) (path other : Text) (d : BluetoothDevice) (m : BluetoothManager)
    → lookup other (device_withdrawn clock path (some d) m).devices
      ≡ ite (Text-discrete path other) (after_withdrawal d) (lookup other m.devices)
unfolding device_withdrawn is_known_speaker notify
device_withdrawn-devices clock path other d m = elim (Bool-cases (trusted d || paired d)) [
  | inl known ↦ ground (
    arith,
    known,
    offline-devices clock (mark_detached d) (put_device path (mark_detached d) m),
    lookup-insert path other (mark_detached d) m.devices,
  )
  | inr noise ↦ ground (arith, noise, lookup-erase path other m.devices)
]

-- When BlueZ withdraws interfaces of an object that the table has, the table changes at that
-- path only, and only if the device interface went: a trusted or paired device stays as an
-- offline record, and any other is dropped.
pub on_interfaces_removed-devices :
    (clock : Clock) (path other : Text) (interfaces : RemovedInterfaces) (m : BluetoothManager)
    → {d : BluetoothDevice} → lookup path m.devices ≡ some d
    → lookup other (on_interfaces_removed clock path interfaces m).devices ≡ (
        if interfaces.device
        then ite (Text-discrete path other) (after_withdrawal d) (lookup other m.devices)
        else lookup other m.devices)
unfolding on_interfaces_removed
on_interfaces_removed-devices clock path other interfaces m {d} there =
    let m' = without_adapter path interfaces m in
    let (kept, _) = without_adapter-keeps path interfaces m in
    elim (Bool-cases interfaces.device) [
      | inl device ↦ ground (arith, device, kept, device_withdrawn-devices clock path other d m')
      | inr no_device ↦ ground (arith, no_device, kept)
    ]

-- A device that is added stands in the table under its path, and no offline record of the same
-- address is left at another path.
add_device-no_duplicates :
    (now : ℕ) (path : Text) (properties : DeviceProperties) (m : BluetoothManager)
    → (lookup path (add_device now path properties m).devices
        ≡ some (new_device now path properties m))
      × All
          (λ e. is_superseded (new_device now path properties m) e ≡ false)
          (add_device now path properties m).devices
unfolding add_device new_device drop_detached_duplicates
add_device-no_duplicates now path properties m =
    let d = new_device now path properties m in
    let kept = select (λ e. not (is_superseded d e)) m.devices in
    (
      lookup-insert_self path d kept,
      insert-All (λ e. is_superseded d e ≡ false) path d kept
          (select-not (is_superseded d) m.devices) (ground arith),
    )

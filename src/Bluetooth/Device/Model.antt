-- ===== src/Bluetooth/Device/Model.antt =====
-- The records of a device (backend/bl_haos/bluetooth/device.py and models.py). BlueZ's
-- documentation of org.bluez.Device1 fixes the type of each property; the source keeps those that
-- it was told in one dict.
use bl_haos_bridge.Prelude.{ℕ, Bool, List, Option}
use bl_haos_bridge.Dict.{Text}

-- `negsuc n` is -(n + 1).
pub data ℤ : Type 0 where
  pos : ℕ → ℤ
  negsuc : ℕ → ℤ

-- `none`: the dict has no such key.
pub record DeviceProperties : Type 0 where
  pub address : Option Text
  pub name : Option Text
  pub alias : Option Text
  pub adapter : Option Text
  pub icon : Option Text
  pub paired : Option Bool
  pub trusted : Option Bool
  pub connected : Option Bool
  pub blocked : Option Bool
  pub legacy_pairing : Option Bool
  pub rssi : Option ℤ
  pub tx_power : Option ℤ
  pub class_of_device : Option ℕ
  pub uuids : Option (List Text)
  pub percentage : Option ℕ

-- `object` tells two objects with the same fields apart, for the source's `is`. `bus` says whether
-- the device was made with a bus.
pub record BluetoothDevice : Type 0 where
  pub object : ℕ
  pub bus : Bool
  pub path : Text
  pub properties : DeviceProperties
  pub last_seen : ℕ
  pub detached : Bool

pub record DeviceInfo : Type 0 where
  pub path : Text
  pub adapter_path : Text
  pub adapter_name : Text
  pub address : Text
  pub name : Option Text
  pub alias : Text
  pub icon : Option Text
  pub paired : Bool
  pub trusted : Bool
  pub connected : Bool
  pub blocked : Bool
  pub legacy_pairing : Bool
  pub rssi : Option ℤ
  pub tx_power : Option ℤ
  pub class_of_device : Option ℕ
  pub uuids : List Text
  pub is_audio_sink : Bool
  pub device_type : Text
  pub battery_percentage : Option ℕ
  pub last_seen : ℕ
  pub detached : Bool

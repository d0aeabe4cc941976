-- ===== src/Bluetooth/Manager/Lookup.antt =====
-- Looking up a device, in the table or on D-Bus, and scanning
-- (backend/bl_haos/bluetooth/manager.py).
pub mod Laws
use bl_haos_bridge.Prelude.{
  ℕ, Bool, true, false, not, ◌&&◌, ◌||◌, List, [], ◌∷◌, ◌++◌, map, reverse, if◌then◌else◌, Option,
  none, some, is_some,
}
use bl_haos_bridge.Dict.{Text, Dict, lookup, insert, erase}
use bl_haos_bridge.Text.{codes, text_eq, upper, replace_char, lower, contains, starts_with}
use bl_haos_bridge.Address.{normalize_address, validate_adapter_name}
use bl_haos_bridge.Health.Model.{SpeakerState, FailureClass}
use bl_haos_bridge.Health.{Clock, HealthRegistry, observe_speaker}
use bl_haos_bridge.Bluetooth.Results.{
  Reply, replied, failed, operation_in_progress, value_error, runtime_error, Exception, Result, ok,
  raised, message,
}
use bl_haos_bridge.Bluetooth.Device.Model.{DeviceProperties, BluetoothDevice}
use bl_haos_bridge.Bluetooth.Device
use bl_haos_bridge.Bluetooth.Device.{ConnectReplies, contains_any}
use bl_haos_bridge.Bluetooth.Adapter
use bl_haos_bridge.Bluetooth.Adapter.{BluetoothAdapter, interface_name}
use bl_haos_bridge.Bluetooth.Manager.Model.{BluetoothManager, is_current, held, write}
use bl_haos_bridge.Bluetooth.Manager.Table.{
  new_device, add_device, find_device, get_device_by_address,
}
use bl_haos_bridge.Bluetooth.Manager.Coroutine.{
  World, M, returns, raises, ◌>>=◌, ◌>>◌, reads, updates, lifted, awaits, try_except, attempt,
  finally_do, timeout,
}

-- `normalize_address`, which raises.
abbrev pub checked_address : Text → M Text
checked_address addr = elim (normalize_address addr) [
  | none ↦ raises (value_error (codes "Invalid Bluetooth address"))
  | some a ↦ returns a
]

abbrev pub checked_adapter : Text → M Text
checked_adapter name = elim (validate_adapter_name name) [
  | none ↦ raises (value_error (codes "Invalid Bluetooth adapter"))
  | some n ↦ returns n
]

-- What D-Bus tells of a device at a path, if it knows one, and what other tasks do before the
-- answer is there.
pub record Query : Type 0 where
  pub now : ℕ
  pub properties : Text → Option DeviceProperties
  pub meanwhile : Text → BluetoothManager → BluetoothManager

abbrev pub path_on : Text → Text → Text
path_on adapter addr = adapter ++ codes "/" ++ codes "dev_" ++ replace_char b':' b'_' (upper addr)

abbrev live_or_new : ℕ → Text → DeviceProperties → Option BluetoothDevice → M BluetoothDevice
live_or_new now path properties none m =
    (ok (new_device now path properties m), add_device now path properties m)
live_or_new now path properties (some d) m =
    if d.detached
    then (ok (new_device now path properties m), add_device now path properties m)
    else (ok d, m)

-- The table after the answer: a live record that came meanwhile is kept, else a new one is made.
pub resolve : ℕ → Text → DeviceProperties → M BluetoothDevice
unfolding new_device add_device
resolve now path properties m = live_or_new now path properties (lookup path m.devices) m

abbrev found : BluetoothDevice → M (Option BluetoothDevice)
found d m = (ok (some d), m)

-- The first adapter at which D-Bus knows the device.
pub resolve_on : Query → Text → List Text → M (Option BluetoothDevice)
unfolding resolve
resolve_on q addr [] m = (ok none, m)
resolve_on q addr (adapter ∷ adapters) m =
    let path = path_on adapter addr in
    elim (q.properties path) [
      | none ↦ resolve_on q addr adapters (q.meanwhile path m)
      | some properties ↦ (resolve q.now path properties >>= found) (q.meanwhile path m)
    ]

abbrev pub adapter_paths : BluetoothManager → List Text
adapter_paths m = map (λ (e : Text × BluetoothAdapter). e.1.path) m.adapters

abbrev live_record : Option BluetoothDevice → Option BluetoothDevice
live_record none = none
live_record (some d) = if d.detached then none else some d

abbrev known_or_resolved : Query → Text → Option BluetoothDevice → M (Option BluetoothDevice)
known_or_resolved q a (some d) m = (ok (some d), m)
known_or_resolved q a none m =
    if is_some m.bus then resolve_on q a (adapter_paths m) m else (ok none, m)

unfoldable pub ensure_device : Query → Text → M (Option BluetoothDevice)
unfolding resolve_on find_device
ensure_device q addr = do
  a ← checked_address addr
  λ m. known_or_resolved q a (live_record (find_device a m.devices)) m

-- `s.endswith(part)`
abbrev ends_with : Text → Text → Bool
ends_with part s = starts_with (reverse part) (reverse s)

pub find_adapter : Text → Dict BluetoothAdapter → Option Text
unfolding interface_name starts_with
find_adapter name [] = none
find_adapter name ((path, a) ∷ adapters) =
    if text_eq (interface_name a) name || ends_with name a.path
    then some path
    else find_adapter name adapters

abbrev stop_on : Text → Option BluetoothAdapter → BluetoothManager → BluetoothManager
stop_on path none m = m
stop_on path (some a) m = record m {
  adapters = insert path (Adapter.stop_discovery replied a) m.adapters;
}

abbrev stop_at : Option Text → BluetoothManager → BluetoothManager
stop_at none m = m
stop_at (some path) m = stop_on path (lookup path m.adapters) m

abbrev stop_all : Dict BluetoothAdapter → Dict BluetoothAdapter
stop_all [] = []
stop_all ((path, a) ∷ adapters) = (path, Adapter.stop_discovery replied a) ∷ stop_all adapters

-- A name that is empty or None stops every adapter. `stop_discovery` swallows what D-Bus answers.
unfoldable pub stop_scan : Option Text → M (Unit {0})
unfolding find_adapter Adapter.stop_discovery
stop_scan none = updates (λ m. record m { adapters = stop_all m.adapters })
stop_scan (some []) = updates (λ m. record m { adapters = stop_all m.adapters })
stop_scan (some (c ∷ s)) = do
  name ← checked_adapter (c ∷ s)
  updates (λ m. stop_at (find_adapter name m.adapters) m)

abbrev start_result :
    Text
    → BluetoothManager
    → Result (Unit {0}) × BluetoothAdapter
    → Result (Unit {0}) × BluetoothManager
start_result path m (r, a) = (r, record m { adapters = insert path a m.adapters })

abbrev start_on : (Text → Reply × Reply) → Text → Option BluetoothAdapter → M (Unit {0})
start_on replies path none m = (ok tt, m)
start_on replies path (some a) m =
    start_result path m (Adapter.start_discovery (replies path).0 (replies path).1 a)

abbrev start_at : (Text → Reply × Reply) → Option Text → M (Unit {0})
start_at replies none m = (ok tt, m)
start_at replies (some path) m = start_on replies path (lookup path m.adapters) m

-- The adapters in turn, up to one that raises.
pub start_each : (Text → Reply × Reply) → List Text → M (Unit {0})
unfolding Adapter.start_discovery
start_each replies [] = returns tt
start_each replies (path ∷ paths) = start_at replies (some path) >> start_each replies paths

unfoldable pub start_scan : (Text → Reply × Reply) → Option Text → M (Unit {0})
unfolding start_each find_adapter Adapter.start_discovery
start_scan replies none m = start_each replies (map (λ e. e.0) m.adapters) m
start_scan replies (some []) m = start_each replies (map (λ e. e.0) m.adapters) m
start_scan replies (some (c ∷ s)) m =
    (checked_adapter (c ∷ s) >>= λ name m. start_at replies (find_adapter name m.adapters) m) m

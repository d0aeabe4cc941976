-- ===== src/Tests/Bluetooth/Link.antt =====
-- Runs of `connect_device`.
use bl_haos_bridge.Prelude.{◌≡◌, refl, Bool, true, false, some}
use bl_haos_bridge.Dict.{lookup}
use bl_haos_bridge.Text.{codes, lower}
use bl_haos_bridge.Address.{normalize_address, validate_adapter_name}
use bl_haos_bridge.Bluetooth.Results.{ok, raised, dbus_error}
use bl_haos_bridge.Bluetooth.Device.Model.{BluetoothDevice}
use bl_haos_bridge.Bluetooth.Device
use bl_haos_bridge.Bluetooth.Device.{contains_any}
use bl_haos_bridge.Bluetooth.Manager.Model.{BluetoothManager}
use bl_haos_bridge.Bluetooth.Manager.Lookup.{ensure_device}
use bl_haos_bridge.Bluetooth.Manager.Link.{connect_device, stale_markers, is_held}
use bl_haos_bridge.Bluetooth.Manager.Link.Laws.{IsLive, Resolves, connect_device-IsLive}
use bl_haos_bridge.Bluetooth.Manager.Link.Lock.{connect_device-keeps_lock}
use bl_haos_bridge.Bluetooth.Manager.Link.Stale.{connect_device-stale}
use bl_haos_bridge.Tests.Bluetooth.Data.{
  speaker, speaker_address, at_ease, good_run, gone_run, gone_message,
}

abbrev connected_state : BluetoothManager
connected_state = (connect_device good_run false speaker_address at_ease).1

connects : connect_device good_run false speaker_address at_ease ≡ (ok true, connected_state)
unfolding connect_device normalize_address bl_haos_bridge.Text.strip bl_haos_bridge.Text.is_space
    bl_haos_bridge.Text.replace_char bl_haos_bridge.Dict.Text-discrete validate_adapter_name lookup
    bl_haos_bridge.Dict.insert
connects = refl

connect_device-IsLive_example :
    ◌≡◌ {A = Bool} true true
    × (dev : BluetoothDevice) × Resolves good_run speaker_address at_ease dev
    × IsLive dev connected_state
connect_device-IsLive_example =
    connect_device-IsLive good_run false speaker_address at_ease {b = true} {m' = connected_state}
      connects

abbrev gone_state : BluetoothManager
gone_state = (connect_device gone_run false speaker_address at_ease).1

goes :
    connect_device gone_run false speaker_address at_ease
    ≡ (raised (dbus_error gone_message), gone_state)
unfolding connect_device normalize_address bl_haos_bridge.Text.strip bl_haos_bridge.Text.is_space
    bl_haos_bridge.Text.replace_char bl_haos_bridge.Dict.Text-discrete validate_adapter_name lookup
    bl_haos_bridge.Health.observe_speaker
goes = refl

gone_is_stale : contains_any stale_markers (lower gone_message) ≡ true
unfolding bl_haos_bridge.Text.contains lower
gone_is_stale = refl

connect_device-stale_example :
    (dev : BluetoothDevice) × Resolves gone_run speaker_address at_ease dev
    × (¬ IsLive dev gone_state)
connect_device-stale_example =
    connect_device-stale gone_run false speaker_address gone_message at_ease {m' = gone_state}
      gone_is_stale goes

speaker_address_valid : normalize_address speaker_address ≡ some speaker_address
unfolding normalize_address bl_haos_bridge.Text.strip bl_haos_bridge.Text.is_space
    bl_haos_bridge.Text.replace_char lower
speaker_address_valid = refl

speaker_found : ensure_device gone_run.query speaker_address at_ease ≡ (ok (some speaker), at_ease)
unfolding ensure_device normalize_address bl_haos_bridge.Text.strip bl_haos_bridge.Text.is_space
    bl_haos_bridge.Text.replace_char lower bl_haos_bridge.Dict.Text-discrete
speaker_found = refl

adapter_named : validate_adapter_name (Device.adapter_name speaker) ≡ some (codes "hci0")
unfolding validate_adapter_name Device.adapter_name bl_haos_bridge.Text.starts_with
adapter_named = refl

connect_device-keeps_lock_example :
    is_held (
      lookup
        (codes "hci0")
        (connect_device gone_run false speaker_address at_ease).1.connection_locks)
    ≡ is_held (lookup (codes "hci0") at_ease.connection_locks)
connect_device-keeps_lock_example =
    connect_device-keeps_lock gone_run false speaker_address at_ease speaker_address_valid
      speaker_found refl adapter_named

-- ===== src/Tests/Bluetooth/Table.antt =====
-- Runs of the table of devices and of the D-Bus connection.
use bl_haos_bridge.Prelude.{◌≡◌, ◌⊎◌, refl, arith, true, false, [], ite, none, some}
use bl_haos_bridge.Dict.{Text-discrete, lookup}
use bl_haos_bridge.Text.{codes, strip, lower}
use bl_haos_bridge.Bluetooth.Constants.{audio_service_short_uuids, a2dp_sink_uuid}
use bl_haos_bridge.Bluetooth.Device.{mark_detached, is_audio_uuid, contains_any}
use bl_haos_bridge.Bluetooth.Device.Laws.{is_audio_uuid_lem}
use bl_haos_bridge.Bluetooth.Manager.Table.{
  RemovedInterfaces, on_interfaces_removed, handle_dbus_message, interfaces_removed,
}
use bl_haos_bridge.Bluetooth.Manager.Table.Laws.{after_withdrawal, on_interfaces_removed-devices}
use bl_haos_bridge.Bluetooth.Manager.Table.Invariant.{IsTable, handle_dbus_message-IsTable}
use bl_haos_bridge.Bluetooth.Manager.Transport.{Startup, refused, unlisted, recover_dbus}
use bl_haos_bridge.Bluetooth.Manager.Transport.Laws.{IsReady, IsLost, recover_dbus-meaning}
use bl_haos_bridge.Tests.Bluetooth.Data.{
  speaker_path, trusted_speaker, with_speaker, at_ease, all_reply, ticking, watched_health,
}

abbrev device_gone : RemovedInterfaces
device_gone = record { adapter = false; device = true }

on_interfaces_removed-devices_example :
    lookup speaker_path
      (on_interfaces_removed ticking speaker_path device_gone
        (with_speaker trusted_speaker)).devices
    ≡ ite
        (Text-discrete speaker_path speaker_path)
        (after_withdrawal trusted_speaker)
        (some trusted_speaker)
unfolding lookup Text-discrete
on_interfaces_removed-devices_example =
    on_interfaces_removed-devices ticking speaker_path speaker_path device_gone
      (with_speaker trusted_speaker) refl

speaker_stays :
    lookup speaker_path
      (on_interfaces_removed ticking speaker_path device_gone
        (with_speaker trusted_speaker)).devices
    ≡ some (mark_detached trusted_speaker)
unfolding lookup on_interfaces_removed Text-discrete bl_haos_bridge.Address.normalize_address strip
    bl_haos_bridge.Text.is_space bl_haos_bridge.Text.replace_char lower
    bl_haos_bridge.Health.observe_speaker bl_haos_bridge.Dict.insert
speaker_stays = refl

noise_goes : (on_interfaces_removed ticking speaker_path device_gone at_ease).devices ≡ []
unfolding on_interfaces_removed lookup Text-discrete bl_haos_bridge.Dict.erase
noise_goes = refl

handle_dbus_message-IsTable_example :
    IsTable (handle_dbus_message 5 ticking (interfaces_removed speaker_path device_gone) at_ease)
handle_dbus_message-IsTable_example =
    handle_dbus_message-IsTable 5 ticking (interfaces_removed speaker_path device_gone) at_ease
      ((refl, omega arith), tt)

is_audio_uuid_lem_example :
    is_audio_uuid a2dp_sink_uuid
    ≡ contains_any audio_service_short_uuids (strip (lower a2dp_sink_uuid))
is_audio_uuid_lem_example = is_audio_uuid_lem a2dp_sink_uuid

abbrev no_bus : Startup
no_bus = record {
  connection = refused (codes "no such file");
  objects = unlisted (codes "no reply");
  pairable = all_reply;
  now = 5;
  clock = ticking;
}

recover_dbus-meaning_example :
    (((recover_dbus no_bus (record at_ease { bus = none })).0 ≡ true)
      × IsReady (recover_dbus no_bus (record at_ease { bus = none })).1)
    ⊎ (((recover_dbus no_bus (record at_ease { bus = none })).0 ≡ false)
        × IsLost (recover_dbus no_bus (record at_ease { bus = none })).1)
recover_dbus-meaning_example =
    recover_dbus-meaning no_bus (record at_ease { bus = none }) {r = watched_health} refl

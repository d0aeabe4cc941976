-- ===== src/Tests/Bluetooth/Data.antt =====
-- A manager with one adapter and one speaker, and worlds in which nothing interferes.
use bl_haos_bridge.Prelude.{true, false, [], ◌∷◌, none, some}
use bl_haos_bridge.Dict.{Text}
use bl_haos_bridge.Text.{codes}
use bl_haos_bridge.Health
use bl_haos_bridge.Health.{HealthRegistry, Clock}
use bl_haos_bridge.Bluetooth.Results.{replied, failed}
use bl_haos_bridge.Bluetooth.Device.Model.{DeviceProperties, BluetoothDevice}
use bl_haos_bridge.Bluetooth.Adapter.{BluetoothAdapter}
use bl_haos_bridge.Bluetooth.Manager.Model.{BluetoothManager}
use bl_haos_bridge.Bluetooth.Manager.Pairing.{AdapterReplies}
use bl_haos_bridge.Bluetooth.Manager.Coroutine.{World}
use bl_haos_bridge.Bluetooth.Manager.Lookup.{Query}
use bl_haos_bridge.Bluetooth.Manager.Link.{ConnectRun}
use bl_haos_bridge.Bluetooth.Manager.Trust.{PairRun}

abbrev pub speaker_address : Text
speaker_address = codes "10:20:30:40:50:60"

abbrev pub adapter_at : Text
adapter_at = codes "/org/bluez/hci0"

abbrev pub speaker_path : Text
speaker_path = codes "/org/bluez/hci0/dev_10_20_30_40_50_60"

abbrev pub no_properties : DeviceProperties
no_properties = record {
  address = none;
  name = none;
  alias = none;
  adapter = none;
  icon = none;
  paired = none;
  trusted = none;
  connected = none;
  blocked = none;
  legacy_pairing = none;
  rssi = none;
  tx_power = none;
  class_of_device = none;
  uuids = none;
  percentage = none;
}

abbrev pub speaker_properties : DeviceProperties
speaker_properties = record no_properties {
  address = some speaker_address;
  adapter = some adapter_at;
}

abbrev pub speaker : BluetoothDevice
speaker = record {
  object = 0;
  bus = true;
  path = speaker_path;
  properties = speaker_properties;
  last_seen = 0;
  detached = false;
}

abbrev pub trusted_speaker : BluetoothDevice
trusted_speaker = record speaker { properties = record speaker_properties { trusted = some true } }

abbrev pub adapter : BluetoothAdapter
adapter = record {
  bus = true;
  path = adapter_at;
  properties = record {
    address = none;
    name = none;
    alias = none;
    powered = some true;
    discoverable = none;
    discovering = none;
    pairable = none;
    class_of_device = none;
    uuids = none;
  };
}

abbrev pub watched_health : HealthRegistry
watched_health = record {
  components = [];
  speakers = [];
  lifecycle = Health.Model.healthy;
  listeners = [];
}

abbrev pub with_speaker : BluetoothDevice → BluetoothManager
with_speaker d = record {
  bus = some 1;
  signal_bus = some 1;
  adapters = (adapter_at, adapter) ∷ [];
  devices = (d.path, d) ∷ [];
  connection_locks = [];
  listeners = 7 ∷ [];
  initialized = true;
  health = some watched_health;
  pairing_address = none;
  pairing_pin = none;
  pairing_expires_at = 0;
  next_object = 1;
  sent = [];
}

abbrev pub at_ease : BluetoothManager
at_ease = with_speaker speaker

abbrev pub asked : BluetoothManager
asked = record at_ease {
  pairing_address = some speaker_address;
  pairing_pin = some (codes "1234");
  pairing_expires_at = 100;
}

abbrev pub all_reply : AdapterReplies
all_reply path = (replied, replied)

abbrev pub quiet : World
quiet = record { meanwhile = λ i m. m; cancels = λ i. false }

abbrev pub unknown : Query
unknown = record { now = 5; properties = λ path. none; meanwhile = λ path m. m }

abbrev pub ticking : Clock
ticking i = i

abbrev pub good_run : ConnectRun
good_run = record {
  world = quiet;
  query = unknown;
  replies = record { introspect = replied; connect = replied; connect_profile = replied };
  disconnect_reply = replied;
  trust_reply = replied;
  clock = ticking;
}

abbrev pub gone_message : Text
gone_message = codes "Unknown object"

-- BlueZ no longer has the object.
abbrev pub gone_run : ConnectRun
gone_run = record good_run {
  replies = record {
    introspect = replied;
    connect = failed gone_message;
    connect_profile = replied;
  };
}

abbrev pub pair_run : PairRun
pair_run = record {
  world = quiet;
  now = 10;
  opening = quiet;
  pairable = all_reply;
  closing = quiet;
  not_pairable = all_reply;
  query = λ i. unknown;
  adapter = all_reply;
  pair_introspect = replied;
  pair_reply = replied;
  connect = record { introspect = replied; connect = replied; connect_profile = replied };
  trust_reply = replied;
}

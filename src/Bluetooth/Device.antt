-- ===== src/Bluetooth/Device.antt =====
-- A Bluetooth device (backend/bl_haos/bluetooth/device.py): the record of its D-Bus properties,
-- what is read off them, and the calls that connect, pair and trust it.
pub mod Model
pub mod Laws
use bl_haos_bridge.Prelude.{
  ℕ, Bool, true, false, not, ◌&&◌, ◌||◌, List, [], ◌∷◌, ◌++◌, map, any, bit_and, ◌==◌,
  if◌then◌else◌, Option, none, some,
}
use bl_haos_bridge.Dict.{Text}
use bl_haos_bridge.Text.{codes, lower, strip, contains, text_eq, remove_char, after_last}
use bl_haos_bridge.Bluetooth.Results.{
  Reply, replied, failed, operation_in_progress, dbus_error, Result, ok, raised, and_then,
  propagate,
}
use bl_haos_bridge.Bluetooth.Constants.{
  audio_service_short_uuids, audio_sink_uuids, major_device_class_audio_video,
  minor_device_classes_audio, class_of_device_major_mask, class_of_device_minor_mask,
  adapter_name_fallback, bluetooth_device_label, audio_device_label, speaker_device_type,
  audio_icon_hints, non_audio_icon_hints, audio_name_keywords, icon_to_device_type,
}
use Model.{DeviceProperties, BluetoothDevice, DeviceInfo}

-- `_get_prop`: a property, or its default. The Variant that may wrap the value is taken off.
abbrev pub get_prop {ℓ} : {A : Type ℓ} → Option A → A → A
get_prop none d = d
get_prop (some v) d = v

abbrev pub address : BluetoothDevice → Text
address d = get_prop d.properties.address []

abbrev pub name : BluetoothDevice → Option Text
name d = d.properties.name

-- `name or other`
abbrev pub or_else : Option Text → Text → Text
or_else (some (c ∷ s)) other = c ∷ s
or_else _ other = other

abbrev pub alias : BluetoothDevice → Text
alias d = get_prop d.properties.alias (or_else (name d) (address d))

abbrev pub adapter_path : BluetoothDevice → Text
adapter_path d = get_prop d.properties.adapter []

abbrev name_of_path : Text → Text
unfolding after_last
name_of_path [] = adapter_name_fallback
name_of_path (c ∷ path) = after_last (codes "/") (c ∷ path)

unfoldable pub adapter_name : BluetoothDevice → Text
unfolding name_of_path
adapter_name d = name_of_path (adapter_path d)

abbrev pub paired : BluetoothDevice → Bool
paired d = get_prop d.properties.paired false

abbrev pub trusted : BluetoothDevice → Bool
trusted d = get_prop d.properties.trusted false

abbrev pub connected : BluetoothDevice → Bool
connected d = get_prop d.properties.connected false && not d.detached

abbrev pub blocked : BluetoothDevice → Bool
blocked d = get_prop d.properties.blocked false

pub uuids : BluetoothDevice → List Text
unfolding lower
uuids d = map lower (get_prop d.properties.uuids [])

-- `text in texts`, and `any(part in text for part in parts)`
abbrev pub is_among : List Text → Text → Bool
is_among texts t = any (text_eq t) texts

abbrev pub contains_any : List Text → Text → Bool
contains_any parts t = any (λ part. contains part t) parts

-- The loop over the service identifiers.
pub is_audio_uuid : Text → Bool
unfolding lower strip audio_sink_uuids contains
is_audio_uuid uuid =
    let clean = strip (lower uuid) in
    is_among audio_sink_uuids clean || contains_any audio_service_short_uuids clean

-- `minor in MINOR_DEVICE_CLASSES_AUDIO`, with its label
pub minor_label : List (ℕ × Text) → ℕ → Option Text
minor_label [] minor = none
minor_label ((k, label) ∷ table) minor = if k == minor then some label else minor_label table minor

abbrev has_label : Option Text → Bool
has_label none = false
has_label (some _) = true

-- The class of device, by its major and its minor class.
pub is_audio_class : Option ℕ → Bool
unfolding minor_label
is_audio_class none = false
is_audio_class (some c) =
    bit_and c class_of_device_major_mask == major_device_class_audio_video
    || has_label (minor_label minor_device_classes_audio (bit_and c class_of_device_minor_mask))

-- `f"{self.name or ''} {self.alias or ''}".lower()`
abbrev pub name_or_alias : BluetoothDevice → Text
name_or_alias d = lower (or_else (name d) [] ++ codes " " ++ alias d)

pub is_audio_sink : BluetoothDevice → Bool
unfolding uuids is_audio_uuid is_audio_class lower contains
is_audio_sink d =
    let icon = lower (get_prop d.properties.icon []) in
    if any is_audio_uuid (uuids d)
    then true
    else if is_audio_class d.properties.class_of_device
    then true
    else if contains_any audio_icon_hints icon
    then true
    else if contains_any audio_name_keywords (name_or_alias d)
    then true
    else (connected d || paired d) && not (is_among non_audio_icon_hints icon)

-- The label that the class of device gives.
pub class_label : Option ℕ → Option Text
unfolding minor_label
class_label none = none
class_label (some c) =
    elim (minor_label minor_device_classes_audio (bit_and c class_of_device_minor_mask)) [
      | some label ↦ some label
      | none ↦
          if bit_and c class_of_device_major_mask == major_device_class_audio_video
          then some audio_device_label
          else none
    ]

-- The first icon hint that the icon has.
pub icon_label : List (Text × Text) → Text → Option Text
unfolding contains
icon_label [] icon = none
icon_label ((hint, label) ∷ table) icon =
    if contains hint icon then some label else icon_label table icon

pub device_type : BluetoothDevice → Text
unfolding class_label icon_label is_audio_sink
device_type d = elim (class_label d.properties.class_of_device) [
  | some label ↦ label
  | none ↦ elim (icon_label icon_to_device_type (get_prop d.properties.icon [])) [
    | some label ↦ label
    | none ↦ if is_audio_sink d then speaker_device_type else bluetooth_device_label
  ]
]

-- `properties[k] = v`, of a property that changed.
abbrev pub changed_or {ℓ} : {A : Type ℓ} → Option A → Option A → Option A
changed_or none old = old
changed_or (some v) old = some v

pub merge_properties : DeviceProperties → DeviceProperties → DeviceProperties
merge_properties changed p = record {
  address = changed_or changed.address p.address;
  name = changed_or changed.name p.name;
  alias = changed_or changed.alias p.alias;
  adapter = changed_or changed.adapter p.adapter;
  icon = changed_or changed.icon p.icon;
  paired = changed_or changed.paired p.paired;
  trusted = changed_or changed.trusted p.trusted;
  connected = changed_or changed.connected p.connected;
  blocked = changed_or changed.blocked p.blocked;
  legacy_pairing = changed_or changed.legacy_pairing p.legacy_pairing;
  rssi = changed_or changed.rssi p.rssi;
  tx_power = changed_or changed.tx_power p.tx_power;
  class_of_device = changed_or changed.class_of_device p.class_of_device;
  uuids = changed_or changed.uuids p.uuids;
  percentage = changed_or changed.percentage p.percentage;
}

unfoldable pub update_properties : ℕ → DeviceProperties → BluetoothDevice → BluetoothDevice
unfolding merge_properties
update_properties now changed d = record d {
  properties = merge_properties changed d.properties;
  last_seen = now;
}

abbrev pub set_connected : Bool → BluetoothDevice → BluetoothDevice
set_connected b d = record d { properties = record (d.properties) { connected = some b } }

unfoldable pub mark_detached : BluetoothDevice → BluetoothDevice
mark_detached d = set_connected false (record d { detached = true })

unfoldable pub to_info : BluetoothDevice → DeviceInfo
unfolding adapter_name uuids is_audio_sink device_type
to_info d = record {
  path = d.path;
  adapter_path = adapter_path d;
  adapter_name = adapter_name d;
  address = address d;
  name = name d;
  alias = alias d;
  icon = d.properties.icon;
  paired = paired d;
  trusted = trusted d;
  connected = connected d;
  blocked = blocked d;
  legacy_pairing = get_prop d.properties.legacy_pairing false;
  rssi = d.properties.rssi;
  tx_power = d.properties.tx_power;
  class_of_device = d.properties.class_of_device;
  uuids = uuids d;
  is_audio_sink = is_audio_sink d;
  device_type = device_type d;
  battery_percentage = d.properties.percentage;
  last_seen = d.last_seen;
  detached = d.detached;
}

-- `str(error).lower().replace("-", "").replace(" ", "")`
pub squash : Text → Text
unfolding lower
squash e = remove_char b' ' (remove_char b'-' (lower e))

abbrev is_busy : Text → Bool
is_busy s = contains (codes "inprogress") s || contains (codes "brconnectionbusy") s

abbrev already_connected : Text → Bool
already_connected = contains (codes "alreadyconnected")

abbrev connection_in_progress : BluetoothDevice → Result (Unit {0})
connection_in_progress d =
    raised
      (operation_in_progress (codes "Bluetooth connection already in progress for " ++ address d))

-- What D-Bus answers to the three calls of `connect`.
pub record ConnectReplies : Type 0 where
  pub introspect : Reply
  pub connect : Reply
  pub connect_profile : Reply

-- The inner `try`, of the audio profile.
pub profile_result : BluetoothDevice → Reply → Result (Unit {0})
unfolding squash contains
profile_result d replied = ok tt
profile_result d (failed e) =
    if is_busy (squash e)
    then connection_in_progress d
    else if already_connected (squash e)
    then ok tt
    else raised (dbus_error e)

pub connect_result : BluetoothDevice → Reply → Reply → Result (Unit {0})
unfolding squash contains profile_result
connect_result d replied profile = ok tt
connect_result d (failed e) profile =
    if is_busy (squash e)
    then connection_in_progress d
    else if already_connected (squash e)
    then profile_result d profile
    else raised (dbus_error e)

-- The write that follows the calls, if none of them raised.
abbrev pub settle :
    (BluetoothDevice → BluetoothDevice)
    → BluetoothDevice
    → Result (Unit {0})
    → Result (Unit {0}) × BluetoothDevice
settle f d (ok u) = (ok u, f d)
settle f d (raised e) = (raised e, d)

unfoldable pub connect : ConnectReplies → BluetoothDevice → Result (Unit {0}) × BluetoothDevice
unfolding connect_result
connect r d =
    if not d.bus
    then (ok tt, set_connected true d)
    else settle (set_connected true) d
        (and_then (propagate r.introspect) (λ _. connect_result d r.connect r.connect_profile))

-- Whatever D-Bus answers is swallowed.
unfoldable pub disconnect : Reply → BluetoothDevice → BluetoothDevice
disconnect reply d = set_connected false d

abbrev pub set_paired : BluetoothDevice → BluetoothDevice
set_paired d = record d { properties = record (d.properties) { paired = some true } }

pub pair_result : BluetoothDevice → Reply → Result (Unit {0})
unfolding contains
pair_result d replied = ok tt
pair_result d (failed e) =
    if contains_any (codes "InProgress" ∷ codes "In Progress" ∷ codes "br-connection-busy" ∷ []) e
    then raised
        (operation_in_progress (codes "Bluetooth pairing already in progress for " ++ address d))
    else if contains_any
        (codes "AlreadyExists" ∷ codes "AlreadyConnected" ∷ codes "AlreadyPaired" ∷ []) e
    then ok tt
    else raised (dbus_error e)

unfoldable pub pair : Reply → Reply → BluetoothDevice → Result (Unit {0}) × BluetoothDevice
unfolding pair_result
pair introspect reply d =
    if not d.bus
    then (ok tt, set_paired d)
    else settle set_paired d (and_then (propagate introspect) (λ _. pair_result d reply))

-- With or without a bus, and whatever D-Bus answers, the flag is written.
unfoldable pub set_trusted : Reply → Bool → BluetoothDevice → BluetoothDevice
set_trusted reply b d = record d { properties = record (d.properties) { trusted = some b } }

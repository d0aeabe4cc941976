-- ===== src/Bluetooth/Adapter.antt =====
-- A Bluetooth adapter (backend/bl_haos/bluetooth/adapter.py).
use bl_haos_bridge.Prelude.{
  ℕ, Bool, true, false, not, ◌||◌, List, [], ◌++◌, if◌then◌else◌, Option, some,
}
use bl_haos_bridge.Dict.{Text}
use bl_haos_bridge.Text.{codes, lower, contains, after_last}
use bl_haos_bridge.Bluetooth.Results.{
  Reply, replied, failed, dbus_error, Result, ok, raised, and_then, propagate,
}
use bl_haos_bridge.Bluetooth.Constants.{bluetooth_adapter_label}
use bl_haos_bridge.Bluetooth.Device.{get_prop, changed_or}

pub record AdapterProperties : Type 0 where
  pub address : Option Text
  pub name : Option Text
  pub alias : Option Text
  pub powered : Option Bool
  pub discoverable : Option Bool
  pub discovering : Option Bool
  pub pairable : Option Bool
  pub class_of_device : Option ℕ
  pub uuids : Option (List Text)

pub record BluetoothAdapter : Type 0 where
  pub bus : Bool
  pub path : Text
  pub properties : AdapterProperties

pub record AdapterInfo : Type 0 where
  pub path : Text
  pub interface : Text
  pub address : Text
  pub name : Text
  pub alias : Text
  pub powered : Bool
  pub discoverable : Bool
  pub discovering : Bool
  pub pairable : Bool
  pub class_of_device : Option ℕ
  pub uuids : List Text

-- `path.split("/")[-1]`
unfoldable pub interface_name : BluetoothAdapter → Text
unfolding after_last
interface_name a = after_last (codes "/") a.path

pub name : BluetoothAdapter → Text
unfolding interface_name
name a =
    get_prop a.properties.name
      (bluetooth_adapter_label ++ codes " (" ++ interface_name a ++ codes ")")

unfoldable pub update_properties : AdapterProperties → BluetoothAdapter → BluetoothAdapter
update_properties changed a = record a {
  properties = record {
    address = changed_or changed.address p.address;
    name = changed_or changed.name p.name;
    alias = changed_or changed.alias p.alias;
    powered = changed_or changed.powered p.powered;
    discoverable = changed_or changed.discoverable p.discoverable;
    discovering = changed_or changed.discovering p.discovering;
    pairable = changed_or changed.pairable p.pairable;
    class_of_device = changed_or changed.class_of_device p.class_of_device;
    uuids = changed_or changed.uuids p.uuids;
  };
}
  where
    p : AdapterProperties
    p = a.properties

unfoldable pub to_info : BluetoothAdapter → AdapterInfo
unfolding interface_name name
to_info a = record {
  path = a.path;
  interface = interface_name a;
  address = get_prop a.properties.address [];
  name = name a;
  alias = get_prop a.properties.alias (name a);
  powered = get_prop a.properties.powered false;
  discoverable = get_prop a.properties.discoverable false;
  discovering = get_prop a.properties.discovering false;
  pairable = get_prop a.properties.pairable false;
  class_of_device = a.properties.class_of_device;
  uuids = get_prop a.properties.uuids [];
}

abbrev set_discovering : Bool → BluetoothAdapter → BluetoothAdapter
set_discovering b a = record a { properties = record (a.properties) { discovering = some b } }

-- The write that follows a call, if the call did not raise.
abbrev settle :
    (BluetoothAdapter → BluetoothAdapter)
    → BluetoothAdapter
    → Result (Unit {0})
    → Result (Unit {0}) × BluetoothAdapter
settle f a (ok u) = (ok u, f a)
settle f a (raised e) = (raised e, a)

-- The replies are those to the introspection and to the call.
unfoldable pub set_power :
    Reply → Reply → Bool → BluetoothAdapter → Result (Unit {0}) × BluetoothAdapter
set_power introspect reply powered a =
    let write = λ (a : BluetoothAdapter). record a {
      properties = record (a.properties) { powered = some powered };
    } in
    if not a.bus
    then (ok tt, write a)
    else settle write a (and_then (propagate introspect) (λ _. propagate reply))

unfoldable pub set_pairable :
    Reply → Reply → Bool → BluetoothAdapter → Result (Unit {0}) × BluetoothAdapter
set_pairable introspect reply pairable a =
    let write = λ (a : BluetoothAdapter). record a {
      properties = record (a.properties) { pairable = some pairable };
    } in
    if not a.bus
    then (ok tt, write a)
    else settle write a (and_then (propagate introspect) (λ _. propagate reply))

-- A scan that already runs counts as started.
abbrev started : Reply → Result (Unit {0})
started replied = ok tt
started (failed e) =
    if contains (codes "InProgress") e || contains (codes "already in progress") (lower e)
    then ok tt
    else raised (dbus_error e)

-- An introspection that raises is caught by the same handler as the call. The reply to the
-- discovery filter is swallowed, so it is no argument.
abbrev start_reply : Reply → Reply → Reply
start_reply replied call = call
start_reply (failed e) call = failed e

unfoldable pub start_discovery :
    Reply → Reply → BluetoothAdapter → Result (Unit {0}) × BluetoothAdapter
unfolding lower contains
start_discovery introspect reply a =
    if not a.bus
    then (ok tt, set_discovering true a)
    else settle (set_discovering true) a (started (start_reply introspect reply))

-- Every error is swallowed.
unfoldable pub stop_discovery : Reply → BluetoothAdapter → BluetoothAdapter
stop_discovery reply a = set_discovering false a

-- Without a bus it does nothing and returns None. The address and its type are in the call.
unfoldable pub connect_device : Reply → Reply → BluetoothAdapter → Result (Unit {0})
connect_device introspect reply a =
    if not a.bus then ok tt else and_then (propagate introspect) (λ _. propagate reply)

-- ===== src/Bluetooth/Manager/Pairing.antt =====
-- Operator consent to pairing (backend/bl_haos/bluetooth/manager.py): the window that is open for
-- one address and a bounded time, and the callbacks that the agent consults. `now` is
-- `time.monotonic()`.
pub mod Laws
use bl_haos_bridge.Prelude.{
  ℕ, ◌+◌, ◌*◌, ◌-◌, Bool, true, false, ◌&&◌, ◌||◌, List, [], ◌∷◌, if◌then◌else◌, Option, none, some,
  leb, all, length, ltb,
}
use bl_haos_bridge.Dict.{Text, Dict, lookup}
use bl_haos_bridge.Text.{codes, text_eq, contains, after_last, replace_char, is_digit}
use bl_haos_bridge.Address.{normalize_address}
use bl_haos_bridge.Bluetooth.Results.{Reply, Result}
use bl_haos_bridge.Bluetooth.Device.Model.{BluetoothDevice}
use bl_haos_bridge.Bluetooth.Device.{address, trusted}
use bl_haos_bridge.Bluetooth.Adapter.{BluetoothAdapter, set_pairable}
use bl_haos_bridge.Bluetooth.Agent.{BlueZAgent}
use bl_haos_bridge.Bluetooth.Manager.Model.{BluetoothManager}

-- Seconds, like the times of the window.
abbrev pub pairing_window_seconds : ℕ
pairing_window_seconds = 90

abbrev pub default_pin : Text
default_pin = codes "0000"

abbrev address_of : Option BluetoothDevice → Text
address_of none = []
address_of (some d) = address d

-- The path is canonical for an object that is not in the table, or has no address yet.
abbrev candidate_or_path : Text → Text → Text
candidate_or_path (c ∷ candidate) path = c ∷ candidate
candidate_or_path [] path =
    if contains (codes "dev_") path
    then replace_char b'_' b':' (after_last (codes "dev_") path)
    else []

pub address_from_device_path : Text → BluetoothManager → Option Text
unfolding contains after_last replace_char
address_from_device_path path m =
    normalize_address (candidate_or_path (address_of (lookup path m.devices)) path)

abbrev window_for : ℕ → Text → Option Text → BluetoothManager → Bool × BluetoothManager
window_for now addr none m = (false, m)
window_for now addr (some open_for) m =
    if leb m.pairing_expires_at now
    then (false, record m { pairing_address = none; pairing_pin = none })
    else (text_eq open_for addr, m)

-- An expired window is cleared by the first call that sees it.
pub pairing_window_active : ℕ → Text → BluetoothManager → Bool × BluetoothManager
pairing_window_active now addr m = window_for now addr m.pairing_address m

-- What D-Bus answers to the introspection and the call on each adapter, by its path.
abbrev pub AdapterReplies : Type 0
AdapterReplies = Text → Reply × Reply

-- A failure of an adapter is swallowed.
pub set_adapters_pairable : AdapterReplies → Bool → Dict BluetoothAdapter → Dict BluetoothAdapter
unfolding set_pairable
set_adapters_pairable replies pairable [] = []
set_adapters_pairable replies pairable ((path, a) ∷ adapters) =
    let (introspect, reply) = replies path in
    (path, (set_pairable introspect reply pairable a).1)
    ∷ set_adapters_pairable replies pairable adapters

-- `pin or DEFAULT_PIN`
abbrev pub pin_or_default : Option Text → Text
pin_or_default (some (c ∷ pin)) = c ∷ pin
pin_or_default _ = default_pin

abbrev pub opened : ℕ → AdapterReplies → Option Text → Text → BluetoothManager → BluetoothManager
opened now replies pin addr m = record m {
  pairing_address = some addr;
  pairing_pin = some (pin_or_default pin);
  pairing_expires_at = now + pairing_window_seconds;
  adapters = set_adapters_pairable replies true m.adapters;
}

-- No other task runs here while the adapters are waited for: `Consent` has those. `none` is the
-- ValueError of a malformed address.
unfoldable pub open_pairing_window :
    ℕ → AdapterReplies → Text → Option Text → BluetoothManager → Option BluetoothManager
unfolding set_adapters_pairable
open_pairing_window now replies addr pin m = elim (normalize_address addr) [
  | none ↦ none
  | some a ↦ some (opened now replies pin a m)
]

unfoldable pub close_pairing_window : AdapterReplies → BluetoothManager → BluetoothManager
unfolding set_adapters_pairable
close_pairing_window replies m = record m {
  pairing_address = none;
  pairing_pin = none;
  pairing_expires_at = 0;
  adapters = set_adapters_pairable replies false m.adapters;
}

abbrev if_active : Text → Bool × BluetoothManager → Option Text × BluetoothManager
if_active addr (true, m) = (some addr, m)
if_active addr (false, m) = (none, m)

abbrev current_of : ℕ → Option Text → BluetoothManager → Option Text × BluetoothManager
current_of now none m = (none, m)
current_of now (some addr) m = if_active addr (pairing_window_active now addr m)

unfoldable pub current_pairing_address : ℕ → BluetoothManager → Option Text × BluetoothManager
unfolding pairing_window_active
current_pairing_address now m = current_of now m.pairing_address m

abbrev is_trusted : Option BluetoothDevice → Bool
is_trusted none = false
is_trusted (some d) = trusted d

abbrev authorized_for : ℕ → Text → Option Text → BluetoothManager → Bool × BluetoothManager
authorized_for now path none m = (false, m)
authorized_for now path (some addr) m =
    let (active, m') = pairing_window_active now addr m in
    (active || is_trusted (lookup path m'.devices), m')

pub pairing_is_authorized : ℕ → Text → BluetoothManager → Bool × BluetoothManager
unfolding address_from_device_path pairing_window_active
pairing_is_authorized now path m = authorized_for now path (address_from_device_path path m) m

abbrev pin_if : Bool × BluetoothManager → Option Text × BluetoothManager
pin_if (true, m) = (m.pairing_pin, m)
pin_if (false, m) = (none, m)

abbrev pin_for : ℕ → Option Text → BluetoothManager → Option Text × BluetoothManager
pin_for now none m = (none, m)
pin_for now (some addr) m = pin_if (pairing_window_active now addr m)

pub authorized_pin : ℕ → Text → BluetoothManager → Option Text × BluetoothManager
unfolding address_from_device_path pairing_window_active
authorized_pin now path m = pin_for now (address_from_device_path path m) m

-- `int(pin)` of decimal digits
pub decimal_from : ℕ → Text → ℕ
decimal_from n [] = n
decimal_from n (c ∷ s) = decimal_from (10 * n + (c - b'0')) s

-- `pin.isdigit()` and `int(pin)`, of a PIN in ASCII.
abbrev pub numeric : Option Text → Option ℕ
numeric none = none
numeric (some []) = none
numeric (some (c ∷ pin)) = if all is_digit (c ∷ pin) then some (decimal_from 0 (c ∷ pin)) else none

pub authorized_passkey : ℕ → Text → BluetoothManager → Option ℕ × BluetoothManager
unfolding authorized_pin decimal_from
authorized_passkey now path m = let (pin, m') = authorized_pin now path m in (numeric pin, m')

pub confirm_pairing : ℕ → Text → ℕ → BluetoothManager → Bool × BluetoothManager
unfolding pairing_is_authorized
confirm_pairing now path passkey m = pairing_is_authorized now path m

unfoldable pub build_agent : ℕ → BlueZAgent BluetoothManager
unfolding authorized_pin authorized_passkey confirm_pairing pairing_is_authorized
build_agent now = record {
  pin_callback = authorized_pin now;
  passkey_callback = authorized_passkey now;
  confirm_callback = confirm_pairing now;
  authorization_callback = pairing_is_authorized now;
}

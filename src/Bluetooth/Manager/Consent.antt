-- ===== src/Bluetooth/Manager/Consent.antt =====
-- Opening and closing the pairing window while other tasks run
-- (backend/bl_haos/bluetooth/manager.py: open_pairing_window, close_pairing_window,
-- _set_adapters_pairable). The adapters are waited for one by one.
pub mod Laws
use bl_haos_bridge.Prelude.{
  ℕ, suc, ◌+◌, ◌≡◌, Bool, true, false, List, [], ◌∷◌, map, length, ◌==◌, if◌then◌else◌, Option,
  none, some, arith, refl,
}
use bl_haos_bridge.Dict.{Text, Dict, lookup, insert}
use bl_haos_bridge.Text.{codes}
use bl_haos_bridge.Bluetooth.Results.{Result, ok, raised, runtime_error}
use bl_haos_bridge.Bluetooth.Adapter.{BluetoothAdapter, set_pairable}
use bl_haos_bridge.Bluetooth.Manager.Model.{BluetoothManager}
use bl_haos_bridge.Bluetooth.Manager.Pairing.{
  AdapterReplies, pin_or_default, pairing_window_seconds,
}
use bl_haos_bridge.Bluetooth.Manager.Coroutine.{World, M, ◌>>=◌, ◌>>◌, updates, awaits}

abbrev posture :
    Text → AdapterReplies → Bool → Option BluetoothAdapter → BluetoothManager → BluetoothManager
posture path replies pairable none m = m
posture path replies pairable (some a) m =
    let (introspect, reply) = replies path in
    record m { adapters = insert path (set_pairable introspect reply pairable a).1 m.adapters }

-- One adapter; a failure is swallowed.
pub set_posture : AdapterReplies → Bool → Text → BluetoothManager → BluetoothManager
unfolding set_pairable
set_posture replies pairable path m = posture path replies pairable (lookup path m.adapters) m

-- The loop over a dict ends with an error when the dict has changed its size.
abbrev pub same_size : ℕ → M (Unit {0})
same_size size m =
    if length m.adapters == size
    then (ok tt, m)
    else (raised (runtime_error (codes "dictionary changed size during iteration")), m)

pub each_pairable : World → AdapterReplies → Bool → ℕ → ℕ → List Text → M (Unit {0})
unfolding set_posture
each_pairable w replies pairable size i [] = same_size size
each_pairable w replies pairable size i (path ∷ paths) = do
  same_size size
  awaits w i
  updates (set_posture replies pairable path)
  each_pairable w replies pairable size (suc i) paths

-- `_set_adapters_pairable`
abbrev pub adapters_pairable : World → AdapterReplies → Bool → M (Unit {0})
adapters_pairable w replies pairable m =
    each_pairable w replies pairable (length m.adapters) 0 (map (λ e. e.0) m.adapters) m

-- `open_pairing_window` of a valid address
unfoldable pub opening : World → AdapterReplies → ℕ → Option Text → Text → M (Unit {0})
unfolding each_pairable
opening w replies now pin addr = do
  updates (λ m. record m {
    pairing_address = some addr;
    pairing_pin = some (pin_or_default pin);
    pairing_expires_at = now + pairing_window_seconds;
  })
  adapters_pairable w replies true

-- `close_pairing_window`
unfoldable pub closing : World → AdapterReplies → M (Unit {0})
unfolding each_pairable
closing w replies = do
  updates (λ m. record m { pairing_address = none; pairing_pin = none; pairing_expires_at = 0 })
  adapters_pairable w replies false

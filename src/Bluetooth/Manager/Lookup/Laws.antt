-- ===== src/Bluetooth/Manager/Lookup/Laws.antt =====
-- What a lookup of a device returns (backend/bl_haos/bluetooth/manager.py: ensure_device).
use bl_haos_bridge.Prelude.{◌≡◌, refl, inl, inr, arith, true, List, [], ◌∷◌, Option-cases}
use bl_haos_bridge.Dict.{Text}
use bl_haos_bridge.Address.{normalize_address}
use bl_haos_bridge.Bluetooth.Results.{raised, is_ok, dbus_error}
use bl_haos_bridge.Bluetooth.Manager.Model.{BluetoothManager}
use bl_haos_bridge.Bluetooth.Manager.Lookup.{
  Query, resolve_on, resolve, path_on, adapter_paths, ensure_device,
}

resolve_on-returns :
    (q : Query) (a : Text) (adapters : List Text) (m : BluetoothManager)
    → is_ok (resolve_on q a adapters m).0 ≡ true
unfolding resolve_on
resolve_on-returns q a [] m = refl
resolve_on-returns q a (adapter ∷ adapters) m =
    elim (Option-cases (q.properties (path_on adapter a))) [
      | inl e ↦
          ground (arith, e, resolve_on-returns q a adapters (q.meanwhile (path_on adapter a) m))
      | inr (p, e) ↦ unfold resolve in ground (arith, e)
    ]

-- A lookup raises nothing but the ValueError of a malformed address.
pub ensure_device-not_dbus :
    (q : Query) (a t : Text) (m : BluetoothManager) {m' : BluetoothManager}
    → ensure_device q a m ≡ (raised (dbus_error t), m')
    → ⊥
unfolding ensure_device
ensure_device-not_dbus q a t m h = elim (Option-cases (normalize_address a)) [
  | inl e ↦ ground (arith, e)
  | inr (b, e) ↦ ground (arith, e, resolve_on-returns q b (adapter_paths m) m)
]

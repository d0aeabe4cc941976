-- ===== src/Bluetooth/Manager/Consent/Laws.antt =====
-- Closing the pairing window leaves it closed while other tasks open none
-- (backend/bl_haos/bluetooth/manager.py: close_pairing_window).
use bl_haos_bridge.Prelude.{ℕ, suc, ◌≡◌, refl, Bool, false, List, [], ◌∷◌, map, length, none, arith}
use bl_haos_bridge.Dict.{Text}
use bl_haos_bridge.Bluetooth.Manager.Model.{BluetoothManager}
use bl_haos_bridge.Bluetooth.Manager.Pairing.{AdapterReplies}
use bl_haos_bridge.Bluetooth.Manager.Coroutine.{World}
use bl_haos_bridge.Bluetooth.Manager.Consent.{set_posture, each_pairable, closing}

-- The other tasks open no window at these awaits.
abbrev pub OpensNone : World → Type 0
OpensNone w =
    (i : ℕ) (m : BluetoothManager)
    → m.pairing_address ≡ none
    → (w.meanwhile i m).pairing_address ≡ none

set_posture-window :
    (replies : AdapterReplies) (pairable : Bool) (path : Text) (m : BluetoothManager)
    → (set_posture replies pairable path m).pairing_address ≡ m.pairing_address
unfolding set_posture
set_posture-window replies pairable path m = ground arith

each_pairable-window :
    (w : World) (replies : AdapterReplies) (pairable : Bool) (size i : ℕ) (paths : List Text)
    (m : BluetoothManager)
    → OpensNone w
    → m.pairing_address ≡ none
    → (each_pairable w replies pairable size i paths m).1.pairing_address ≡ none
unfolding each_pairable
each_pairable-window w replies pairable size i [] m k h = ground arith
each_pairable-window w replies pairable size i (path ∷ paths) m k h =
    let m1 = w.meanwhile i m in
    let h1 : m1.pairing_address ≡ none = k i m h in
    ground (
      arith,
      set_posture-window replies pairable path m1,
      each_pairable-window w replies pairable size (suc i) paths
          (set_posture replies pairable path m1) k,
    )

pub closing-window :
    (w : World) (replies : AdapterReplies) (m : BluetoothManager)
    → OpensNone w
    → (closing w replies m).1.pairing_address ≡ none
unfolding closing
closing-window w replies m k =
    let shut = record m { pairing_address = none; pairing_pin = none; pairing_expires_at = 0 } in
    each_pairable-window w replies false (length m.adapters) 0 (map (λ e. e.0) m.adapters) shut k
      refl

-- ===== src/Bluetooth/Manager/Trust/Laws.antt =====
-- The pairing window after `pair_and_trust` (backend/bl_haos/bluetooth/manager.py).
use bl_haos_bridge.Prelude.{ℕ, ◌≡◌, refl, sym, subst, arith, Bool, Option, none, some}
use bl_haos_bridge.Dict.{Text}
use bl_haos_bridge.Address.{normalize_address}
use bl_haos_bridge.Bluetooth.Agent.{refuse, request_pin_code}
use bl_haos_bridge.Bluetooth.Manager.Pairing.{build_agent}
use bl_haos_bridge.Bluetooth.Manager.Pairing.Laws.{no_window-refuses}
use bl_haos_bridge.Bluetooth.Results.{Result, ok, raised}
use bl_haos_bridge.Bluetooth.Manager.Model.{BluetoothManager}
use bl_haos_bridge.Bluetooth.Manager.Coroutine.{M, after_cleanup, cleaned_by, continue}
use bl_haos_bridge.Bluetooth.Manager.Consent.{opening, closing}
use bl_haos_bridge.Bluetooth.Manager.Consent.Laws.{OpensNone, closing-window}
use bl_haos_bridge.Bluetooth.Manager.Lookup.{checked_address}
use bl_haos_bridge.Bluetooth.Manager.Trust.{PairRun, pair_and_trust, pair_within_window}

-- How a call ends, by how the opening of the window ended.
abbrev pub EndsClosed :
    Result (Unit {0}) × BluetoothManager → Result Bool × BluetoothManager → Type 0
EndsClosed (ok u, m) (r, m') =
    (m'.pairing_address ≡ none)
    × ((now : ℕ) (path : Text) → (request_pin_code (build_agent now) path m').0 ≡ refuse)
EndsClosed (raised e, m) (r, m') = (r ≡ raised e) × (m'.pairing_address ≡ m.pairing_address)

cleanup-address :
    (r : Result Bool) (c : Result (Unit {0}) × BluetoothManager)
    → c.1.pairing_address ≡ none
    → (after_cleanup r c).1.pairing_address ≡ none
cleanup-address r (ok u, m) h = h
cleanup-address r (raised e, m) h = h

cleaned-address :
    (c : M (Unit {0})) (r : Result Bool × BluetoothManager)
    → ((m : BluetoothManager) → (c m).1.pairing_address ≡ none)
    → (cleaned_by c r).1.pairing_address ≡ none
cleaned-address c (r, m) h = cleanup-address r (c m) (h m)

opened-EndsClosed :
    (run : PairRun) (a : Text) (o : Result (Unit {0}) × BluetoothManager)
    → OpensNone run.closing
    → EndsClosed o (
        continue
          (λ _ m. cleaned_by (closing run.closing run.not_pairable) (pair_within_window run a m))
          o)
opened-EndsClosed run a (ok u, m) k =
    let closed =
      cleaned-address (closing run.closing run.not_pairable) (pair_within_window run a m)
        (λ m'. closing-window run.closing run.not_pairable m' k) in
    (closed, λ now path. no_window-refuses now path _ closed)
opened-EndsClosed run a (raised e, m) k = (refl, refl)

checked_address-some :
    (addr : Text) (m : BluetoothManager) {a : Text}
    → normalize_address addr ≡ some a
    → checked_address addr m ≡ (ok a, m)
checked_address-some addr m valid = ground (arith, valid)

-- Let the other tasks open no pairing window at the awaits of closing it. A call of
-- `pair_and_trust` of a valid address whose window was opened leaves no window open and an
-- agent that refuses every PIN, however the pairing and the closing end and whatever other
-- tasks do before; a call whose opening raises, by a cancellation or a changed set of adapters,
-- raises that and leaves the window as it is then.
pub pair_and_trust-window :
    (run : PairRun) (addr : Text) (pin : Option Text) (m : BluetoothManager) {a : Text}
    → OpensNone run.closing
    → normalize_address addr ≡ some a
    → EndsClosed (opening run.opening run.pairable run.now pin a m) (pair_and_trust run addr pin m)
unfolding pair_and_trust
pair_and_trust-window run addr pin m {a} k valid =
    subst
      (λ r. EndsClosed (opening run.opening run.pairable run.now pin a m) (
        continue
          (λ a m.
            continue
              (λ _ m.
                cleaned_by (closing run.closing run.not_pairable) (pair_within_window run a m))
              (opening run.opening run.pairable run.now pin a m))
          r))
      (sym (checked_address-some addr m valid))
      (opened-EndsClosed run a (opening run.opening run.pairable run.now pin a m) k)

-- ===== src/Bluetooth/Manager/Trust.antt =====
-- Pairing a device that the operator asked for, then trusting it
-- (backend/bl_haos/bluetooth/manager.py: pair_and_trust). The window of `Pairing` is open while it
-- runs.
pub mod Laws
use bl_haos_bridge.Prelude.{
  ℕ, Bool, true, false, not, ◌&&◌, List, [], ◌∷◌, map, if◌then◌else◌, Option, none, some, is_some,
}
use bl_haos_bridge.Dict.{Text, Dict, lookup, erase}
use bl_haos_bridge.Bluetooth.Results.{Reply, Result, ok, raised}
use bl_haos_bridge.Bluetooth.Device.Model.{BluetoothDevice}
use bl_haos_bridge.Bluetooth.Device
use bl_haos_bridge.Bluetooth.Device.{ConnectReplies}
use bl_haos_bridge.Bluetooth.Adapter
use bl_haos_bridge.Bluetooth.Adapter.{BluetoothAdapter}
use bl_haos_bridge.Bluetooth.Manager.Model.{BluetoothManager, held, write}
use bl_haos_bridge.Bluetooth.Manager.Pairing.{AdapterReplies}
use bl_haos_bridge.Bluetooth.Manager.Consent.{opening, closing}
use bl_haos_bridge.Bluetooth.Manager.Lookup.{Query, checked_address, ensure_device, stop_scan}
use bl_haos_bridge.Bluetooth.Manager.Link.{device_not_found}
use bl_haos_bridge.Bluetooth.Manager.Coroutine.{
  World, M, returns, raises, ◌>>=◌, ◌>>◌, updates, lifted, awaits, try_except, attempt,
  finally_await,
}

-- What one call of `pair_and_trust` meets: the other tasks, also while the window is opened and while
-- it is closed, the lookups in their order, the replies of the adapters to the two changes of their
-- posture and to the request for the device, and those of the device.
pub record PairRun : Type 0 where
  pub world : World
  pub now : ℕ
  pub opening : World
  pub pairable : AdapterReplies
  pub closing : World
  pub not_pairable : AdapterReplies
  pub query : ℕ → Query
  pub adapter : Text → Reply × Reply
  pub pair_introspect : Reply
  pub pair_reply : Reply
  pub connect : ConnectReplies
  pub trust_reply : Reply

abbrev or_device : Option BluetoothDevice → BluetoothDevice → Option BluetoothDevice
or_device none d = some d
or_device (some r) d = some r

-- A record that is not connected is taken out of the table and looked up anew.
abbrev refreshed : PairRun → Text → Option BluetoothDevice → M (Option BluetoothDevice)
refreshed run a none m = (ok none, m)
refreshed run a (some d) m =
    if is_some m.bus && not (Device.connected (held d m))
    then (updates (λ m. record m { devices = erase d.path m.devices })
          >> (ensure_device (run.query 1) a >>= λ r. returns (or_device r d)))
        m
    else (ok (some d), m)

abbrev request_result : PairRun → Text → Option BluetoothAdapter → Result (Unit {0})
request_result run path none = ok tt
request_result run path (some a) =
    Adapter.connect_device (run.adapter path).0 (run.adapter path).1 a

-- One adapter is asked for the device, and the table is searched again.
pub requested_on : PairRun → Text → Text → M (Option BluetoothDevice)
unfolding Adapter.connect_device ensure_device
requested_on run a path =
    try_except
      ((λ m. lifted (request_result run path (lookup path m.adapters)) m)
        >> ensure_device (run.query 2) a)
      (λ e. returns none)

abbrev unless_found {ℓ} : {A : Type ℓ} → M (Option A) → Option A → M (Option A)
unless_found rest none = rest
unless_found rest (some d) = returns (some d)

-- The adapters in turn, up to the first that finds it.
pub requested_any : PairRun → Text → List Text → M (Option BluetoothDevice)
unfolding requested_on
requested_any run a [] = returns none
requested_any run a (path ∷ paths) =
    requested_on run a path >>= unless_found (requested_any run a paths)

abbrev requested : PairRun → Text → Option BluetoothDevice → M (Option BluetoothDevice)
requested run a (some d) m = (ok (some d), m)
requested run a none m =
    (requested_any run a (map (λ e. e.0) m.adapters)
        >>= unless_found (ensure_device (run.query 3) a))
      m

-- `dev.pair()`, `dev.connect()` and `dev.set_trusted(True)`
abbrev established : PairRun → Text → Option BluetoothDevice → M Bool
established run a none = raises (device_not_found a)
established run a (some d) = do
  awaits run.world 2
  λ m. lifted ((Device.pair run.pair_introspect run.pair_reply (held d m)).0) m
  updates (λ m. write d Device.set_paired m)
  awaits run.world 3
  λ m. lifted ((Device.connect run.connect (held d m)).0) m
  updates (λ m. write d (Device.set_connected true) m)
  awaits run.world 4
  updates (λ m. write d (Device.set_trusted run.trust_reply true) m)
  returns true

-- `_pair_and_trust`
pub pair_within_window : PairRun → Text → M Bool
unfolding stop_scan ensure_device requested_any held write Device.pair Device.connect
    Device.set_trusted
pair_within_window run a = do
  attempt (stop_scan none >> awaits run.world 0)
  awaits run.world 1
  dev ← ensure_device (run.query 0) a
  dev ← refreshed run a dev
  dev ← requested run a dev
  established run a dev

-- The window is opened before the `try` begins.
unfoldable pub pair_and_trust : PairRun → Text → Option Text → M Bool
unfolding pair_within_window opening closing
pair_and_trust run addr pin = do
  a ← checked_address addr
  opening run.opening run.pairable run.now pin a
  finally_await (pair_within_window run a) (closing run.closing run.not_pairable)

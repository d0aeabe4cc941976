-- ===== src/Bluetooth/Manager/Coroutine/Laws.antt =====
-- Inversion of coroutines that returned or raised.
use bl_haos_bridge.Prelude.{ℕ, ◌≡◌, refl, ◌⊎◌, inl, inr, arith}
use bl_haos_bridge.Dict.{Text}
use bl_haos_bridge.Bluetooth.Results.{
  Result, ok, raised, Exception, cancelled, timeout_error, operation_in_progress, value_error,
  runtime_error, dbus_error,
}
use bl_haos_bridge.Bluetooth.Manager.Model.{BluetoothManager}
use bl_haos_bridge.Bluetooth.Manager.Coroutine.{
  World, M, returns, continue, ◌>>=◌, caught, attempt, awaits, as_timeout, timed_out, timeout,
}

continue-eq-ok {ℓ κ} :
    {A : Type ℓ} {B : Type κ} (f : A → M B) (r : Result A × BluetoothManager)
    → {b : B} {m' : BluetoothManager} → continue f r ≡ (ok b, m')
    → (a : A) × (m1 : BluetoothManager) × (r ≡ (ok a, m1)) × (f a m1 ≡ (ok b, m'))
continue-eq-ok f (ok a, m1) h = (a, m1, refl, h)
continue-eq-ok f (raised x, m1) h = cc

-- Inversion of a chain that returned.
pub >>=-eq-ok {ℓ κ} :
    {A : Type ℓ} {B : Type κ} (c : M A) (f : A → M B) (m : BluetoothManager)
    → {b : B} {m' : BluetoothManager} → (c >>= f) m ≡ (ok b, m')
    → (a : A) × (m1 : BluetoothManager) × (c m ≡ (ok a, m1)) × (f a m1 ≡ (ok b, m'))
>>=-eq-ok c f m h = continue-eq-ok f (c m) h

continue-eq-raised {ℓ κ} :
    {A : Type ℓ} {B : Type κ} (f : A → M B) (r : Result A × BluetoothManager)
    → {e : Exception} {m' : BluetoothManager} → continue f r ≡ (raised e, m')
    → (r ≡ (raised e, m'))
      ⊎ ((a : A) × (m1 : BluetoothManager) × (r ≡ (ok a, m1)) × (f a m1 ≡ (raised e, m')))
continue-eq-raised f (ok a, m1) h = inr (a, m1, refl, h)
continue-eq-raised f (raised x, m1) h = inl (cc)

-- Inversion of a chain that raised: in its first step, or after it.
pub >>=-eq-raised {ℓ κ} :
    {A : Type ℓ} {B : Type κ} (c : M A) (f : A → M B) (m : BluetoothManager)
    → {e : Exception} {m' : BluetoothManager} → (c >>= f) m ≡ (raised e, m')
    → (c m ≡ (raised e, m'))
      ⊎ ((a : A) × (m1 : BluetoothManager) × (c m ≡ (ok a, m1)) × (f a m1 ≡ (raised e, m')))
>>=-eq-raised c f m h = continue-eq-raised f (c m) h

-- What only logs an exception raises nothing but a cancellation.
attempt-raised_result :
    (r : Result (Unit {0}) × BluetoothManager) {e : Exception} {m' : BluetoothManager}
    → caught (λ e. returns tt) r ≡ (raised e, m')
    → e ≡ cancelled
attempt-raised_result (ok u, m) h = cc
attempt-raised_result (raised cancelled, m) h = cc
attempt-raised_result (raised timeout_error, m) h = cc
attempt-raised_result (raised (operation_in_progress t), m) h = cc
attempt-raised_result (raised (value_error t), m) h = cc
attempt-raised_result (raised (runtime_error t), m) h = cc
attempt-raised_result (raised (dbus_error t), m) h = cc

pub attempt-cancelled :
    (c : M (Unit {0})) (m : BluetoothManager) {e : Exception} {m' : BluetoothManager}
    → attempt c m ≡ (raised e, m')
    → e ≡ cancelled
attempt-cancelled c m h = attempt-raised_result (c m) h

pub awaits-cancelled :
    (w : World) (i : ℕ) (m : BluetoothManager) {e : Exception} {m' : BluetoothManager}
    → awaits w i m ≡ (raised e, m')
    → e ≡ cancelled
awaits-cancelled w i m h = ground arith

timed_out-eq-ok {ℓ} :
    {A : Type ℓ} (r : Result A × BluetoothManager) {a : A} {m' : BluetoothManager}
    → timed_out r ≡ (ok a, m')
    → r ≡ (ok a, m')
timed_out-eq-ok (ok a, m) h = h
timed_out-eq-ok (raised e, m) h = cc

-- A result that a timeout passes on unchanged.
pub timeout-eq-ok {ℓ} :
    {A : Type ℓ} (c : M A) (m : BluetoothManager) {a : A} {m' : BluetoothManager}
    → timeout c m ≡ (ok a, m')
    → c m ≡ (ok a, m')
timeout-eq-ok c m h = timed_out-eq-ok (c m) h

as_timeout-dbus_error : (e : Exception) (t : Text) → as_timeout e ≡ dbus_error t → e ≡ dbus_error t
as_timeout-dbus_error cancelled t h = cc
as_timeout-dbus_error timeout_error t h = cc
as_timeout-dbus_error (operation_in_progress u) t h = cc
as_timeout-dbus_error (value_error u) t h = cc
as_timeout-dbus_error (runtime_error u) t h = cc
as_timeout-dbus_error (dbus_error u) t h = h

timed_out-eq-dbus_error {ℓ} :
    {A : Type ℓ} (r : Result A × BluetoothManager) {t : Text} {m' : BluetoothManager}
    → timed_out r ≡ (raised (dbus_error t), m')
    → r ≡ (raised (dbus_error t), m')
timed_out-eq-dbus_error (ok a, m) h = cc
timed_out-eq-dbus_error (raised e, m) {t} h = let same = as_timeout-dbus_error e t (cc) in cc

pub timeout-eq-dbus_error {ℓ} :
    {A : Type ℓ} (c : M A) (m : BluetoothManager) {t : Text} {m' : BluetoothManager}
    → timeout c m ≡ (raised (dbus_error t), m')
    → c m ≡ (raised (dbus_error t), m')
timeout-eq-dbus_error c m h = timed_out-eq-dbus_error (c m) h

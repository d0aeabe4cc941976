-- ===== src/Bluetooth/Manager/Coroutine.antt =====
-- Coroutines of the manager: a step may raise, and other tasks run at each `await`. What they do
-- to the manager, and whether the task is cancelled there, is not the coroutine's to choose.
pub mod Laws
use bl_haos_bridge.Prelude.{ℕ, ◌≡◌, refl, ◌⊎◌, inl, inr, arith, Bool, true, false, if◌then◌else◌}
use bl_haos_bridge.Bluetooth.Results.{
  Result, ok, raised, Exception, cancelled, timeout_error, operation_in_progress, value_error,
  runtime_error, dbus_error,
}
use bl_haos_bridge.Bluetooth.Manager.Model.{BluetoothManager}

-- Other tasks, at the `await` with this number.
pub record World : Type 0 where
  pub meanwhile : ℕ → BluetoothManager → BluetoothManager
  pub cancels : ℕ → Bool

abbrev pub M {ℓ} : Type ℓ → Type ℓ
M A = BluetoothManager → Result A × BluetoothManager

abbrev pub returns {ℓ} : {A : Type ℓ} → A → M A
returns a m = (ok a, m)

abbrev pub raises {ℓ} : {A : Type ℓ} → Exception → M A
raises e m = (raised e, m)

abbrev pub continue {ℓ κ} :
    {A : Type ℓ} {B : Type κ}
    → (A → M B)
    → Result A × BluetoothManager
    → Result B × BluetoothManager
continue f (ok a, m) = f a m
continue f (raised e, m) = (raised e, m)

infixl 5 ◌>>=◌ ◌>>◌
abbrev pub ◌>>=◌ {ℓ κ} : {A : Type ℓ} {B : Type κ} → M A → (A → M B) → M B
◌>>=◌ c f m = continue f (c m)

abbrev pub ◌>>◌ {ℓ} : {B : Type ℓ} → M (Unit {0}) → M B → M B
c >> k = c >>= λ _. k

abbrev pub reads {ℓ} : {A : Type ℓ} → (BluetoothManager → A) → M A
reads f m = (ok (f m), m)

abbrev pub updates : (BluetoothManager → BluetoothManager) → M (Unit {0})
updates f m = (ok tt, f m)

abbrev pub lifted {ℓ} : {A : Type ℓ} → Result A → M A
lifted r m = (r, m)

abbrev pub awaits : World → ℕ → M (Unit {0})
awaits w i m = if w.cancels i then (raised cancelled, w.meanwhile i m) else (ok tt, w.meanwhile i m)

-- `except Exception as error`: a cancellation passes.
abbrev pub caught {ℓ} :
    {A : Type ℓ} → (Exception → M A) → Result A × BluetoothManager → Result A × BluetoothManager
caught handler (ok a, m) = (ok a, m)
caught handler (raised cancelled, m) = (raised cancelled, m)
caught handler (raised e, m) = handler e m

abbrev pub try_except {ℓ} : {A : Type ℓ} → M A → (Exception → M A) → M A
try_except c handler m = caught handler (c m)

-- `except Exception` that only logs.
abbrev pub attempt : M (Unit {0}) → M (Unit {0})
attempt c = try_except c (λ e. returns tt)

-- `finally`, of a clean-up that cannot raise; also the exit of `async with`.
abbrev pub cleaned {ℓ} :
    {A : Type ℓ}
    → (BluetoothManager → BluetoothManager)
    → Result A × BluetoothManager
    → Result A × BluetoothManager
cleaned f (r, m) = (r, f m)

abbrev pub finally_do {ℓ} : {A : Type ℓ} → M A → (BluetoothManager → BluetoothManager) → M A
finally_do c f m = cleaned f (c m)

-- `finally`, of a clean-up that waits and may raise: its exception takes the place of the result.
abbrev pub after_cleanup {ℓ} :
    {A : Type ℓ} → Result A → Result (Unit {0}) × BluetoothManager → Result A × BluetoothManager
after_cleanup r (ok u, m) = (r, m)
after_cleanup r (raised e, m) = (raised e, m)

abbrev pub cleaned_by {ℓ} :
    {A : Type ℓ} → M (Unit {0}) → Result A × BluetoothManager → Result A × BluetoothManager
cleaned_by c (r, m) = after_cleanup r (c m)

abbrev pub finally_await {ℓ} : {A : Type ℓ} → M A → M (Unit {0}) → M A
finally_await body c m = cleaned_by c (body m)

-- `asyncio.timeout`: the cancellation of the body leaves it as a TimeoutError.
abbrev pub as_timeout : Exception → Exception
as_timeout cancelled = timeout_error
as_timeout e = e

abbrev pub timed_out {ℓ} : {A : Type ℓ} → Result A × BluetoothManager → Result A × BluetoothManager
timed_out (ok a, m) = (ok a, m)
timed_out (raised e, m) = (raised (as_timeout e), m)

abbrev pub timeout {ℓ} : {A : Type ℓ} → M A → M A
timeout c m = timed_out (c m)

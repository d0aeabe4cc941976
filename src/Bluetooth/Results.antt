-- ===== src/Bluetooth/Results.antt =====
-- What a call raises or returns in backend/bl_haos/bluetooth, and what D-Bus answers. D-Bus is not
-- part of the program: its replies are arguments of the operations.
use bl_haos_bridge.Prelude.{Bool, true, false, []}
use bl_haos_bridge.Dict.{Text}

-- The reply to a D-Bus call: it was made, or it raised with this message.
pub data Reply : Type 0 where
  replied : Reply
  failed : Text → Reply

pub data Exception : Type 0 where
  operation_in_progress value_error runtime_error dbus_error : Text → Exception
  -- The cancellation of the task, which no `except Exception` catches, and what
  -- `asyncio.timeout` turns it into.
  cancelled timeout_error : Exception

pub data Result {ℓ} (A : Type ℓ) : Type ℓ where
  ok : A → Result A
  raised : Exception → Result A

-- `str(error)`
abbrev pub message : Exception → Text
message (operation_in_progress m) = m
message (value_error m) = m
message (runtime_error m) = m
message (dbus_error m) = m
message cancelled = []
message timeout_error = []

abbrev pub is_ok {ℓ} : {A : Type ℓ} → Result A → Bool
is_ok (ok _) = true
is_ok (raised _) = false

-- A step that may raise, then the rest.
abbrev pub and_then {ℓ κ} : {A : Type ℓ} {B : Type κ} → Result A → (A → Result B) → Result B
and_then (ok a) f = f a
and_then (raised e) f = raised e

-- A reply whose error is passed on.
abbrev pub propagate : Reply → Result (Unit {0})
propagate replied = ok tt
propagate (failed m) = raised (dbus_error m)

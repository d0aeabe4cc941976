-- ===== src/Bluetooth/Agent.antt =====
-- The pairing agent (backend/bl_haos/bluetooth/agent.py): it answers BlueZ by callbacks, and
-- refuses by the `Rejected` error. `S` is the state that the callbacks read and write.
use bl_haos_bridge.Prelude.{ℕ, Bool, true, false, Option, none, some, []}
use bl_haos_bridge.Dict.{Text, Dict, insert}
use bl_haos_bridge.Text.{codes}
use bl_haos_bridge.Bluetooth.Results.{dbus_error, Result, ok, raised}

abbrev pub agent_pairing_refused_error : Text
agent_pairing_refused_error = codes "org.bluez.Error.Rejected: pairing is not authorized"

-- What `active_requests` keeps of a request.
pub data Request : Type 0 where
  display_pin : Text → Request
  display_passkey : ℕ → ℕ → Request

module _ (S : Type 0) where
  pub record BlueZAgent : Type 0 where
    pub pin_callback : Text → S → Option Text × S
    pub passkey_callback : Text → S → Option ℕ × S
    pub confirm_callback : Text → ℕ → S → Bool × S
    pub authorization_callback : Text → S → Bool × S

-- The callbacks of an agent that was given none.
unfoldable pub default_agent : (S : Type 0) → BlueZAgent S
default_agent S = record {
  pin_callback = λ device s. (none, s);
  passkey_callback = λ device s. (none, s);
  confirm_callback = λ device passkey s. (false, s);
  authorization_callback = λ device s. (false, s);
}

-- `_refuse`
abbrev pub refuse {ℓ} : {A : Type ℓ} → Result A
refuse = raised (dbus_error agent_pairing_refused_error)

module _ {S : Type 0} where
  abbrev answer {ℓ} : {A : Type ℓ} → Option A × S → Result A × S
  answer (none, s) = (refuse, s)
  answer (some a, s) = (ok a, s)

  abbrev allow : Bool × S → Result (Unit {0}) × S
  allow (false, s) = (refuse, s)
  allow (true, s) = (ok tt, s)

  unfoldable pub request_pin_code : BlueZAgent S → Text → S → Result Text × S
  request_pin_code a device s = answer (a.pin_callback device s)

  unfoldable pub request_passkey : BlueZAgent S → Text → S → Result ℕ × S
  request_passkey a device s = answer (a.passkey_callback device s)

  unfoldable pub request_confirmation : BlueZAgent S → Text → ℕ → S → Result (Unit {0}) × S
  request_confirmation a device passkey s = allow (a.confirm_callback device passkey s)

  unfoldable pub request_authorization : BlueZAgent S → Text → S → Result (Unit {0}) × S
  request_authorization a device s = allow (a.authorization_callback device s)

  unfoldable pub authorize_service : BlueZAgent S → Text → Text → S → Result (Unit {0}) × S
  authorize_service a device uuid s = allow (a.authorization_callback device s)

unfoldable pub display_pin_code : Text → Text → Dict Request → Dict Request
display_pin_code device pincode requests = insert device (display_pin pincode) requests

unfoldable pub show_passkey : Text → ℕ → ℕ → Dict Request → Dict Request
show_passkey device passkey entered requests =
    insert device (display_passkey passkey entered) requests

unfoldable pub cancel : Dict Request → Dict Request
cancel requests = []

-- ===== src/Bluetooth/Manager/Pairing/Laws.antt =====
-- What the pairing agent answers (backend/bl_haos/bluetooth/manager.py and agent.py).
use bl_haos_bridge.Prelude.{
  ℕ, ◌+◌, ◌<◌, ◌≡◌, subst, ◌⊎◌, ◌↔◌, inl, inr, true, ◌&&◌, Option, none, some, arith, ltb,
  if◌then◌else◌, Option-cases, Bool-cases,
}
use bl_haos_bridge.Dict.{Text, lookup}
use bl_haos_bridge.Text.{text_eq}
use bl_haos_bridge.Address.{normalize_address}
use bl_haos_bridge.Bluetooth.Results.{Result, ok}
use bl_haos_bridge.Bluetooth.Device.Model.{BluetoothDevice}
use bl_haos_bridge.Bluetooth.Device.{trusted}
use bl_haos_bridge.Bluetooth.Agent.{
  refuse, request_pin_code, request_passkey, request_confirmation, request_authorization,
  authorize_service,
}
use bl_haos_bridge.Bluetooth.Manager.Model.{BluetoothManager}
use bl_haos_bridge.Bluetooth.Manager.Pairing.{
  AdapterReplies, address_from_device_path, pairing_window_active, open_pairing_window,
  close_pairing_window, pairing_is_authorized, authorized_pin, authorized_passkey, confirm_pairing,
  numeric, build_agent, opened, pin_or_default, pairing_window_seconds,
}

-- The operator's request for this address is open: it was made, and has not expired.
pub record IsOpenFor (now : ℕ) (a : Text) (m : BluetoothManager) : Type 0 where
  pub opened : m.pairing_address ≡ some a
  pub unexpired : now < m.pairing_expires_at

-- The path names a device, and the operator asked to pair it.
abbrev pub HasConsent : ℕ → Text → BluetoothManager → Type 0
HasConsent now path m = (a : Text) × (address_from_device_path path m ≡ some a) × IsOpenFor now a m

-- The path names a device, and the operator trusts the record at it.
abbrev pub IsTrustedAt : Text → BluetoothManager → Type 0
IsTrustedAt path m =
    (a : Text) × (d : BluetoothDevice) × (address_from_device_path path m ≡ some a)
    × (lookup path m.devices ≡ some d)
    × (trusted d ≡ true)

window-IsOpenFor :
    (now : ℕ) (a : Text) (m : BluetoothManager)
    → (pairing_window_active now a m).0 ≡ true
    → IsOpenFor now a m × ((pairing_window_active now a m).1 ≡ m)
unfolding pairing_window_active
window-IsOpenFor now a m h = ground arith

IsOpenFor-window :
    (now : ℕ) (a : Text) (m : BluetoothManager)
    → IsOpenFor now a m
    → pairing_window_active now a m ≡ (true, m)
unfolding pairing_window_active
IsOpenFor-window now a m h = ground arith

authorized_pin-HasConsent :
    (now : ℕ) (path pin : Text) (m : BluetoothManager)
    → (authorized_pin now path m).0 ≡ some pin
    → HasConsent now path m × (m.pairing_pin ≡ some pin)
unfolding authorized_pin
authorized_pin-HasConsent now path pin m h = elim (Option-cases (address_from_device_path path m)) [
  | inl e ↦ ground (arith, e)
  | inr (a, e) ↦ elim (Bool-cases (pairing_window_active now a m).0) [
    | inl active ↦ let w = window-IsOpenFor now a m active in ((a, e, w.0), ground (arith, e, w.1))
    | inr closed ↦ ground (arith, e)
  ]
]

HasConsent-authorized_pin :
    (now : ℕ) (path : Text) (m : BluetoothManager)
    → HasConsent now path m
    → authorized_pin now path m ≡ (m.pairing_pin, m)
unfolding authorized_pin
HasConsent-authorized_pin now path m (a, e, w) = rw (e, IsOpenFor-window now a m w)

window-devices :
    (now : ℕ) (a : Text) (m : BluetoothManager)
    → (pairing_window_active now a m).1.devices ≡ m.devices
unfolding pairing_window_active
window-devices now a m = ground arith

pairing_is_authorized_sound :
    (now : ℕ) (path : Text) (m : BluetoothManager)
    → (pairing_is_authorized now path m).0 ≡ true
    → HasConsent now path m ⊎ IsTrustedAt path m
unfolding pairing_is_authorized
pairing_is_authorized_sound now path m h = elim (Option-cases (address_from_device_path path m)) [
  | inl e ↦ ground (arith, e)
  | inr (a, e) ↦ elim (Bool-cases (pairing_window_active now a m).0) [
    | inl active ↦ inl (a, e, (window-IsOpenFor now a m active).0)
    | inr closed ↦ elim (Option-cases (lookup path m.devices)) [
      | inl missing ↦ ground (arith, e, window-devices now a m)
      | inr (d, found) ↦ inr (a, d, e, found, ground (arith, e, window-devices now a m))
    ]
  ]
]

pairing_is_authorized_complete :
    (now : ℕ) (path : Text) (m : BluetoothManager)
    → HasConsent now path m ⊎ IsTrustedAt path m
    → (pairing_is_authorized now path m).0 ≡ true
unfolding pairing_is_authorized
pairing_is_authorized_complete now path m (inl (a, e, w)) = rw (e, IsOpenFor-window now a m w)
pairing_is_authorized_complete now path m (inr (a, d, e, found, t)) =
    ground (arith, window-devices now a m)

-- The agent hands out the PIN of the manager, or the passkey that it spells, exactly when the
-- object path names a device whose pairing the operator asked for, by this address, and the
-- window has not expired.
pub agent-gives :
    (now passkey : ℕ) (path pin : Text) (m : BluetoothManager)
    → (((request_pin_code (build_agent now) path m).0 ≡ ok pin)
        ↔ (HasConsent now path m × (m.pairing_pin ≡ some pin)))
      × (((request_passkey (build_agent now) path m).0 ≡ ok passkey)
          ↔ (HasConsent now path m × (numeric m.pairing_pin ≡ some passkey)))
unfolding request_pin_code request_passkey build_agent authorized_passkey
agent-gives now passkey path pin m = ((pin_only, pin_when), (passkey_only, passkey_when))
  where
    pin_only :
        (request_pin_code (build_agent now) path m).0 ≡ ok pin
        → HasConsent now path m × (m.pairing_pin ≡ some pin)
    pin_only h = authorized_pin-HasConsent now path pin m (ground arith)

    pin_when :
        HasConsent now path m × (m.pairing_pin ≡ some pin)
        → (request_pin_code (build_agent now) path m).0 ≡ ok pin
    pin_when (c, h) = ground (arith, HasConsent-authorized_pin now path m c)

    passkey_only :
        (request_passkey (build_agent now) path m).0 ≡ ok passkey
        → HasConsent now path m × (numeric m.pairing_pin ≡ some passkey)
    passkey_only h = elim (Option-cases (authorized_pin now path m).0) [
      | inl e ↦ ground (arith, e)
      | inr (p, e) ↦
          let (consent, kept) = authorized_pin-HasConsent now path p m e in
          (consent, ground (arith, e, kept))
    ]

    passkey_when :
        HasConsent now path m × (numeric m.pairing_pin ≡ some passkey)
        → (request_passkey (build_agent now) path m).0 ≡ ok passkey
    passkey_when (c, h) = ground (arith, HasConsent-authorized_pin now path m c)

-- The agent confirms a passkey, authorizes a connection or authorizes a service exactly when
-- the path names a device for which the pairing window is open and has not expired, or one
-- whose record is trusted.
pub agent-allows :
    (now : ℕ) (path uuid : Text) (passkey : ℕ) (m : BluetoothManager)
    → (((request_confirmation (build_agent now) path passkey m).0 ≡ ok tt)
        ↔ (HasConsent now path m ⊎ IsTrustedAt path m))
      × (((request_authorization (build_agent now) path m).0 ≡ ok tt)
          ↔ (HasConsent now path m ⊎ IsTrustedAt path m))
      × (((authorize_service (build_agent now) path uuid m).0 ≡ ok tt)
          ↔ (HasConsent now path m ⊎ IsTrustedAt path m))
unfolding request_confirmation request_authorization authorize_service build_agent confirm_pairing
agent-allows now path uuid passkey m = ((only, when), (only, when), (only, when))
  where
    only :
        (request_authorization (build_agent now) path m).0 ≡ ok tt
        → HasConsent now path m ⊎ IsTrustedAt path m
    only h = pairing_is_authorized_sound now path m (ground arith)

    when :
        HasConsent now path m ⊎ IsTrustedAt path m
        → (request_authorization (build_agent now) path m).0 ≡ ok tt
    when c = ground (arith, pairing_is_authorized_complete now path m c)

-- What the window that was opened at `t` for `a` answers at `now` to the device `asked`.
abbrev pub answer_at : ℕ → ℕ → Text → Text → Option Text → Result Text
answer_at t now a pin none = refuse
answer_at t now a pin (some asked) =
    if ltb now (t + pairing_window_seconds) && text_eq a asked then ok pin else refuse

opened-answers :
    (t now : ℕ) (replies : AdapterReplies) (a path : Text) (pin : Option Text)
    (m : BluetoothManager)
    → (request_pin_code (build_agent now) path (opened t replies pin a m)).0
      ≡ answer_at t now a (pin_or_default pin) (address_from_device_path path m)
unfolding request_pin_code build_agent authorized_pin address_from_device_path
opened-answers t now replies a path pin m = elim (Option-cases (address_from_device_path path m)) [
  | inl e ↦ ground (arith, e)
  | inr (asked, e) ↦ unfold pairing_window_active in ground (arith, e)
]

-- Once a pairing window was opened at a time, the agent answers a request for a PIN with the
-- operator's PIN, or 0000 when there was none, for the same address during the next 90 seconds,
-- and refuses every other address and every later time.
pub open_pairing_window-answers :
    (t now : ℕ) (replies : AdapterReplies) (addr path : Text) (pin : Option Text)
    → (m : BluetoothManager) {m' : BluetoothManager}
    → open_pairing_window t replies addr pin m ≡ some m'
    → (a : Text) × (normalize_address addr ≡ some a)
      × ((request_pin_code (build_agent now) path m').0
          ≡ answer_at t now a (pin_or_default pin) (address_from_device_path path m))
unfolding open_pairing_window
open_pairing_window-answers t now replies addr path pin m h =
    elim (Option-cases (normalize_address addr)) [
      | inl e ↦ ground (arith, e)
      | inr (a, e) ↦ (
        a,
        e,
        subst
            (λ n.
              (request_pin_code (build_agent now) path n).0
              ≡ answer_at t now a (pin_or_default pin) (address_from_device_path path m))
            (ground (arith, e)) (opened-answers t now replies a path pin m),
      )
    ]

closed-no_consent :
    (now : ℕ) (replies : AdapterReplies) (path : Text) (m : BluetoothManager)
    → HasConsent now path (close_pairing_window replies m)
    → ⊥
unfolding close_pairing_window
closed-no_consent now replies path m (a, e, w) = let h = w.opened in cc

no_window-no_consent :
    (now : ℕ) (path : Text) (m : BluetoothManager)
    → m.pairing_address ≡ none
    → HasConsent now path m
    → ⊥
no_window-no_consent now path m h (a, e, w) = let o = w.opened in cc

-- Without a window the agent gives no PIN.
pub no_window-refuses :
    (now : ℕ) (path : Text) (m : BluetoothManager)
    → m.pairing_address ≡ none
    → (request_pin_code (build_agent now) path m).0 ≡ refuse
unfolding request_pin_code build_agent
no_window-refuses now path m h = ground (arith, no_pin)
  where
    no_pin : (authorized_pin now path m).0 ≡ none
    no_pin = elim (Option-cases (authorized_pin now path m).0) [
      | inl e ↦ e
      | inr (pin, e) ↦
          absurd (no_window-no_consent now path m h (authorized_pin-HasConsent now path pin m e).0)
    ]

-- After the pairing window was closed, and whatever the time, the agent gives no device a PIN
-- or a passkey, and confirms a pairing exactly for a path that names a device whose record is
-- trusted.
pub close_pairing_window-refuses :
    (now passkey : ℕ) (replies : AdapterReplies) (path : Text) (m : BluetoothManager)
    → ((request_pin_code (build_agent now) path (close_pairing_window replies m)).0 ≡ refuse)
      × ((request_passkey (build_agent now) path (close_pairing_window replies m)).0 ≡ refuse)
      × (((request_confirmation (build_agent now) path passkey (close_pairing_window replies m)).0
            ≡ ok tt)
          ↔ IsTrustedAt path (close_pairing_window replies m))
unfolding request_pin_code request_passkey build_agent authorized_passkey
close_pairing_window-refuses now passkey replies path m =
    (ground (arith, no_pin), ground (arith, no_pin), (only, when))
  where
    closed : BluetoothManager
    closed = close_pairing_window replies m

    no_pin : (authorized_pin now path closed).0 ≡ none
    no_pin = elim (Option-cases (authorized_pin now path closed).0) [
      | inl e ↦ e
      | inr (pin, e) ↦
          absurd (
            closed-no_consent now replies path m
              (authorized_pin-HasConsent now path pin closed e).0)
    ]

    trusted_only : HasConsent now path closed ⊎ IsTrustedAt path closed → IsTrustedAt path closed
    trusted_only (inl c) = absurd (closed-no_consent now replies path m c)
    trusted_only (inr t) = t

    only :
        (request_confirmation (build_agent now) path passkey closed).0 ≡ ok tt
        → IsTrustedAt path closed
    only h = trusted_only ((agent-allows now path path passkey closed).0.0 h)

    when :
        IsTrustedAt path closed
        → (request_confirmation (build_agent now) path passkey closed).0 ≡ ok tt
    when t = (agent-allows now path path passkey closed).0.1 (inr t)

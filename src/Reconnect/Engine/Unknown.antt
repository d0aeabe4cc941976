-- ===== src/Reconnect/Engine/Unknown.antt =====
-- Events of speakers that are not registered (backend/bl_haos/bluetooth/reconnect.py:
-- _on_device_event, register_speaker).
use bl_haos_bridge.Prelude.{
  ◌≡◌, ◌↔◌, ◌≢◌, refl, true, false, Option, none, some, arith, inl, inr, Bool-cases,
}
use bl_haos_bridge.Dict.{Text, lookup, lookup-insert_self}
use bl_haos_bridge.Address.{normalize_address}
use bl_haos_bridge.Address.Laws.{normalize_address-canonical}
use bl_haos_bridge.Reconnect.Model.{Time, DeviceInfo, SpeakerReconnectProfile, new_profile}
use bl_haos_bridge.Reconnect.Tracking.{Engine, Draws, register_speaker, register_at}
use bl_haos_bridge.Reconnect.Engine.{
  on_device_event, at_address, at_device, on_unknown_device, on_enrolled, is_candidate,
}

-- What a device has to be for its event to raise: a sink that would be registered, and is not,
-- while registration is switched off.
abbrev pub IsTurnedAway : DeviceInfo → Text → Engine → Type 0
IsTurnedAway device addr e =
    (lookup addr e.profiles ≡ none) × (is_candidate device ≡ true) × (e.globally_enabled ≡ false)

module _ (now : Time) (draws : Draws) (addr : Text) (device : DeviceInfo) (e : Engine)
    (canonical : normalize_address addr ≡ some addr) where
  registers : register_speaker addr true none e ≡ some (register_at addr true none e)
  registers = unfold register_speaker in rw canonical refl

  turned_away : IsTurnedAway device addr e → on_unknown_device now draws addr device e ≡ none
  turned_away (missing, candidate, closed) = rw (candidate, registers, closed, missing) refl

  ignored : is_candidate device ≡ false → on_unknown_device now draws addr device e ≡ some e
  ignored uninteresting = rw uninteresting refl

  -- With the gate open the speaker is registered, so the lookup behind it finds it.
  admitted :
      lookup addr e.profiles ≡ none
      → e.globally_enabled ≡ true
      → on_enrolled now draws addr device.connected (register_at addr true none e) ≢ none
  admitted missing opened h =
      let p = new_profile e.next_object addr true none in
      ground (arith, lookup-insert_self addr p e.profiles)

  on_unknown_device-IsTurnedAway :
      lookup addr e.profiles ≡ none
      → on_unknown_device now draws addr device e ≡ none
      → IsTurnedAway device addr e
  on_unknown_device-IsTurnedAway missing h = elim (Bool-cases (is_candidate device)) [
    | inr uninteresting ↦ ground (arith, ignored uninteresting)
    | inl candidate ↦ elim (Bool-cases e.globally_enabled) [
      | inr closed ↦ (missing, candidate, closed)
      | inl opened ↦ absurd (admitted missing opened (rw (candidate, registers) at h))
    ]
  ]

  at_device-raises :
      (o : Option SpeakerReconnectProfile)
      → lookup addr e.profiles ≡ o
      → at_device now draws addr device o e ≡ none
      → IsTurnedAway device addr e
  at_device-raises none found h = on_unknown_device-IsTurnedAway found h
  at_device-raises (some p) found h = cc

-- The event of a device raises (a KeyError, since the profile that was to be registered is
-- missing) exactly when its address is valid, it is not registered, it is an audio sink that is
-- trusted, paired or connected, and automatic reconnection is switched off.
pub on_device_event-raises :
    (now : Time) (draws : Draws) (device : DeviceInfo) (e : Engine)
    → (on_device_event now draws device e ≡ none) ↔ (
        (addr : Text) × (normalize_address device.address ≡ some addr) × IsTurnedAway device addr e)
unfolding on_device_event
on_device_event-raises now draws device e = (forth (normalize_address device.address) refl, back)
  where
    forth :
        (o : Option Text)
        → normalize_address device.address ≡ o
        → at_address now draws device o e ≡ none
        → (addr : Text) × (normalize_address device.address ≡ some addr)
          × IsTurnedAway device addr e
    forth none n h = cc
    forth (some addr) n h = (
      addr,
      n,
      at_device-raises now draws addr device e (normalize_address-canonical device.address addr n).1
          (lookup addr e.profiles) refl h,
    )

    back :
        (addr : Text) × (normalize_address device.address ≡ some addr) × IsTurnedAway device addr e
        → at_address now draws device (normalize_address device.address) e ≡ none
    back (addr, n, (missing, candidate, closed)) =
        rw (n, missing)
          (turned_away now draws addr device e (normalize_address-canonical device.address addr n).1
            (missing, candidate, closed))

-- ===== src/Reconnect/Engine/Induction.antt =====
-- Induction over the steps of the reconnect engine: what an invariant has to be kept by
-- (backend/bl_haos/bluetooth/reconnect.py, AutoReconnectEngine).
use bl_haos_bridge.Prelude.{
  ◌>>=◌, ℕ, ◌≡◌, refl, Bool, true, false, not, List, Option, none, some, All, Bool-cases, inl, inr,
  if◌then◌else◌, some-injective, >>=-eq-some, subst, arith,
}
use bl_haos_bridge.Dict.{Text, lookup}
use bl_haos_bridge.Address.{normalize_address}
use bl_haos_bridge.Health.{HealthRegistry}
use bl_haos_bridge.Reconnect.Model.{Config, Time, DeviceInfo, SpeakerReconnectProfile}
use bl_haos_bridge.Reconnect.Tracking.{
  Engine, Draws, Task, Phase, init, register_speaker, register_at, enrol, unregister_at,
  unregister_speaker, unregister_all, set_global_enabled, update_profile, keys,
}
use bl_haos_bridge.Reconnect.Engine.{
  BluetoothEvent, Outcome, handle_bluetooth_event, on_device_event, at_address, at_device,
  on_unknown_device, on_enrolled, on_profile_event, device_noted, is_candidate, tick, begin, finish,
  release_inflight, start, stop_begin, stop_end, is_done,
}
use bl_haos_bridge.Reconnect.Engine.Steps.{Step, Reach}

-- A property of both branches of a test holds of the test.
pub if-cases {ℓ κ} :
    {A : Type ℓ} (P : A → Type κ) (b : Bool) (x y : A)
    → (b ≡ true → P x)
    → (b ≡ false → P y)
    → P (if b then x else y)
if-cases P true x y p q = p refl
if-cases P false x y p q = q refl

-- The moves that the steps are made of, each with what the code has found out before it.
pub record Preserved (P : Engine → Type 0) : Type 0 where
  pub enrols :
      (address addr : Text) (enabled : Bool) (adapter : Option Text) (e : Engine)
      → normalize_address address ≡ some addr
      → e.globally_enabled ≡ true
      → P e
      → P (enrol addr enabled adapter (lookup addr e.profiles) e)
  pub unregisters : (addr : Text) (e : Engine) → P e → P (unregister_at addr e)
  pub opens : (e : Engine) → P e → P (record e { globally_enabled = true })
  pub closes :
      (e e' : Engine)
      → unregister_all (keys e.profiles) (record e { globally_enabled = false }) ≡ some e'
      → P e
      → P e'
  pub hears :
      (now : Time) (draws : Draws) (addr : Text) (connected : Bool) (p : SpeakerReconnectProfile)
      (e : Engine)
      → lookup addr e.profiles ≡ some p
      → P e
      → P (update_profile draws.clocks addr (device_noted now connected p) e)
  pub ticks :
      (now : Time) (draws : Text → Draws) (e : Engine)
      → e.running ≡ true
      → P e
      → P (tick now draws e)
  pub begins :
      (now : Time) (draws : Draws) (n : ℕ) (t : Task) (e : Engine)
      → e.tasks n ≡ some t
      → t.phase ≡ Phase.created
      → P e
      → P (begin now draws n t e)
  pub finishes :
      (now : Time) (draws : Draws) (outcome : Outcome) (n : ℕ) (t : Task) (e : Engine)
      → e.tasks n ≡ some t
      → t.phase ≡ Phase.connecting
      → P e
      → P (finish now draws outcome n t e)
  pub releases :
      (n : ℕ) (t : Task) (e : Engine)
      → e.tasks n ≡ some t
      → t.phase ≡ Phase.finished
      → P e
      → P (release_inflight t.address n e)
  pub starts : (e : Engine) → e.awaited ≡ none → P e → P (start e)
  pub stops : (e : Engine) → e.awaited ≡ none → P e → P (stop_begin e)
  pub gathers :
      (ns : List ℕ) (e : Engine)
      → e.awaited ≡ some ns
      → All (λ n. is_done (e.tasks n) ≡ true) ns
      → P e
      → P (stop_end e)

module _ (P : Engine → Type 0) (k : Preserved P) where
  registered :
      (address : Text) (enabled : Bool) (adapter : Option Text) (e e' : Engine)
      → P e
      → register_speaker address enabled adapter e ≡ some e'
      → P e'
  unfolding register_speaker
  registered address enabled adapter e e' v h =
      let (addr, n, s) =
        >>=-eq-some (normalize_address address) (λ a. some (register_at a enabled adapter e)) h in
      subst P (some-injective s) (
        if-cases P (not e.globally_enabled) e
          (enrol addr enabled adapter (lookup addr e.profiles) e) (λ _. v)
          (λ open_gate. k.enrols address addr enabled adapter e n (ground arith) v))

  unregistered :
      (address : Text) (e e' : Engine) → P e → unregister_speaker address e ≡ some e' → P e'
  unfolding unregister_speaker
  unregistered address e e' v h =
      let (addr, _, s) =
        >>=-eq-some (normalize_address address) (λ a. some (unregister_at a e)) h in
      subst P (some-injective s) (k.unregisters addr e v)

  gated : (enabled : Bool) (e e' : Engine) → P e → set_global_enabled enabled e ≡ some e' → P e'
  unfolding set_global_enabled
  gated true e e' v h = subst P (some-injective h) (k.opens e v)
  gated false e e' v h = k.closes e e' h v

  heard_profile :
      (now : Time) (draws : Draws) (addr : Text) (connected : Bool) (p : SpeakerReconnectProfile)
      (e : Engine)
      → lookup addr e.profiles ≡ some p
      → P e
      → P (on_profile_event now draws addr connected p e)
  heard_profile now draws addr connected p e found v =
      if-cases P (not p.enabled) e
        (update_profile draws.clocks addr (device_noted now connected p) e) (λ _. v)
        (λ _. k.hears now draws addr connected p e found v)

  heard_enrolled :
      (now : Time) (draws : Draws) (addr : Text) (connected : Bool) (e e' : Engine)
      → P e
      → on_enrolled now draws addr connected e ≡ some e'
      → P e'
  heard_enrolled now draws addr connected e e' v h =
      let (p, found, s) =
        >>=-eq-some (lookup addr e.profiles)
          (λ p. some (on_profile_event now draws addr connected p e)) h in
      subst P (some-injective s) (heard_profile now draws addr connected p e found v)

  heard_candidate :
      (now : Time) (draws : Draws) (addr : Text) (connected : Bool) (e e' : Engine)
      → P e
      → (register_speaker addr true none e >>= on_enrolled now draws addr connected) ≡ some e'
      → P e'
  heard_candidate now draws addr connected e e' v h =
      let (m, r, s) =
        >>=-eq-some (register_speaker addr true none e) (on_enrolled now draws addr connected) h in
      heard_enrolled now draws addr connected m e' (registered addr true none e m v r) s

  heard_unknown :
      (now : Time) (draws : Draws) (addr : Text) (device : DeviceInfo) (e e' : Engine)
      → P e
      → on_unknown_device now draws addr device e ≡ some e'
      → P e'
  heard_unknown now draws addr device e e' v h = elim (Bool-cases (is_candidate device)) [
    | inr ignored ↦ subst P (some-injective (rw ignored at h)) v
    | inl candidate ↦ heard_candidate now draws addr device.connected e e' v (rw candidate at h)
  ]

  heard_at :
      (now : Time) (draws : Draws) (addr : Text) (device : DeviceInfo)
      (o : Option SpeakerReconnectProfile) (e e' : Engine)
      → lookup addr e.profiles ≡ o
      → P e
      → at_device now draws addr device o e ≡ some e'
      → P e'
  heard_at now draws addr device none e e' found v h = heard_unknown now draws addr device e e' v h
  heard_at now draws addr device (some p) e e' found v h =
      subst P (some-injective h) (heard_profile now draws addr device.connected p e found v)

  heard_address :
      (now : Time) (draws : Draws) (device : DeviceInfo) (o : Option Text) (e e' : Engine)
      → P e
      → at_address now draws device o e ≡ some e'
      → P e'
  heard_address now draws device none e e' v h = subst P (some-injective h) v
  heard_address now draws device (some addr) e e' v h =
      heard_at now draws addr device (lookup addr e.profiles) e e' refl v h

  heard_running :
      (now : Time) (draws : Draws) (device : DeviceInfo) (e e' : Engine)
      → P e
      → (if not e.running then some e else on_device_event now draws device e) ≡ some e'
      → P e'
  unfolding on_device_event
  heard_running now draws device e e' v h = elim (Bool-cases (not e.running)) [
    | inl off ↦ subst P (some-injective (rw off at h)) v
    | inr on ↦ heard_address now draws device (normalize_address device.address) e e' v (rw on at h)
  ]

  heard :
      (now : Time) (draws : Draws) (event : BluetoothEvent) (e e' : Engine)
      → P e
      → handle_bluetooth_event now draws event e ≡ some e'
      → P e'
  unfolding handle_bluetooth_event
  heard now draws (BluetoothEvent.device_updated d) e e' v h = heard_running now draws d e e' v h
  heard now draws (BluetoothEvent.device_discovered d) e e' v h = heard_running now draws d e e' v h
  heard now draws BluetoothEvent.other e e' v h = subst P (some-injective h) v

  pub step_keeps : (e e' : Engine) → Step e e' → P e → P e'
  step_keeps e e' (Step.registers address enabled adapter h) v =
      registered address enabled adapter e e' v h
  step_keeps e e' (Step.unregisters address h) v = unregistered address e e' v h
  step_keeps e e' (Step.gates enabled h) v = gated enabled e e' v h
  step_keeps e e' (Step.hears now draws event h) v = heard now draws event e e' v h
  step_keeps e e' (Step.ticks now draws on h) v = subst P h (k.ticks now draws e on v)
  step_keeps e e' (Step.begins now draws n t h c s) v = subst P s (k.begins now draws n t e h c v)
  step_keeps e e' (Step.finishes now draws outcome n t h c s) v =
      subst P s (k.finishes now draws outcome n t e h c v)
  step_keeps e e' (Step.releases n t h f s) v = subst P s (k.releases n t e h f v)
  step_keeps e e' (Step.starts idle s) v = subst P s (k.starts e idle v)
  step_keeps e e' (Step.stops idle s) v = subst P s (k.stops e idle v)
  step_keeps e e' (Step.gathers ns w done s) v = subst P s (k.gathers ns e w done v)

-- An invariant of the new engine that every move keeps holds of all that can be reached.
pub reach_keeps :
    (P : Engine → Type 0) {c : Config} {health : Option HealthRegistry} {e : Engine}
    → Preserved P
    → P (init c health)
    → Reach c health e
    → P e
reach_keeps P k v Reach.fresh = v
reach_keeps P k v (Reach.next {e} {e'} r s) = step_keeps P k e e' s (reach_keeps P k v r)

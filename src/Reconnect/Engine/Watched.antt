-- ===== src/Reconnect/Engine/Watched.antt =====
-- The invariant of the profile table (backend/bl_haos/bluetooth/reconnect.py: profiles,
-- globally_enabled).
use bl_haos_bridge.Prelude.{
  ℕ, ◌≡◌, refl, sym, ◌∙◌, subst, Bool, true, false, ◌&&◌, [], ◌∷◌, Option, none, some, arith, All,
  >>=-eq-some, if◌then◌else◌, ◌==◌,
}
use bl_haos_bridge.Dict.{Text, Dict, lookup, insert, erase, insert-All}
use bl_haos_bridge.Address.{normalize_address}
use bl_haos_bridge.Address.Laws.{normalize_address-canonical}
use bl_haos_bridge.Health.{HealthRegistry}
use bl_haos_bridge.Reconnect.Model.{Config, Time, SpeakerReconnectProfile, new_profile}
use bl_haos_bridge.Reconnect.Profile.{begin_attempt, tick_profile}
use bl_haos_bridge.Reconnect.Profile.Laws.{new_profile-IsSound}
use bl_haos_bridge.Reconnect.Tracking.{
  Engine, Draws, Task, Phase, init, current_profile, renewed, enrol, update_profile,
}
use bl_haos_bridge.Reconnect.Engine.{
  Outcome, device_noted, outcome_noted, tick, tick_entries, spawn_due, begin, begin_current, finish,
  tick_entry, finish_current, may_begin, release_inflight, start, stop_begin, stop_end, is_held,
  may_attempt, spawn, with_phase,
}
use bl_haos_bridge.Reconnect.Engine.Induction.{if-cases, Preserved, reach_keeps}
use bl_haos_bridge.Reconnect.Engine.Steps.{Reach}
use bl_haos_bridge.Reconnect.Engine.Profiles.{
  IsWatched, HasTable, Kept, write-IsTable, clear-IsTable, device-Kept, outcome-Kept, begin-Kept,
  tick-Kept, renewed-Kept,
}
use bl_haos_bridge.Reconnect.Engine.Closing.{closes-HasTable}

enrol-HasTable :
    (c : Config) (addr : Text) (enabled : Bool) (adapter : Option Text)
    (o : Option SpeakerReconnectProfile) (e : Engine)
    → normalize_address addr ≡ some addr
    → e.globally_enabled ≡ true
    → lookup addr e.profiles ≡ o
    → HasTable c e
    → HasTable c (enrol addr enabled adapter o e)
enrol-HasTable c addr enabled adapter none e n opened found v = record {
  same = v.same;
  entries =
      insert-All (IsWatched c) addr (new_profile e.next_object addr enabled adapter) e.profiles
        v.entries
        (record {
          canonical = n;
          own = refl;
          sound = new_profile-IsSound c e.next_object addr enabled adapter;
        });
  gated = λ closed. cc;
}
enrol-HasTable c addr enabled adapter (some p) e n opened found v =
    write-IsTable c e.config e.globally_enabled e.profiles v addr p (renewed enabled adapter p)
      found (renewed-Kept c enabled adapter p)

spawn_due-HasTable :
    (c : Config) (due : Bool) (addr : Text) (identity : ℕ) (e : Engine)
    → HasTable c e
    → HasTable c (spawn_due due addr identity e)
spawn_due-HasTable c due addr identity e v =
    if-cases (HasTable c) (due && may_attempt addr e) (spawn addr identity e) e (λ _. v) (λ _. v)

put-HasTable :
    (c : Config) (a : Text) (q : SpeakerReconnectProfile) (health : Option HealthRegistry)
    (e : Engine)
    → IsWatched c (a, q)
    → e.globally_enabled ≡ true
    → HasTable c e
    → HasTable c (record e { profiles = insert a q e.profiles; health = health })
put-HasTable c a q health e w opened v = record {
  same = v.same;
  entries = insert-All (IsWatched c) a q e.profiles v.entries w;
  gated = λ closed. cc;
}

Kept-IsWatched :
    (c : Config) (a : Text) (p q : SpeakerReconnectProfile)
    → IsWatched c (a, p)
    → Kept c p q
    → IsWatched c (a, q)
Kept-IsWatched c a p q w k = record {
  canonical = w.canonical;
  own = k.address ∙ w.own;
  sound = k.sound w.sound;
}

tick_entries-HasTable :
    (c : Config) (now : Time) (draws : Text → Draws) (entries : Dict SpeakerReconnectProfile)
    (e : Engine)
    → All (IsWatched c) entries
    → (e.globally_enabled ≡ false → entries ≡ [])
    → HasTable c e
    → HasTable c (tick_entries now draws entries e)
unfolding tick_entries tick_entry
tick_entries-HasTable c now draws [] e ws gate v = v
tick_entries-HasTable c now draws ((addr, p) ∷ entries) e ws gate v =
    let d = draws addr in
    let (q, notes, due) = tick_profile e.config d.jitter now p in
    let e₁ = update_profile d.clocks addr (q, notes) e in
    let opened : e.globally_enabled ≡ true = ground arith in
    let kept : Kept c p (tick_profile e.config d.jitter now p).0 =
      subst (λ k. Kept c p (tick_profile k d.jitter now p).0) (sym v.same)
        (tick-Kept c d.jitter now p) in
    tick_entries-HasTable c now draws entries (spawn_due due addr q.identity e₁) ws.1
      (after (due && may_attempt addr e₁) addr q.identity e₁ opened)
      (spawn_due-HasTable c due addr q.identity e₁
        (put-HasTable c addr q e₁.health e (Kept-IsWatched c addr p q ws.0 kept) opened v))
  where
    after :
        (b : Bool) (addr : Text) (identity : ℕ) (e₁ : Engine)
        → e₁.globally_enabled ≡ true
        → (if b then spawn addr identity e₁ else e₁).globally_enabled ≡ false
        → entries ≡ []
    after true addr identity e₁ opened closed = cc
    after false addr identity e₁ opened closed = cc

-- `self.profiles.get(addr) is profile`
current-found :
    (a : Text) (identity : ℕ) (e : Engine) (p : SpeakerReconnectProfile)
    → current_profile a identity e ≡ some p
    → lookup a e.profiles ≡ some p
current-found a identity e p h =
    let (q, found, s) =
      >>=-eq-some (lookup a e.profiles) (λ p. if p.identity == identity then some p else none) h in
    found ∙ same q s
  where
    same :
        (q : SpeakerReconnectProfile)
        → (if q.identity == identity then some q else none) ≡ some p
        → some q ≡ some p
    same q s = ground arith

begin_current-HasTable :
    (c : Config) (now : Time) (draws : Draws) (n : ℕ) (t : Task)
    (o : Option SpeakerReconnectProfile) (e : Engine)
    → current_profile t.address t.profile e ≡ o
    → HasTable c e
    → HasTable c (begin_current now draws n t o e)
begin_current-HasTable c now draws n t none e current v = v
begin_current-HasTable c now draws n t (some p) e current v =
    if-cases (HasTable c) (may_begin now p)
      (with_phase Phase.connecting n t (update_profile draws.clocks t.address (begin_attempt p) e))
      (with_phase Phase.finished n t e)
      (λ _.
        write-IsTable c e.config e.globally_enabled e.profiles v t.address p (begin_attempt p).0
          (current-found t.address t.profile e p current) (begin-Kept c p))
      (λ _. v)

finish_current-HasTable :
    (c : Config) (now : Time) (draws : Draws) (outcome : Outcome) (n : ℕ) (t : Task)
    (o : Option SpeakerReconnectProfile) (e : Engine)
    → current_profile t.address t.profile e ≡ o
    → HasTable c e
    → HasTable c (finish_current now draws outcome n t o e)
finish_current-HasTable c now draws outcome n t none e current v = v
finish_current-HasTable c now draws outcome n t (some p) e current v =
    write-IsTable c e.config e.globally_enabled e.profiles v t.address p
      (outcome_noted e.config draws.jitter now outcome p).0
      (current-found t.address t.profile e p current)
      (subst (λ k. Kept c p (outcome_noted k draws.jitter now outcome p).0) (sym v.same)
        (outcome-Kept c draws.jitter now outcome p))

HasTable-kept : (c : Config) → Preserved (HasTable c)
HasTable-kept c = record {
  enrols = λ address addr enabled adapter e n opened v.
      enrol-HasTable c addr enabled adapter (lookup addr e.profiles) e
        (normalize_address-canonical address addr n).1 opened refl v;
  unregisters = λ addr e v. clear-IsTable c e.config e.globally_enabled e.profiles v addr;
  opens = λ e v. record { same = v.same; entries = v.entries; gated = λ closed. cc };
  closes = closes-HasTable c;
  hears = λ now draws addr connected p e found v.
      write-IsTable c e.config e.globally_enabled e.profiles v addr p
        (device_noted now connected p).0 found (device-Kept c now connected p);
  ticks = λ now draws e on v.
      unfold tick in tick_entries-HasTable c now draws e.profiles e v.entries v.gated v;
  begins = λ now draws n t e h created v.
      unfold begin in
      if-cases (HasTable c) t.cancelled (with_phase Phase.finished n t e)
        (begin_current now draws n t (current_profile t.address t.profile e) e) (λ _. v)
        (λ _.
          begin_current-HasTable c now draws n t (current_profile t.address t.profile e) e refl v);
  finishes = λ now draws outcome n t e h connecting v.
      unfold finish in
      finish_current-HasTable c now draws outcome n t (current_profile t.address t.profile e) e refl
        v;
  releases = λ n t e h finished v.
      unfold release_inflight in
      if-cases (HasTable c) (is_held n (lookup t.address e.inflight))
        (record e { inflight = erase t.address e.inflight }) e (λ _. v) (λ _. v);
  starts = λ e idle v.
      unfold start in
      if-cases (HasTable c) e.running e (record e { running = true; loop_alive = true }) (λ _. v)
        (λ _. v);
  stops = λ e idle v. unfold stop_begin in v;
  gathers = λ ns e w done v. unfold stop_end in v;
}

init-HasTable : (c : Config) (health : Option HealthRegistry) → HasTable c (init c health)
unfolding init
init-HasTable c health = record { same = refl; entries = tt; gated = λ closed. refl }

-- In every state that the engine can reach (`start` and `stop` not called while a `stop` still
-- waits for its workers), each profile stands under its canonical address, which is the
-- profile's own, and is sound; and while automatic reconnection is switched off the engine
-- tracks no speaker at all.
pub table-IsWatched :
    (c : Config) (health : Option HealthRegistry) (e : Engine)
    → Reach c health e
    → All (IsWatched c) e.profiles × (e.globally_enabled ≡ false → e.profiles ≡ [])
table-IsWatched c health e r =
    let v = reach_keeps (HasTable c) (HasTable-kept c) (init-HasTable c health) r in
    (v.entries, v.gated)

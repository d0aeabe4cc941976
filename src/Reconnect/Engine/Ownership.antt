-- ===== src/Reconnect/Engine/Ownership.antt =====
-- Which task owns a speaker (backend/bl_haos/bluetooth/reconnect.py: _inflight).
use bl_haos_bridge.Prelude.{
  ℕ, ◌≡◌, ◌≢◌, refl, sym, ap, ◌∙◌, Bool, true, false, ◌&&◌, List, [], ◌∷◌, map, Option, none, some,
  arith, some-injective, subst, Bool-cases, inl, inr,
}
use bl_haos_bridge.Dict.{Text, Dict, lookup, insert, Text-discrete, lookup-insert}
use bl_haos_bridge.Health.{HealthRegistry, Clock}
use bl_haos_bridge.Reconnect.Model.{Config, Time, SpeakerReconnectProfile}
use bl_haos_bridge.Reconnect.Profile.{Noted, tick_profile, begin_attempt}
use bl_haos_bridge.Reconnect.Tracking.{
  Engine, Draws, Task, Phase, is_finished, put_task, cancel_task, init, update_profile, keys,
  current_profile, tell_all,
}
use bl_haos_bridge.Reconnect.Engine.{
  Outcome, tick, begin, finish, release_inflight, start, stop_begin, stop_end, may_attempt,
  with_phase, begin_current, finish_current, may_begin, is_held, outcome_noted, device_noted, spawn,
  spawn_due, cancel_all, workers, tick_entries,
}
use bl_haos_bridge.Reconnect.Engine.Steps.{Reach}
use bl_haos_bridge.Reconnect.Engine.Tracked.{
  enrol-IsOwned, unregister_at-IsOwned, unregister_all-IsOwned, erase-IsOwned,
}
use bl_haos_bridge.Reconnect.Engine.Induction.{Preserved, reach_keeps, if-cases}
use bl_haos_bridge.Reconnect.Engine.Table.{
  is_live, IsOwned, track-IsOwned, Fewer, Fewer-IsOwned, cancel_task-Fewer, cancel_task-not_live,
  put_task-Fewer, trans-Fewer, Fewer-quiet,
}

-- A new task takes the place of a finished one.
spawn-owner :
    (addr : Text) (identity : ℕ) (e : Engine)
    → IsOwned e
    → may_attempt addr e ≡ true
    → (n : ℕ) (t : Task) → (spawn addr identity e).tasks n ≡ some t
    → is_live t ≡ true
    → lookup t.address (spawn addr identity e).inflight ≡ some n
spawn-owner addr identity e v free n t h l = ground (
  arith,
  lookup-insert addr t.address e.next_object e.inflight,
  v.owner n t,
  ap (λ a. lookup a e.inflight),
)

spawn-IsOwned :
    (addr : Text) (identity : ℕ) (e : Engine)
    → IsOwned e
    → e.running ≡ true
    → may_attempt addr e ≡ true
    → IsOwned (spawn addr identity e)
spawn-IsOwned addr identity e v on free = record {
  fresh = λ n t h. ground (arith, v.fresh n t);
  owner = spawn-owner addr identity e v free;
  off = λ ns h. absurd (ground (arith, v.off ns h));
  quiet = λ ns h. absurd (ground (arith, v.off ns h));
}

spawn_due-IsOwned :
    (due : Bool) (addr : Text) (identity : ℕ) (e : Engine)
    → IsOwned e
    → e.running ≡ true
    → IsOwned (spawn_due due addr identity e) × ((spawn_due due addr identity e).running ≡ true)
spawn_due-IsOwned due addr identity e v on = elim (Bool-cases (due && may_attempt addr e)) [
  | inl yes_due ↦ rw yes_due (spawn-IsOwned addr identity e v on (ground arith), on)
  | inr not_due ↦ rw not_due (v, on)
]

tick_entries-IsOwned :
    (now : Time) (draws : Text → Draws) (entries : Dict SpeakerReconnectProfile) (e : Engine)
    → IsOwned e
    → e.running ≡ true
    → IsOwned (tick_entries now draws entries e)
unfolding tick_entries
tick_entries-IsOwned now draws [] e v on = v
tick_entries-IsOwned now draws ((addr, p) ∷ entries) e v on =
    let d = draws addr in
    let (q, notes, due) = tick_profile e.config d.jitter now p in
    let e₁ = update_profile d.clocks addr (q, notes) e in
    let (v', on') =
      spawn_due-IsOwned due addr q.identity e₁
        (track-IsOwned e₁.profiles e₁.health e.globally_enabled e v) on in
    tick_entries-IsOwned now draws entries (spawn_due due addr q.identity e₁) v' on'

-- Tasks that start, end, and call back.
with_phase-IsOwned :
    (phase : Phase) (n : ℕ) (t : Task) (e : Engine)
    → e.tasks n ≡ some t
    → is_finished t.phase ≡ false
    → IsOwned e
    → IsOwned (with_phase phase n t e)
with_phase-IsOwned phase n t e h f v =
    Fewer-IsOwned e (put_task n (record t { phase = phase }) e.tasks)
      (put_task-Fewer n t (record t { phase = phase }) e.tasks h refl (λ l. ground arith)) v

noted-IsOwned :
    (clocks : ℕ → Clock) (addr : Text) (q : Noted) (e : Engine)
    → IsOwned e
    → IsOwned (update_profile clocks addr q e)
noted-IsOwned clocks addr (p, notes) e v =
    track-IsOwned (insert addr p e.profiles) (tell_all clocks addr notes e.health)
      e.globally_enabled e v

begin_current-IsOwned :
    (now : Time) (draws : Draws) (n : ℕ) (t : Task) (o : Option SpeakerReconnectProfile)
    (e : Engine)
    → e.tasks n ≡ some t
    → is_finished t.phase ≡ false
    → IsOwned e
    → IsOwned (begin_current now draws n t o e)
begin_current-IsOwned now draws n t none e h f v = with_phase-IsOwned Phase.finished n t e h f v
begin_current-IsOwned now draws n t (some p) e h f v =
    if-cases IsOwned (may_begin now p)
      (with_phase Phase.connecting n t (update_profile draws.clocks t.address (begin_attempt p) e))
      (with_phase Phase.finished n t e)
      (λ _.
        with_phase-IsOwned Phase.connecting n t
          (update_profile draws.clocks t.address (begin_attempt p) e) h f
          (noted-IsOwned draws.clocks t.address (begin_attempt p) e v))
      (λ _. with_phase-IsOwned Phase.finished n t e h f v)

begin-IsOwned :
    (now : Time) (draws : Draws) (n : ℕ) (t : Task) (e : Engine)
    → e.tasks n ≡ some t
    → is_finished t.phase ≡ false
    → IsOwned e
    → IsOwned (begin now draws n t e)
unfolding begin
begin-IsOwned now draws n t e h f v =
    let o = current_profile t.address t.profile e in
    if-cases IsOwned t.cancelled (with_phase Phase.finished n t e) (begin_current now draws n t o e)
      (λ _. with_phase-IsOwned Phase.finished n t e h f v)
      (λ _. begin_current-IsOwned now draws n t o e h f v)

finish_current-IsOwned :
    (now : Time) (draws : Draws) (outcome : Outcome) (n : ℕ) (t : Task)
    (o : Option SpeakerReconnectProfile) (e : Engine)
    → e.tasks n ≡ some t
    → is_finished t.phase ≡ false
    → IsOwned e
    → IsOwned (finish_current now draws outcome n t o e)
finish_current-IsOwned now draws outcome n t none e h f v =
    with_phase-IsOwned Phase.finished n t e h f v
finish_current-IsOwned now draws outcome n t (some p) e h f v =
    let q = outcome_noted e.config draws.jitter now outcome p in
    with_phase-IsOwned Phase.finished n t (update_profile draws.clocks t.address q e) h f
      (noted-IsOwned draws.clocks t.address q e v)

is_held-eq : (n : ℕ) (o : Option ℕ) → is_held n o ≡ true → o ≡ some n
is_held-eq n none h = cc
is_held-eq n (some m) h = ground arith

release_inflight-IsOwned :
    (n : ℕ) (t : Task) (e : Engine)
    → e.tasks n ≡ some t
    → t.phase ≡ Phase.finished
    → IsOwned e
    → IsOwned (release_inflight t.address n e)
unfolding release_inflight
release_inflight-IsOwned n t e h f v = elim (Bool-cases (is_held n (lookup t.address e.inflight))) [
  | inr other ↦ rw other v
  | inl held ↦ rw held (erase-IsOwned t.address e (free held) v)
]
  where
    free :
        is_held n (lookup t.address e.inflight) ≡ true
        → (m : ℕ) (s : Task) → e.tasks m ≡ some s
        → is_live s ≡ true
        → s.address ≢ t.address
    free held m s k l a =
        let same : some m ≡ some n =
          sym (v.owner m s k l)
          ∙ ap (λ x. lookup x e.inflight) a
          ∙ is_held-eq n (lookup t.address e.inflight) held in
        ground (arith, ap e.tasks (some-injective same))

-- The worker.
cancel_all-Fewer : (ns : List ℕ) (tasks : ℕ → Option Task) → Fewer tasks (cancel_all ns tasks)
unfolding cancel_all
cancel_all-Fewer [] tasks = record { had = λ m t h. (t, h); live = λ m t h l. (t, h, l, refl) }
cancel_all-Fewer (n ∷ ns) tasks =
    trans-Fewer tasks (cancel_task n tasks) (cancel_all ns (cancel_task n tasks))
      (cancel_task-Fewer n tasks) (cancel_all-Fewer ns (cancel_task n tasks))

-- No live task is left of those that a dictionary holds.
cancel_all-quiet :
    (d : Dict ℕ) (tasks : ℕ → Option Task) (a : Text) (n : ℕ) (t : Task)
    → lookup a d ≡ some n
    → cancel_all (map (λ entry. entry.1) d) tasks n ≡ some t
    → is_live t ≡ false
unfolding cancel_all lookup
cancel_all-quiet [] tasks a n t h k = cc
cancel_all-quiet ((b, m) ∷ d) tasks a n t h k = elim (Text-discrete b a) [
  | yes here ↦
      let same : m ≡ n = ground arith in
      Fewer-quiet (cancel_task m tasks)
        (cancel_all (map (λ entry. entry.1) d) (cancel_task m tasks)) n
        (cancel_all-Fewer (map (λ entry. entry.1) d) (cancel_task m tasks))
        (λ s j. cancel_task-not_live n tasks s (subst (λ i. cancel_task i tasks n ≡ some s) same j))
        t k
  | no there ↦ cancel_all-quiet d (cancel_task m tasks) a n t (ground arith) k
]

stop_begin-IsOwned : (e : Engine) → IsOwned e → IsOwned (stop_begin e)
unfolding stop_begin
stop_begin-IsOwned e v =
    let f = cancel_all-Fewer (workers e) e.tasks in
    let stopped = cancel_all (workers e) e.tasks in
    let w = Fewer-IsOwned e stopped f v in
    record {
      fresh = w.fresh;
      owner = w.owner;
      off = λ ns h. refl;
      quiet = λ ns h n t k. elim (Bool-cases (is_live t)) [
        | inl alive ↦ cancel_all-quiet e.inflight e.tasks t.address n t (w.owner n t k alive) k
        | inr still ↦ still
      ];
    }

stop_end-IsOwned :
    (e : Engine) (ns : List ℕ) → e.awaited ≡ some ns → IsOwned e → IsOwned (stop_end e)
unfolding stop_end
stop_end-IsOwned e ns w v = record {
  fresh = v.fresh;
  owner = λ n t h l. cc (v.quiet ns w n t h);
  off = λ ms h. cc;
  quiet = λ ms h. cc;
}

start-IsOwned : (e : Engine) → e.awaited ≡ none → IsOwned e → IsOwned (start e)
unfolding start
start-IsOwned e idle v =
    if-cases IsOwned e.running e (record e { running = true; loop_alive = true }) (λ _. v)
      (λ _. record { fresh = v.fresh; owner = v.owner; off = λ ns h. cc; quiet = λ ns h. cc })

IsOwned-kept : Preserved IsOwned
IsOwned-kept = record {
  enrols = λ address addr enabled adapter e n g v.
      enrol-IsOwned addr enabled adapter (lookup addr e.profiles) e v;
  unregisters = unregister_at-IsOwned;
  opens = λ e v. track-IsOwned e.profiles e.health true e v;
  closes = λ e e' h v.
      unregister_all-IsOwned (keys e.profiles) (record e { globally_enabled = false }) e'
        (track-IsOwned e.profiles e.health false e v) h;
  hears = λ now draws addr connected p e found v.
      noted-IsOwned draws.clocks addr (device_noted now connected p) e v;
  ticks = λ now draws e on v. unfold tick in tick_entries-IsOwned now draws e.profiles e v on;
  begins = λ now draws n t e h c v. begin-IsOwned now draws n t e h (ap is_finished c) v;
  finishes = λ now draws outcome n t e h c v.
      unfold finish in
      finish_current-IsOwned now draws outcome n t (current_profile t.address t.profile e) e h
        (ap is_finished c) v;
  releases = release_inflight-IsOwned;
  starts = start-IsOwned;
  stops = λ e idle v. stop_begin-IsOwned e v;
  gathers = λ ns e w done v. stop_end-IsOwned e ns w v;
}

init-IsOwned : (c : Config) (health : Option HealthRegistry) → IsOwned (init c health)
unfolding init
init-IsOwned c health = record {
  fresh = λ n t h. cc;
  owner = λ n t h. cc;
  off = λ ns h. cc;
  quiet = λ ns h. cc;
}

pub Reach-IsOwned :
    (c : Config) (health : Option HealthRegistry) (e : Engine) → Reach c health e → IsOwned e
Reach-IsOwned c health e r = reach_keeps IsOwned IsOwned-kept (init-IsOwned c health) r

-- In every state that the engine can reach, in whatever order calls, events, ticks and tasks
-- come as long as `start` and `stop` are not called while a `stop` still waits for its workers,
-- a speaker has at most one attempt that will still act: two live tasks for one address are the
-- same task, and it is the one that `_inflight` holds.
pub one_attempt :
    (c : Config) (health : Option HealthRegistry) (e : Engine) (m n : ℕ) (s t : Task)
    → Reach c health e
    → e.tasks m ≡ some s
    → e.tasks n ≡ some t
    → is_live s ≡ true
    → is_live t ≡ true
    → s.address ≡ t.address
    → (m ≡ n) × (lookup s.address e.inflight ≡ some m)
one_attempt c health e m n s t r hs ht ls lt same =
    let v = Reach-IsOwned c health e r in
    let held = v.owner m s hs ls in
    (some-injective (sym held ∙ ap (λ a. lookup a e.inflight) same ∙ v.owner n t ht lt), held)

-- ===== src/Reconnect/Tracking.antt =====
-- The state of the reconnect engine, and which speakers it tracks
-- (backend/bl_haos/bluetooth/reconnect.py, AutoReconnectEngine).
use bl_haos_bridge.Prelude.{
  ◌>>=◌, ℕ, suc, Bool, true, false, not, ◌&&◌, List, [], ◌∷◌, map, Option, none, some, ◌==◌,
  if◌then◌else◌,
}
use bl_haos_bridge.Dict.{Text, Dict, lookup, insert, erase}
use bl_haos_bridge.Address.{normalize_address}
use bl_haos_bridge.Health.{HealthRegistry, Clock, observe_speaker, record_suppressed_flap, or_text}
use bl_haos_bridge.Reconnect.Model.{
  Config, SpeakerReconnectProfile, new_profile, HealthNote, flap, observe,
}
use bl_haos_bridge.Reconnect.Profile.{Noted}

-- An asyncio task that runs `_attempt_reconnect`: not started, waiting for `connect_device`, or
-- done. `cancelled` says that `cancel()` was called on it.
pub data Phase : Type 0 where
  created connecting finished : Phase

pub record Task : Type 0 where
  pub address : Text
  pub profile : ℕ
  pub phase : Phase
  pub cancelled : Bool

abbrev pub is_finished : Phase → Bool
is_finished Phase.finished = true
is_finished _ = false

-- Tasks and profiles are objects; `next_object` is the identity of the next one. `awaited` holds
-- the workers that `stop` gathers. `loop_alive` says that `_loop_task` has not been cancelled.
pub record Engine : Type 0 where
  pub config : Config
  pub health : Option HealthRegistry
  pub profiles : Dict SpeakerReconnectProfile
  pub globally_enabled : Bool
  pub running : Bool
  pub loop_alive : Bool
  pub awaited : Option (List ℕ)
  pub inflight : Dict ℕ
  pub tasks : ℕ → Option Task
  pub next_object : ℕ

unfoldable pub init : Config → Option HealthRegistry → Engine
init config health = record {
  config = config;
  health = health;
  profiles = [];
  globally_enabled = true;
  running = false;
  loop_alive = false;
  awaited = none;
  inflight = [];
  tasks = λ n. none;
  next_object = 0;
}

-- A write to the task table.
abbrev pub put_task : ℕ → Task → (ℕ → Option Task) → ℕ → Option Task
put_task n t tasks m = if m == n then some t else tasks m

-- What chance and the clocks give to one call: the jitter, and the readings of the health
-- registry's clock for each note.
pub record Draws : Type 0 where
  pub jitter : ℕ
  pub clocks : ℕ → Clock

-- The calls of the health registry, in order. A call that raises leaves the registry alone.
abbrev or_keep : HealthRegistry → Option HealthRegistry → HealthRegistry
or_keep r none = r
or_keep r (some r') = r'

abbrev pub tell_one : Clock → Text → HealthNote → HealthRegistry → Option HealthRegistry
tell_one clock addr (flap reason) r = record_suppressed_flap clock addr (some reason) r
tell_one clock addr (observe state failure detail attempt) r =
    observe_speaker clock addr state failure detail attempt none r

unfoldable pub tell : (ℕ → Clock) → ℕ → Text → List HealthNote → HealthRegistry → HealthRegistry
tell clocks i addr [] r = r
tell clocks i addr (note ∷ notes) r =
    tell clocks (suc i) addr notes (or_keep r (tell_one (clocks i) addr note r))

abbrev pub tell_all :
    (ℕ → Clock) → Text → List HealthNote → Option HealthRegistry → Option HealthRegistry
tell_all clocks addr notes none = none
tell_all clocks addr notes (some r) = some (tell clocks 0 addr notes r)

-- The profile of a key after an event, and its notes.
abbrev pub update_profile : (ℕ → Clock) → Text → Noted → Engine → Engine
update_profile clocks addr (p, notes) e = record e {
  profiles = insert addr p e.profiles;
  health = tell_all clocks addr notes e.health;
}

-- `self.profiles.get(addr) is profile`
abbrev pub current_profile : Text → ℕ → Engine → Option SpeakerReconnectProfile
current_profile addr identity e = do
  p ← lookup addr e.profiles
  if p.identity == identity then some p else none

abbrev pub renewed : Bool → Option Text → SpeakerReconnectProfile → SpeakerReconnectProfile
renewed enabled adapter p = record p {
  enabled = enabled;
  preferred_adapter = or_text adapter p.preferred_adapter;
}

-- `register_speaker` at a normalized address, by what is registered there.
abbrev pub enrol : Text → Bool → Option Text → Option SpeakerReconnectProfile → Engine → Engine
enrol addr enabled adapter none e = record e {
  profiles = insert addr (new_profile e.next_object addr enabled adapter) e.profiles;
  next_object = suc e.next_object;
}
enrol addr enabled adapter (some p) e = record e {
  profiles = insert addr (renewed enabled adapter p) e.profiles;
}

abbrev pub register_at : Text → Bool → Option Text → Engine → Engine
register_at addr enabled adapter e =
    if not e.globally_enabled then e else enrol addr enabled adapter (lookup addr e.profiles) e

-- `none` is the ValueError of a bad address.
unfoldable pub register_speaker : Text → Bool → Option Text → Engine → Option Engine
register_speaker address enabled adapter e = do
  addr ← normalize_address address
  some (register_at addr enabled adapter e)

-- `if task and not task.done(): task.cancel()`
abbrev pub cancel_task : ℕ → (ℕ → Option Task) → ℕ → Option Task
cancel_task n tasks m = elim (tasks m) [
  | none ↦ none
  | some t ↦ some (if m == n && not (is_finished t.phase) then record t { cancelled = true } else t)
]

abbrev pub cancel_found : Option ℕ → (ℕ → Option Task) → ℕ → Option Task
cancel_found none tasks = tasks
cancel_found (some n) tasks = cancel_task n tasks

abbrev pub unregister_at : Text → Engine → Engine
unregister_at addr e = record e {
  inflight = erase addr e.inflight;
  tasks = cancel_found (lookup addr e.inflight) e.tasks;
  profiles = erase addr e.profiles;
}

unfoldable pub unregister_speaker : Text → Engine → Option Engine
unregister_speaker address e = do addr ← normalize_address address; some (unregister_at addr e)

unfoldable pub unregister_all : List Text → Engine → Option Engine
unfolding unregister_speaker
unregister_all [] e = some e
unregister_all (addr ∷ addrs) e = do e' ← unregister_speaker addr e; unregister_all addrs e'

abbrev pub keys : Dict SpeakerReconnectProfile → List Text
keys = map (λ entry. entry.0)

unfoldable pub set_global_enabled : Bool → Engine → Option Engine
unfolding unregister_all
set_global_enabled true e = some (record e { globally_enabled = true })
set_global_enabled false e =
    unregister_all (keys e.profiles) (record e { globally_enabled = false })

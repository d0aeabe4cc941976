-- ===== src/Reconnect/Engine/Table.antt =====
-- The task table of the reconnect engine, and the invariant of who owns a speaker
-- (backend/bl_haos/bluetooth/reconnect.py: _inflight).
use bl_haos_bridge.Prelude.{
  ℕ, ◌<◌, ◌≡◌, refl, sym, ap, ◌∙◌, Bool, true, false, not, ◌&&◌, List, Option, some, arith,
  Bool-cases, inl, inr,
}
use bl_haos_bridge.Dict.{Dict, lookup}
use bl_haos_bridge.Health.{HealthRegistry}
use bl_haos_bridge.Reconnect.Model.{SpeakerReconnectProfile}
use bl_haos_bridge.Reconnect.Tracking.{Engine, Task, is_finished, put_task, cancel_task}

-- A task that will still act: neither done nor asked to stop.
abbrev pub is_live : Task → Bool
is_live t = not (is_finished t.phase) && not t.cancelled

-- Every live task is the one that `_inflight` holds for its address; while `stop` waits, the loop
-- is off and no task is live.
pub record IsOwned (e : Engine) : Type 0 where
  pub fresh : (n : ℕ) (t : Task) → e.tasks n ≡ some t → n < e.next_object
  pub owner :
      (n : ℕ) (t : Task)
      → e.tasks n ≡ some t
      → is_live t ≡ true
      → lookup t.address e.inflight ≡ some n
  pub off : (ns : List ℕ) → e.awaited ≡ some ns → e.running ≡ false
  pub quiet :
      (ns : List ℕ)
      → e.awaited ≡ some ns
      → (n : ℕ) (t : Task) → e.tasks n ≡ some t
      → is_live t ≡ false

-- The invariant reads neither the profiles nor the health registry nor the global gate.
pub track-IsOwned :
    (profiles : Dict SpeakerReconnectProfile) (health : Option HealthRegistry) (gate : Bool)
    (e : Engine)
    → IsOwned e
    → IsOwned (record e { profiles = profiles; health = health; globally_enabled = gate })
track-IsOwned profiles health gate e v = record {
  fresh = v.fresh;
  owner = v.owner;
  off = v.off;
  quiet = v.quiet;
}

-- A table in which no task is new, and every live task was live.
pub record Fewer (tasks tasks' : ℕ → Option Task) : Type 0 where
  pub had : (m : ℕ) (t : Task) → tasks' m ≡ some t → (s : Task) × (tasks m ≡ some s)
  pub live :
      (m : ℕ) (t : Task)
      → tasks' m ≡ some t
      → is_live t ≡ true
      → (s : Task) × (tasks m ≡ some s) × (is_live s ≡ true) × (s.address ≡ t.address)

pub Fewer-IsOwned :
    (e : Engine) (tasks : ℕ → Option Task)
    → Fewer e.tasks tasks
    → IsOwned e
    → IsOwned (record e { tasks = tasks })
Fewer-IsOwned e tasks f v = record {
  fresh = λ n t h. let (s, k) = f.had n t h in v.fresh n s k;
  owner = λ n t h l.
      let (s, k, l', a) = f.live n t h l in
      ap (λ x. lookup x e.inflight) (sym a) ∙ v.owner n s k l';
  off = v.off;
  quiet = λ ns h n t k.
      not_live (is_live t) λ l. let (s, k', l', a) = f.live n t k l in cc (v.quiet ns h n s k');
}
  where
    not_live : (b : Bool) → (b ≡ true → ⊥) → b ≡ false
    not_live true h = absurd (h refl)
    not_live false h = refl

pub cancel_task-Fewer : (n : ℕ) (tasks : ℕ → Option Task) → Fewer tasks (cancel_task n tasks)
cancel_task-Fewer n tasks = record { had = λ m t h. ground arith; live = λ m t h l. ground arith }

pub cancel_task-not_live :
    (n : ℕ) (tasks : ℕ → Option Task) (t : Task)
    → cancel_task n tasks n ≡ some t
    → is_live t ≡ false
cancel_task-not_live n tasks t h = ground arith

pub put_task-Fewer :
    (n : ℕ) (s t : Task) (tasks : ℕ → Option Task)
    → tasks n ≡ some s
    → t.address ≡ s.address
    → (is_live t ≡ true → is_live s ≡ true)
    → Fewer tasks (put_task n t tasks)
put_task-Fewer n s t tasks h a l = record {
  had = λ m u k. ground arith;
  live = λ m u k g. ground arith;
}

pub trans-Fewer : (f g h : ℕ → Option Task) → Fewer f g → Fewer g h → Fewer f h
trans-Fewer f g h p q = record {
  had = λ m t k. let (s, k') = q.had m t k in p.had m s k';
  live = λ m t k l.
      let (s, k', l', a) = q.live m t k l in
      let (r, k'', l'', b) = p.live m s k' l' in (r, k'', l'', b ∙ a);
}

-- A task that is not live stays so.
pub Fewer-quiet :
    (f g : ℕ → Option Task) (n : ℕ)
    → Fewer f g
    → ((s : Task) → f n ≡ some s → is_live s ≡ false)
    → (t : Task) → g n ≡ some t
    → is_live t ≡ false
Fewer-quiet f g n p q t h = elim (Bool-cases (is_live t)) [
  | inl alive ↦ let (s, k, l, _) = p.live n t h alive in cc (q s k)
  | inr still ↦ still
]

-- ===== src/Player/Queue/Laws.antt =====
-- What the queue of a speaker keeps (backend/bl_haos/ha/player.py: start_queue, control_queue,
-- _watch_processes).
use bl_haos_bridge.Prelude.{
  ℕ, suc, ◌≡◌, refl, Bool, true, false, not, ◌||◌, [], ◌∷◌, ◌++◌, Option, none, some, arith, length,
  get_elem?, ◌==◌, ltb, if◌then◌else◌,
}
use bl_haos_bridge.Player.Model.{
  PlaybackQueueItem, PlaybackSession, Speaker, is_repeat_one, is_repeat_all,
}
use bl_haos_bridge.Player.Queue.{
  play_queue_item, started_with, watch_processes, advance, stepped, ended_on, completed_on,
  failed_on, same_processes,
}
use bl_haos_bridge.Player.Queue.Order.{
  IsOrder, IsQueue, get-within, next-IsOrder, first-IsOrder, blanked-IsOrder,
}

abbrev pub HasOrder : Option PlaybackSession → Type 0
HasOrder none = Unit
HasOrder (some s) = IsQueue s

-- The queue of a speaker, if it has one, is in order.
abbrev pub HasQueue : Speaker → Type 0
HasQueue p = HasOrder p.session

-- A call returns, and its result has a property.
abbrev pub Returns {ℓ} : (Speaker → Type ℓ) → Option Speaker → Type ℓ
Returns P o = (p : Speaker) × (o ≡ some p) × P p

-- What a started or failed stream leaves: the session at the same place.
abbrev pub IsAt : PlaybackSession → Speaker → Type 0
IsAt s p =
    (t : PlaybackSession) × (p.session ≡ some t)
    × (t.items ≡ s.items)
    × (t.index ≡ s.index)
    × (t.history ≡ s.history)

started-HasQueue :
    (s : PlaybackSession) (item : PlaybackQueueItem) (started : Option ℕ) (p : Speaker)
    → IsQueue s
    → HasQueue (started_with s item started p)
started-HasQueue s item none p v = v
started-HasQueue s item (some n) p v = v

pub play_queue_item-Returns :
    (started : Option ℕ) (s : PlaybackSession) (p : Speaker)
    → IsQueue s
    → Returns HasQueue (play_queue_item started s p)
play_queue_item-Returns started s p v =
    let (x, e) = get-within s.index s.items v.within in
    (
      started_with s x started p,
      unfold play_queue_item in rw e refl,
      started-HasQueue s x started p v,
    )

stepped-Returns :
    (i : ℕ) (started : Option ℕ) (s : PlaybackSession) (p : Speaker) (x : PlaybackQueueItem)
    → get_elem? s.items s.index ≡ some x
    → IsOrder s.items i (s.history ++ x ∷ [])
    → Returns HasQueue (stepped i started s p)
stepped-Returns i started s p x e v =
    rw e
      (play_queue_item-Returns started (record s { history = s.history ++ x ∷ []; index = i }) p v)

advance-Returns :
    (started : Option ℕ) (s : PlaybackSession) (p : Speaker)
    → IsQueue s
    → Returns HasQueue (advance started s p)
advance-Returns started s p v =
    let (x, e) = get-within s.index s.items v.within in
    go (is_repeat_one s.repeat) (ltb (suc s.index) (length s.items)) (is_repeat_all s.repeat) x e
      refl
  where
    go :
        (one more all : Bool) (x : PlaybackQueueItem)
        → get_elem? s.items s.index ≡ some x
        → ltb (suc s.index) (length s.items) ≡ more
        → Returns HasQueue (
            if one
            then play_queue_item started s p
            else if more
            then stepped (suc s.index) started s p
            else if all
            then stepped 0 started s p
            else some (completed_on s p))
    go true more all x e m = play_queue_item-Returns started s p v
    go false true all x e m =
        stepped-Returns (suc s.index) started s p x e
          (next-IsOrder s.items s.index s.history x e v (ground arith))
    go false false true x e m =
        stepped-Returns 0 started s p x e (first-IsOrder s.items s.index s.history x e v)
    go false false false x e m =
        (completed_on s p, refl, blanked-IsOrder s.items s.index s.history v)

ended-Returns :
    (processes generation : ℕ) (natural : Bool) (started : Option ℕ) (o : Option PlaybackSession)
    (p : Speaker)
    → HasOrder o
    → HasQueue p
    → p.session ≡ o
    → Returns HasQueue (ended_on processes generation natural started o p)
ended-Returns processes generation natural started none p v w same =
    (record p { active_processes = none; state = _ }, refl, w)
ended-Returns processes generation natural started (some s) p v w same =
    let s' = record s { processes = none } in
    let p' = record p { session = some s'; active_processes = none } in
    go (not (s.generation == generation) || not (same_processes s.processes (some processes)))
      natural (advance-Returns started s' p' v)
  where
    go :
        (stale natural : Bool)
        → Returns HasQueue (
            advance started
              (record s { processes = none })
              (record p {
                session = some (record s { processes = none });
                active_processes = none;
              }))
        → Returns HasQueue (
            if stale
            then some p
            else if natural
            then advance started
                (record s { processes = none })
                (record p {
                  session = some (record s { processes = none });
                  active_processes = none;
                })
            else some (
                failed_on
                  (record s { processes = none })
                  (record p {
                    session = some (record s { processes = none });
                    active_processes = none;
                  })))
    go true natural r = (p, refl, w)
    go false true r = r
    go false false r = (_, refl, v)

-- When a pair of processes has ended, however it ended and whether the next stream starts or
-- not, the watcher raises nothing and leaves a queue in order: its index in range, its items
-- distinct, its history ending with the items before the index.
watch_processes-Returns :
    (processes generation : ℕ) (natural : Bool) (started : Option ℕ) (p : Speaker)
    → HasQueue p
    → Returns HasQueue (watch_processes processes generation natural started p)
unfolding watch_processes
watch_processes-Returns processes generation natural started p v =
    go
      (not (same_processes p.active_processes (some processes)) || not (p.generation == generation))
      (ended-Returns processes generation natural started p.session p v v refl)
  where
    go :
        (stale : Bool)
        → Returns HasQueue (ended_on processes generation natural started p.session p)
        → Returns HasQueue
            (if stale then some p else ended_on processes generation natural started p.session p)
    go true r = (p, refl, v)
    go false r = r

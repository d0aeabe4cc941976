-- ===== src/Player/Queue.antt =====
-- The queue of one speaker (backend/bl_haos/ha/player.py: start_queue, control_queue,
-- _invalidate_playback_session, _watch_processes). Each of these waits for the speaker's lock, so
-- the stretch before it and the stretch behind it are two functions. Starting a stream is a
-- parameter: the number of the pair of processes, or none for a MediaPlayerError. A result of none
-- is an exception.
pub mod Order
pub mod Laws
pub mod Moves
pub mod Stale
pub mod Rearranged
pub mod Shuffle
pub mod Playthrough
use bl_haos_bridge.Prelude.{
  ◌>>=◌, ℕ, suc, ◌+◌, ◌-◌, Bool, true, false, not, ◌&&◌, ◌||◌, List, [], ◌∷◌, ◌++◌, Option, none,
  some, ltb, ◌==◌, if◌then◌else◌, length, get_elem?, take, drop, any, select, is_some, map,
}
use bl_haos_bridge.Dict.{Text}
use bl_haos_bridge.Player.Model.{
  PlaybackQueueItem, PlaybackSession, Repeat, repeat_off, Status, playing, paused, failed,
  completed, Speaker, state_playing, state_paused, state_idle, is_playing, is_failed, is_repeat_one,
  is_repeat_all, queue_error_playback_failed,
}

-- `==` and `is` on what may be missing
abbrev pub same_processes : Option ℕ → Option ℕ → Bool
same_processes none none = true
same_processes (some m) (some n) = m == n
same_processes _ _ = false

abbrev pub blanked : PlaybackQueueItem → PlaybackQueueItem
blanked item = record item { url = [] }

-- `_invalidate_playback_session`: the new generation is the speaker's.
abbrev pub without_session : Option PlaybackSession → Speaker → Speaker
without_session none p = p
without_session (some s) p = record p { session = none; last_url = none }

pub invalidate_playback_session : Speaker → Speaker
invalidate_playback_session p =
    without_session p.session (record p { generation = suc p.generation })

abbrev pub put_session : PlaybackSession → Speaker → Speaker
put_session s p = record p { session = some s }

-- How `_play_queue_item_locked` ends, after `_stop_processes`. On a MediaPlayerError the caller
-- marks the session as failed.
abbrev pub started_with : PlaybackSession → PlaybackQueueItem → Option ℕ → Speaker → Speaker
started_with s item (some processes) p = record p {
  session = some (record s { status = playing; error = none; processes = some processes });
  active_processes = some processes;
  last_url = some item.url;
  state = state_playing;
}
started_with s item none p = record p {
  session = some (record s { status = failed; error = some queue_error_playback_failed });
  active_processes = none;
  state = state_idle;
}

-- `session.items[session.index]` raises an IndexError out of range.
pub play_queue_item : Option ℕ → PlaybackSession → Speaker → Option Speaker
play_queue_item started s p = do
  item ← get_elem? s.items s.index
  some (started_with s item started p)

abbrev pub new_session : ℕ → ℕ → Text → List PlaybackQueueItem → PlaybackSession
new_session identity generation playlist items = record {
  identity = identity;
  generation = generation;
  playlist = playlist;
  items = items;
  original_items = items;
  index = 0;
  shuffle = false;
  repeat = repeat_off;
  status = playing;
  error = none;
  processes = none;
  history = [];
}

-- `start_queue` behind its validation: `generation` is what the invalidation before the lock gave.
unfoldable pub start_queue_locked :
    ℕ → ℕ → Text → List PlaybackQueueItem → Option ℕ → Speaker → Option Speaker
unfolding play_queue_item
start_queue_locked identity generation playlist items started p =
    if not (p.generation == generation)
    then some p
    else let s = new_session identity generation playlist items in
      play_queue_item started s (put_session s p)

-- The operations of `control_queue`, past the checks of their arguments. `stop` is `execute`.
pub data Operation : Type 0 where
  play pause next previous : Operation
  set_shuffle : Bool → Operation
  set_repeat : Repeat → Operation

-- What `control_queue` has decided before it waits for the lock.
pub record Pending : Type 0 where
  pub initial : ℕ
  pub operation : Operation
  pub restart_current : Bool
  pub next_index : ℕ
  pub generation : Option ℕ

-- The position of the timeline in milliseconds; more than three seconds restart the item.
abbrev pub past_start : Option ℕ → Bool
past_start none = false
past_start (some ms) = ltb 3000 ms

abbrev pub restarts : Operation → Option ℕ → PlaybackSession → Bool
restarts previous position s = s.index == 0 || past_start position
restarts _ position s = false

-- `next(index for index, item in enumerate(items) if item is previous)`
pub index_of : ℕ → List PlaybackQueueItem → Option ℕ
index_of n [] = none
index_of n (item ∷ items) =
    let rest = index_of n items in
    if item.identity == n then some 0 else rest >>= (λ i. some (suc i))

-- `history[-1]` and `history.pop()`
abbrev pub last : List PlaybackQueueItem → Option PlaybackQueueItem
last [] = none
last (item ∷ []) = some item
last (item ∷ other ∷ items) = last (other ∷ items)

abbrev pub popped : List PlaybackQueueItem → List PlaybackQueueItem
popped [] = []
popped (item ∷ []) = []
popped (item ∷ other ∷ items) = item ∷ popped (other ∷ items)

abbrev pub before : Option PlaybackQueueItem → PlaybackSession → Option ℕ
before none s = some (s.index - 1)
before (some item) s = index_of item.identity s.items

-- Where the operation moves the index to.
abbrev pub target : Operation → Bool → PlaybackSession → Option ℕ
target next restart s =
    if ltb (suc s.index) (length s.items)
    then some (suc s.index)
    else if is_repeat_all s.repeat
    then some 0
    else none
target previous restart s = if restart then some s.index else before (last s.history) s
target _ restart s = some s.index

abbrev pub replaces_process : Operation → PlaybackSession → Bool
replaces_process next s = true
replaces_process previous s = true
replaces_process play s = is_failed s.status
replaces_process _ s = false

abbrev pub is_empty : List PlaybackQueueItem → Bool
is_empty [] = true
is_empty _ = false

abbrev pub decided : Operation → Option ℕ → PlaybackSession → Speaker → ℕ → Speaker × Pending
decided operation position s p i =
    let replaces = replaces_process operation s in
    let generation = if replaces then suc p.generation else p.generation in
    (
      record p { generation = generation },
      record {
        initial = s.identity;
        operation = operation;
        restart_current = restarts operation position s;
        next_index = i;
        generation = if replaces then some generation else none;
      },
    )

abbrev pub begin_on :
    Operation → Option ℕ → Option PlaybackSession → Speaker → Option (Speaker × Pending)
begin_on operation position none p = none
begin_on operation position (some s) p =
    if is_empty s.items
    then none
    else target operation (restarts operation position s) s
      >>= (λ i. some (decided operation position s p i))

-- `control_queue` up to the lock.
unfoldable pub control_queue_begin : Operation → Option ℕ → Speaker → Option (Speaker × Pending)
unfolding index_of
control_queue_begin operation position p = begin_on operation position p.session p

-- `random.shuffle` on the tail is a parameter.
abbrev pub reshuffled :
    (List PlaybackQueueItem → List PlaybackQueueItem) → Bool → PlaybackSession → PlaybackSession
reshuffled rng wanted s =
    let tail = drop (suc s.index) s.items in
    let order =
      if wanted
      then rng tail
      else select (λ item. any (λ other. other.identity == item.identity) tail) s.original_items in
    if (if wanted then s.shuffle else not s.shuffle)
    then s
    else record s { shuffle = wanted; items = take (suc s.index) s.items ++ order }

-- `_signal_processes` with SIGSTOP and SIGCONT, and the states behind it.
abbrev pub paused_on : PlaybackSession → Speaker → Speaker
paused_on s p = record p { session = some (record s { status = paused }); state = state_paused }

abbrev pub resumed_on : PlaybackSession → Speaker → Speaker
resumed_on s p = record p { session = some (record s { status = playing }); state = state_playing }

-- The commit of `play` on a failed item, `next` and `previous`.
abbrev pub renewed : Option ℕ → PlaybackSession → PlaybackSession
renewed none s = s
renewed (some g) s = record s { generation = g; processes = none }

pub moved : Operation → Bool → ℕ → PlaybackSession → Option PlaybackSession
moved next restart i s = do
  item ← get_elem? s.items s.index
  some (record s { history = s.history ++ item ∷ []; index = i })
moved previous restart i s =
    some (record s { history = if restart then s.history else popped s.history; index = i })
moved _ restart i s = some s

abbrev pub replay : Pending → Option ℕ → PlaybackSession → Speaker → Option Speaker
replay pending started s p =
    moved pending.operation pending.restart_current pending.next_index
      (renewed pending.generation s)
    >>= (λ m. play_queue_item started m (record p { session = some m; active_processes = none }))

abbrev pub play_by_status : Status → Pending → Option ℕ → PlaybackSession → Speaker → Option Speaker
play_by_status paused pending started s p =
    if is_some s.processes && same_processes p.active_processes s.processes
    then some (resumed_on s p)
    else none
play_by_status playing pending started s p = some p
play_by_status failed pending started s p = replay pending started s p
play_by_status completed pending started s p = none

abbrev pub apply :
    Operation
    → Pending
    → (List PlaybackQueueItem → List PlaybackQueueItem)
    → Option ℕ
    → PlaybackSession
    → Speaker
    → Option Speaker
apply (set_shuffle wanted) pending rng started s p = some (put_session (reshuffled rng wanted s) p)
apply (set_repeat mode) pending rng started s p = some (put_session (record s { repeat = mode }) p)
apply pause pending rng started s p =
    if is_playing s.status && is_some s.processes then some (paused_on s p) else none
apply play pending rng started s p = play_by_status s.status pending started s p
apply next pending rng started s p = replay pending started s p
apply previous pending rng started s p = replay pending started s p

abbrev pub superseded : Option ℕ → ℕ → Bool
superseded none g = false
superseded (some n) g = not (g == n)

abbrev pub locked_on :
    Pending
    → (List PlaybackQueueItem → List PlaybackQueueItem)
    → Option ℕ
    → Option PlaybackSession
    → Speaker
    → Option Speaker
locked_on pending rng started none p = some p
locked_on pending rng started (some s) p =
    if not (s.identity == pending.initial)
      || is_empty s.items
      || superseded pending.generation p.generation
    then some p
    else apply pending.operation pending rng started s p

-- `control_queue` behind the lock.
unfoldable pub control_queue_locked :
    Pending
    → (List PlaybackQueueItem → List PlaybackQueueItem)
    → Option ℕ
    → Speaker
    → Option Speaker
unfolding moved play_queue_item
control_queue_locked pending rng started p = locked_on pending rng started p.session p

-- `_watch_processes` for a pair of processes that has ended: what it does with the session.
-- The three lists share their items, so the URLs are gone from all of them.
abbrev pub completed_on : PlaybackSession → Speaker → Speaker
completed_on s p = record p {
  session = some (record s {
    status = completed;
    items = map blanked s.items;
    original_items = map blanked s.original_items;
    history = map blanked s.history;
  });
  state = state_idle;
}

abbrev pub failed_on : PlaybackSession → Speaker → Speaker
failed_on s p = record p {
  session = some (record s { status = failed; error = some queue_error_playback_failed });
  state = state_idle;
}

abbrev pub stepped : ℕ → Option ℕ → PlaybackSession → Speaker → Option Speaker
stepped i started s p = do
  item ← get_elem? s.items s.index
  play_queue_item started (record s { history = s.history ++ item ∷ []; index = i }) p

abbrev pub advance : Option ℕ → PlaybackSession → Speaker → Option Speaker
advance started s p =
    if is_repeat_one s.repeat
    then play_queue_item started s p
    else if ltb (suc s.index) (length s.items)
    then stepped (suc s.index) started s p
    else if is_repeat_all s.repeat
    then stepped 0 started s p
    else some (completed_on s p)

abbrev pub ended_on : ℕ → ℕ → Bool → Option ℕ → Option PlaybackSession → Speaker → Option Speaker
ended_on processes generation natural started none p =
    some (record p { active_processes = none; state = state_idle })
ended_on processes generation natural started (some s) p =
    if not (s.generation == generation) || not (same_processes s.processes (some processes))
    then some p
    else let s' = record s { processes = none } in
      let p' = record p { session = some s'; active_processes = none } in
      if natural then advance started s' p' else some (failed_on s' p')

unfoldable pub watch_processes : ℕ → ℕ → Bool → Option ℕ → Speaker → Option Speaker
unfolding play_queue_item
watch_processes processes generation natural started p =
    if not (same_processes p.active_processes (some processes)) || not (p.generation == generation)
    then some p
    else ended_on processes generation natural started p.session p

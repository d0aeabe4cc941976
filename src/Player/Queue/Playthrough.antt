-- ===== src/Player/Queue/Playthrough.antt =====
-- Playing a queue to its end (backend/bl_haos/ha/player.py: _watch_processes).
use bl_haos_bridge.Prelude.{
  ◌>>=◌, ℕ, zero, suc, ◌+◌, ◌≤◌, ◌≡◌, refl, sym, ap, ◌∙◌, true, false, List, [], ◌∷◌, ◌++◌, map,
  Option, none, some, arith, ◌==◌, length, get_elem?, drop, ltb,
}
use bl_haos_bridge.Dict.{Text}
use bl_haos_bridge.Player.Model.{
  PlaybackQueueItem, PlaybackSession, Speaker, Repeat, Status, PlaybackState,
}
use bl_haos_bridge.Player.Queue.{
  watch_processes, started_with, play_queue_item, advance, completed_on,
}
use bl_haos_bridge.Player.Queue.Order.{get-within}

-- Each stream ends by itself and the next one starts with the next pair of the list; the URLs of
-- what is played.
pub play_out : ℕ → List ℕ → Speaker → Option (Speaker × List (Option Text))
play_out processes [] p = do q ← watch_processes processes p.generation true none p; some (q, [])
play_out processes (n ∷ ns) p = do
  q ← watch_processes processes p.generation true (some n) p
  (r, urls) ← play_out n ns q
  some (r, q.last_url ∷ urls)

-- The pair belongs to the current session, which does not repeat.
pub record IsPlaying (processes : ℕ) (s : PlaybackSession) (p : Speaker) : Type 0 where
  pub session : p.session ≡ some s
  pub active : p.active_processes ≡ some processes
  pub own : s.processes ≡ some processes
  pub current : s.generation ≡ p.generation
  pub once : s.repeat ≡ Repeat.repeat_off

watch-advances :
    (processes : ℕ) (started : Option ℕ) (s : PlaybackSession) (p : Speaker)
    → IsPlaying processes s p
    → watch_processes processes p.generation true started p
      ≡ advance started
          (record s { processes = none })
          (record p { session = some (record s { processes = none }); active_processes = none })
unfolding watch_processes
watch-advances processes started s p v =
    let same : (processes == processes) ≡ true = ground arith in
    let same' : (p.generation == p.generation) ≡ true = ground arith in
    rw (v.session, v.active, v.own, v.current, same, same') refl

next-played :
    (n : ℕ) (s : PlaybackSession) (p : Speaker) (x y : PlaybackQueueItem)
    → s.repeat ≡ Repeat.repeat_off
    → get_elem? s.items s.index ≡ some x
    → get_elem? s.items (suc s.index) ≡ some y
    → ltb (suc s.index) (length s.items) ≡ true
    → advance (some n) s p
      ≡ some (
          started_with
            (record s { history = s.history ++ x ∷ []; index = suc s.index })
            y
            (some n)
            p)
next-played n s p x y once ex ey more = rw (once, more, ex) (unfold play_queue_item in rw ey refl)

last-played :
    (s : PlaybackSession) (p : Speaker)
    → s.repeat ≡ Repeat.repeat_off
    → ltb (suc s.index) (length s.items) ≡ false
    → advance none s p ≡ some (completed_on s p)
last-played s p once done = rw (once, done) refl

drop-get :
    (i : ℕ) (items : List PlaybackQueueItem) (x : PlaybackQueueItem)
    → get_elem? items i ≡ some x
    → drop i items ≡ x ∷ drop (suc i) items
drop-get i [] x e = cc
drop-get zero (y ∷ items) x e = cc
drop-get (suc i) (y ∷ items) x e = drop-get i items x e

drop-all : (i : ℕ) (items : List PlaybackQueueItem) → length items ≤ i → drop i items ≡ []
drop-all zero [] h = refl
drop-all (suc i) [] h = refl
drop-all zero (x ∷ items) h = absurd (omega arith)
drop-all (suc i) (x ∷ items) h = drop-all i items (omega arith)

-- What has been played, and how it ended.
pub record IsPlayedOut (s : PlaybackSession) (n : ℕ) (r : Speaker × List (Option Text))
    : Type 0 where
  pub session : PlaybackSession
  pub there : r.0.session ≡ some session
  pub status : session.status ≡ Status.completed
  pub index : session.index ≡ s.index + n
  pub idle : r.0.state ≡ PlaybackState.state_idle
  pub heard : r.1 ≡ map (λ item. some item.url) (drop (suc s.index) s.items)

-- A queue that does not repeat is played to its end: when each stream of the current session
-- ends by itself and the next one starts, the items behind the current one are played in order,
-- each once, and then the session is completed and the speaker idle.
pub play_out-IsPlayedOut :
    (processes : ℕ) (ns : List ℕ) (s : PlaybackSession) (p : Speaker)
    → IsPlaying processes s p
    → length s.items ≡ s.index + 1 + length ns
    → (r : Speaker × List (Option Text)) × (play_out processes ns p ≡ some r)
      × IsPlayedOut s (length ns) r
unfolding play_out
play_out-IsPlayedOut processes [] s p v size =
    let s' = record s { processes = none } in
    let p' = record p { session = some s'; active_processes = none } in
    let e : watch_processes processes p.generation true none p ≡ some (completed_on s' p') =
      watch-advances processes none s p v ∙ last-played s' p' v.once (ground arith) in
    (
      (completed_on s' p', []),
      rw e refl,
      record {
        session = _;
        there = refl;
        status = refl;
        index = omega arith;
        idle = refl;
        heard =
            sym (ap (map (λ item. some item.url)) (drop-all (suc s.index) s.items (omega arith)));
      },
    )
play_out-IsPlayedOut processes (n ∷ ns) s p v size =
    let s' = record s { processes = none } in
    let p' = record p { session = some s'; active_processes = none } in
    let (x, ex) = get-within s.index s.items (omega arith) in
    let (y, ey) = get-within (suc s.index) s.items (omega arith) in
    let m = record s' { history = s.history ++ x ∷ []; index = suc s.index } in
    let q = started_with m y (some n) p' in
    let t = record m { status = Status.playing; error = none; processes = some n } in
    let e : watch_processes processes p.generation true (some n) p ≡ some q =
      watch-advances processes (some n) s p v
      ∙ next-played n s' p' x y v.once ex ey (ground arith) in
    let (r, f, w) =
      play_out-IsPlayedOut n ns t q
        (record { session = refl; active = refl; own = refl; current = v.current; once = v.once })
        (omega arith) in
    (
      (r.0, some y.url ∷ r.1),
      rw (e, f) refl,
      record {
        session = w.session;
        there = w.there;
        status = w.status;
        index = omega (arith, w.index);
        idle = w.idle;
        heard =
            ap (λ l. some y.url ∷ l) w.heard
            ∙ sym (ap (map (λ item. some item.url)) (drop-get (suc s.index) s.items y ey));
      },
    )

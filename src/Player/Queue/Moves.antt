-- ===== src/Player/Queue/Moves.antt =====
-- Moving through a queue (backend/bl_haos/ha/player.py: control_queue with next and previous).
use bl_haos_bridge.Prelude.{
  ℕ, zero, suc, ◌<◌, ◌≡◌, refl, sym, ap, ◌∙◌, subst, Bool, true, false, not, ◌||◌, List, [], ◌∷◌,
  ◌++◌, Option, none, some, arith, length, get_elem?, ◌==◌, ltb, inl, inr, Bool-cases,
  some-injective, >>=-eq-some, if◌then◌else◌,
}
use bl_haos_bridge.Player.Model.{PlaybackQueueItem, PlaybackSession, Speaker, is_repeat_all}
use bl_haos_bridge.Player.Queue.{
  Operation, Pending, last, popped, begin_on, decided, locked_on, control_queue_begin,
  control_queue_locked, moved, replay, before, target, restarts, past_start, is_empty, superseded,
}
use bl_haos_bridge.Player.Queue.Order.{
  IsOrder, IsQueue, get-within, index_of-get, next-IsOrder, first-IsOrder, previous-last,
  previous-IsOrder,
}
use bl_haos_bridge.Player.Queue.Laws.{HasQueue, HasOrder, Returns, play_queue_item-Returns}

-- `previous` inside an item's first three seconds goes to the item before.
before-last :
    (s : PlaybackSession) (i : ℕ) → IsQueue s → s.index ≡ suc i → before (last s.history) s ≡ some i
before-last s i v h =
    let w : IsOrder s.items (suc i) s.history = subst (λ n. IsOrder s.items n s.history) h v in
    let (x, e) = get-within i s.items (omega (arith, w.within)) in
    ap (λ o. before o s) (previous-last s.items i s.history x e w)
    ∙ index_of-get i s.items x w.distinct e

next-moved :
    (s : PlaybackSession) (i : ℕ)
    → IsQueue s
    → target Operation.next false s ≡ some i
    → (m : PlaybackSession) × (moved Operation.next false i s ≡ some m) × IsQueue m
unfolding moved
next-moved s i v h =
    let (x, e) = get-within s.index s.items v.within in
    (
      record s { history = s.history ++ x ∷ []; index = i },
      rw e refl,
      go x e (ltb (suc s.index) (length s.items)) (is_repeat_all s.repeat) refl h,
    )
  where
    go :
        (x : PlaybackQueueItem)
        → get_elem? s.items s.index ≡ some x
        → (more all : Bool) → ltb (suc s.index) (length s.items) ≡ more
        → (if more then some (suc s.index) else if all then some 0 else none) ≡ some i
        → IsOrder s.items i (s.history ++ x ∷ [])
    go x e true all m t =
        subst (λ n. IsOrder s.items n (s.history ++ x ∷ [])) (some-injective t)
          (next-IsOrder s.items s.index s.history x e v (ground arith))
    go x e false true m t =
        subst (λ n. IsOrder s.items n (s.history ++ x ∷ [])) (some-injective t)
          (first-IsOrder s.items s.index s.history x e v)
    go x e false false m t = cc

previous-moved :
    (s : PlaybackSession) (i : ℕ) (restart : Bool)
    → IsQueue s
    → (restart ≡ false → (j : ℕ) × (s.index ≡ suc j))
    → target Operation.previous restart s ≡ some i
    → (m : PlaybackSession) × (moved Operation.previous restart i s ≡ some m) × IsQueue m
unfolding moved
previous-moved s i true v back h =
    (record s { index = i }, refl, subst (λ n. IsOrder s.items n s.history) (some-injective h) v)
previous-moved s i false v back h =
    let (j, n) = back refl in
    let same : j ≡ i = some-injective (sym (before-last s j v n) ∙ h) in
    let w : IsOrder s.items (suc j) s.history = subst (λ k. IsOrder s.items k s.history) n v in
    let (x, e) = get-within j s.items (omega (arith, w.within)) in
    (
      record s { history = popped s.history; index = i },
      refl,
      subst (λ k. IsOrder s.items k (popped s.history)) same
          (previous-IsOrder s.items j s.history x e w),
    )

-- The guard behind the lock, when nothing has come in between.
undisturbed :
    (s : PlaybackSession) (g : ℕ)
    → IsQueue s
    → (not (s.identity == s.identity) || is_empty s.items || superseded (some g) g) ≡ false
undisturbed s g v = go s.items v.within
  where
    go :
        (items : List PlaybackQueueItem)
        → s.index < length items
        → (not (s.identity == s.identity) || is_empty items || superseded (some g) g) ≡ false
    go [] h = absurd (omega arith)
    go (x ∷ items) h = ground arith

replay-Returns :
    (pending : Pending) (g : ℕ) (started : Option ℕ) (s m : PlaybackSession) (p : Speaker)
    → pending.generation ≡ some g
    → moved pending.operation pending.restart_current pending.next_index
        (record s { generation = g; processes = none })
      ≡ some m
    → IsQueue m
    → Returns HasQueue (replay pending started s p)
replay-Returns pending g started s m p gen e v =
    rw (gen, e)
      (play_queue_item-Returns started m (record p { session = some m; active_processes = none }) v)

next-Returns :
    (position : Option ℕ) (rng : List PlaybackQueueItem → List PlaybackQueueItem)
    (started : Option ℕ) (s : PlaybackSession) (p : Speaker) (i : ℕ)
    → IsQueue s
    → target Operation.next false s ≡ some i
    → Returns HasQueue (
        locked_on
          (decided Operation.next position s p i).1
          rng
          started
          (some s)
          (decided Operation.next position s p i).0)
next-Returns position rng started s p i v h =
    let g = suc p.generation in
    let (m, e, w) = next-moved (record s { generation = g; processes = none }) i v h in
    rw (undisturbed s g v) (
      replay-Returns (decided Operation.next position s p i).1 g started s m
        (decided Operation.next position s p i).0 refl e w)

before-renewed :
    (g : ℕ) (s : PlaybackSession) (o : Option PlaybackQueueItem)
    → before o (record s { generation = g; processes = none }) ≡ before o s
before-renewed g s none = refl
before-renewed g s (some x) = refl

previous-target :
    (g i : ℕ) (s : PlaybackSession) (restart : Bool)
    → target Operation.previous restart s ≡ some i
    → target Operation.previous restart (record s { generation = g; processes = none }) ≡ some i
previous-target g i s true h = h
previous-target g i s false h = before-renewed g s (last s.history) ∙ h

previous-Returns :
    (position : Option ℕ) (rng : List PlaybackQueueItem → List PlaybackQueueItem)
    (started : Option ℕ) (s : PlaybackSession) (p : Speaker) (i : ℕ)
    → IsQueue s
    → target Operation.previous (restarts Operation.previous position s) s ≡ some i
    → Returns HasQueue (
        locked_on
          (decided Operation.previous position s p i).1
          rng
          started
          (some s)
          (decided Operation.previous position s p i).0)
previous-Returns position rng started s p i v h =
    let g = suc p.generation in
    let (m, e, w) =
      previous-moved (record s { generation = g; processes = none }) i
        (restarts Operation.previous position s) v (positive s.index)
        (previous-target g i s (restarts Operation.previous position s) h) in
    rw (undisturbed s g v) (
      replay-Returns (decided Operation.previous position s p i).1 g started s m
        (decided Operation.previous position s p i).0 refl e w)
  where
    positive : (n : ℕ) → (n == 0 || past_start position) ≡ false → (j : ℕ) × (n ≡ suc j)
    positive zero k = cc
    positive (suc j) k = (j, refl)

-- The two operations that move through the queue.
pub data Move : Operation → Type 0 where
  forward : Move Operation.next
  backward : Move Operation.previous

Move-Returns :
    (operation : Operation) (position : Option ℕ)
    (rng : List PlaybackQueueItem → List PlaybackQueueItem) (started : Option ℕ)
    (s : PlaybackSession) (p : Speaker) (i : ℕ)
    → Move operation
    → IsQueue s
    → target operation (restarts operation position s) s ≡ some i
    → Returns HasQueue (
        locked_on
          (decided operation position s p i).1
          rng
          started
          (some s)
          (decided operation position s p i).0)
Move-Returns operation position rng started s p i forward v h =
    next-Returns position rng started s p i v h
Move-Returns operation position rng started s p i backward v h =
    previous-Returns position rng started s p i v h

begun-Returns :
    (operation : Operation) (position : Option ℕ)
    (rng : List PlaybackQueueItem → List PlaybackQueueItem) (started : Option ℕ)
    (o : Option PlaybackSession) (p p' : Speaker) (pending : Pending)
    → Move operation
    → HasOrder o
    → p.session ≡ o
    → begin_on operation position o p ≡ some (p', pending)
    → Returns HasQueue (locked_on pending rng started p'.session p')
begun-Returns operation position rng started none p p' pending move v same h = cc
begun-Returns operation position rng started (some s) p p' pending move v same h =
    elim (Bool-cases (is_empty s.items)) [
      | inl empty ↦ absurd (nothing (rw empty at h))
      | inr full ↦
          let (i, t, k) =
            >>=-eq-some (target operation (restarts operation position s) s)
              (λ i. some (decided operation position s p i)) (rw full at h) in
          subst (λ q. Returns HasQueue (locked_on q.1 rng started q.0.session q.0))
            (some-injective k)
            (subst
              (λ o. Returns HasQueue (
                locked_on (decided operation position s p i).1 rng started o
                  (decided operation position s p i).0))
              (sym same) (Move-Returns operation position rng started s p i move v t))
    ]
  where
    nothing : {r : Speaker × Pending} → none ≡ some r → ⊥
    nothing e = cc

-- When `next` or `previous` is accepted on a queue in order and nothing comes in between, the
-- move behind the lock raises nothing, whether the stream starts or not, and leaves the queue
-- in order.
pub control_queue-Returns :
    (operation : Operation) (position : Option ℕ)
    (rng : List PlaybackQueueItem → List PlaybackQueueItem) (started : Option ℕ) (p p' : Speaker)
    (pending : Pending)
    → Move operation
    → HasQueue p
    → control_queue_begin operation position p ≡ some (p', pending)
    → (q : Speaker) × (control_queue_locked pending rng started p' ≡ some q) × HasQueue q
unfolding control_queue_begin control_queue_locked
control_queue-Returns operation position rng started p p' pending move v h =
    begun-Returns operation position rng started p.session p p' pending move v refl h

-- Within the first three seconds of an item that is not the first, `previous` decides for the
-- item before it in the queue and gives the speaker a new generation, in a queue whose items
-- are distinct and whose history ends with the items before the index.
pub control_queue_begin-previous :
    (position : Option ℕ) (p : Speaker) (s : PlaybackSession) (i : ℕ)
    → p.session ≡ some s
    → IsQueue s
    → s.index ≡ suc i
    → past_start position ≡ false
    → control_queue_begin Operation.previous position p
      ≡ some (
        record p { generation = suc p.generation },
        record {
          initial = s.identity;
          operation = Operation.previous;
          restart_current = false;
          next_index = i;
          generation = some (suc p.generation);
        },
      )
unfolding control_queue_begin
control_queue_begin-previous position p s i same v h early =
    let full : is_empty s.items ≡ false = nonempty s.items v.within in
    let stays : restarts Operation.previous position s ≡ false = ground arith in
    rw (same, full, stays, before-last s i v h) refl
  where
    nonempty : (items : List PlaybackQueueItem) → s.index < length items → is_empty items ≡ false
    nonempty [] k = absurd (omega arith)
    nonempty (x ∷ items) k = refl

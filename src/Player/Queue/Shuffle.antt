-- ===== src/Player/Queue/Shuffle.antt =====
-- Shuffling a queue (backend/bl_haos/ha/player.py: control_queue with set_shuffle).
use bl_haos_bridge.Prelude.{
  suc, ◌≡◌, refl, sym, ap, subst, ◌∙◌, ◌⊎◌, inl, inr, Bool, true, false, not, Bool-cases, List,
  ◌++◌, take, drop, select, if◌then◌else◌,
}
use bl_haos_bridge.Player.Model.{PlaybackQueueItem, PlaybackSession}
use bl_haos_bridge.Player.Queue.{reshuffled}
use bl_haos_bridge.Player.Queue.Order.{IsDistinct, IsOrder, IsQueue}
use bl_haos_bridge.Player.Queue.Rearranged.{
  AreApart, IsDistinct-append, IsDistinct-take, take-kept, is_among, Rearranged,
  Rearranged-IsDistinct, Rearranged-AreApart, Rearranged-refl, Rearranged-behind, Subsequence,
  select-Subsequence, picked-Rearranged, take-drop, new_tail,
}

-- What switching shuffle leaves of a queue: the same current item with the same items before it, and
-- the items behind it in another order, which is that of the originals when shuffle is switched off.
pub record IsReshuffled (wanted : Bool) (s s' : PlaybackSession) : Type 0 where
  pub queue : IsQueue s'
  pub wished : s'.shuffle ≡ wanted
  pub stays : s'.index ≡ s.index
  pub kept : take (suc s.index) s'.items ≡ take (suc s.index) s.items
  pub behind : Rearranged (drop (suc s.index) s.items) (drop (suc s.index) s'.items)
  pub whole : Rearranged s'.original_items s'.items
  pub restored :
      (wanted ≡ true)
      ⊎ (s.shuffle ≡ false)
      ⊎ Subsequence (drop (suc s.index) s'.items) s.original_items

-- A new tail behind the current item.
tail-IsQueue :
    (s : PlaybackSession) (order : List PlaybackQueueItem)
    → IsQueue s
    → IsDistinct order
    → AreApart (take (suc s.index) s.items) order
    → IsOrder (take (suc s.index) s.items ++ order) s.index s.history
tail-IsQueue s order v d a =
    let (same, inside) = take-kept s.index s.items order v.within in
    let (front, _, _) = IsDistinct-take (suc s.index) s.items v.distinct in
    record {
      within = inside;
      distinct = IsDistinct-append (take (suc s.index) s.items) order front d a;
      past = v.past;
      order = v.order ∙ ap (λ l. v.past ++ l) (sym same);
    }

module _ (s : PlaybackSession) (original : Rearranged s.original_items s.items)
    (v : IsQueue s) where
  tail_changed :
      (wanted : Bool) (order : List PlaybackQueueItem)
      → Rearranged (drop (suc s.index) s.items) order
      → (wanted ≡ true) ⊎ (s.shuffle ≡ false) ⊎ Subsequence order s.original_items
      → IsReshuffled wanted s
          (record s { shuffle = wanted; items = take (suc s.index) s.items ++ order })
  tail_changed wanted order r restored =
      let (_, distinct, apart) = IsDistinct-take (suc s.index) s.items v.distinct in
      let (front, back) = new_tail s.index s.items order v.within in
      record {
        queue =
            tail-IsQueue s order v (Rearranged-IsDistinct r distinct)
              (Rearranged-AreApart (take (suc s.index) s.items) r apart);
        wished = refl;
        stays = refl;
        kept = front;
        behind = rw back r;
        whole = Rearranged.onward original (
            subst (λ l. Rearranged l (take (suc s.index) s.items ++ order))
              (take-drop (suc s.index) s.items) (Rearranged-behind (take (suc s.index) s.items) r));
        restored = rw back restored;
      }

  unchanged :
      (wanted : Bool)
      → s.shuffle ≡ wanted
      → (wanted ≡ true) ⊎ (s.shuffle ≡ false)
      → IsReshuffled wanted s s
  unchanged wanted e same = record {
    queue = v;
    wished = e;
    stays = refl;
    kept = refl;
    behind = Rearranged-refl (drop (suc s.index) s.items);
    whole = original;
    restored = elim same [ inl t ↦ inl t | inr f ↦ inr (inl f) ];
  }

  restored_tail :
      Rearranged
        (drop (suc s.index) s.items)
        (select (is_among (drop (suc s.index) s.items)) s.original_items)
  restored_tail = picked-Rearranged (suc s.index) s.items s.original_items v.distinct original

-- Let the originals be the items of a queue in some order. Switching shuffle on, with any
-- shuffle that rearranges, or off keeps the index, the current item and those before it, the
-- order of the history and the distinct items; the items behind are the same in another order,
-- the originals are still the items in some order, and when shuffle goes off the items behind
-- stand in the order of the originals.
pub reshuffled-IsQueue :
    (rng : List PlaybackQueueItem → List PlaybackQueueItem) (wanted : Bool) (s : PlaybackSession)
    → ((xs : List PlaybackQueueItem) → Rearranged xs (rng xs))
    → Rearranged s.original_items s.items
    → IsQueue s
    → IsReshuffled wanted s (reshuffled rng wanted s)
reshuffled-IsQueue rng true s shuffles original v =
    let tail = drop (suc s.index) s.items in
    let changed = record s { shuffle = true; items = take (suc s.index) s.items ++ rng tail } in
    elim (Bool-cases s.shuffle) [
      | inl e ↦
          subst (λ b. IsReshuffled true s (if b then s else changed)) (sym e)
            (unchanged s original v true e (inl refl))
      | inr e ↦
          subst (λ b. IsReshuffled true s (if b then s else changed)) (sym e)
            (tail_changed s original v true (rng tail) (shuffles tail) (inl refl))
    ]
reshuffled-IsQueue rng false s shuffles original v =
    let picked = select (is_among (drop (suc s.index) s.items)) s.original_items in
    let changed = record s { shuffle = false; items = take (suc s.index) s.items ++ picked } in
    let ordered = select-Subsequence (is_among (drop (suc s.index) s.items)) s.original_items in
    elim (Bool-cases s.shuffle) [
      | inl e ↦
          subst (λ b. IsReshuffled false s (if not b then s else changed)) (sym e)
            (tail_changed s original v false picked (restored_tail s original v)
              (inr (inr ordered)))
      | inr e ↦
          subst (λ b. IsReshuffled false s (if not b then s else changed)) (sym e)
            (unchanged s original v false e (inr e))
    ]

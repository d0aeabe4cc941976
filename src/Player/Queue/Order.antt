-- ===== src/Player/Queue/Order.antt =====
-- The order of a queue: its index, its history and its items (backend/bl_haos/ha/player.py).
use bl_haos_bridge.Prelude.{
  ℕ, zero, suc, ◌<◌, ◌≡◌, refl, sym, ap, ◌∙◌, false, List, [], ◌∷◌, ◌++◌, map, some, arith, All,
  length, get_elem?, take, ◌==◌, some-injective,
}
use mathlib.Core.List.{append_assoc, append-nil}
use bl_haos_bridge.Player.Model.{PlaybackQueueItem, PlaybackSession}
use bl_haos_bridge.Player.Queue.{index_of, last, popped, blanked}

abbrev pub IsAbsent : ℕ → List PlaybackQueueItem → Type 0
IsAbsent n items = All (λ item. (item.identity == n) ≡ false) items

abbrev pub IsDistinct : List PlaybackQueueItem → Type 0
IsDistinct [] = Unit
IsDistinct (item ∷ items) = IsAbsent item.identity items × IsDistinct items

-- The index is in range, the items are distinct, and the history ends with the items before the
-- index.
pub record IsOrder (items : List PlaybackQueueItem) (index : ℕ) (history : List PlaybackQueueItem)
    : Type 0 where
  pub within : index < length items
  pub distinct : IsDistinct items
  pub past : List PlaybackQueueItem
  pub order : history ≡ past ++ take index items

abbrev pub IsQueue : PlaybackSession → Type 0
IsQueue s = IsOrder s.items s.index s.history

absent-get :
    (n i : ℕ) (items : List PlaybackQueueItem) (x : PlaybackQueueItem)
    → IsAbsent n items
    → get_elem? items i ≡ some x
    → (x.identity == n) ≡ false
absent-get n i [] x h e = cc
absent-get n zero (y ∷ items) x h e = ground arith
absent-get n (suc i) (y ∷ items) x h e = absent-get n i items x h.1 e

pub index_of-get :
    (i : ℕ) (items : List PlaybackQueueItem) (x : PlaybackQueueItem)
    → IsDistinct items
    → get_elem? items i ≡ some x
    → index_of x.identity items ≡ some i
unfolding index_of
index_of-get i [] x d e = cc
index_of-get zero (y ∷ items) x d e = ground arith
index_of-get (suc i) (y ∷ items) x d e =
    ground (arith, index_of-get i items x d.1 e, absent-get y.identity i items x d.0 e)

pub get-within :
    (i : ℕ) (items : List PlaybackQueueItem)
    → i < length items
    → (x : PlaybackQueueItem) × (get_elem? items i ≡ some x)
get-within i [] h = absurd (omega arith)
get-within zero (x ∷ items) h = (x, refl)
get-within (suc i) (x ∷ items) h = get-within i items (omega arith)

pub take-suc :
    (i : ℕ) (items : List PlaybackQueueItem) (x : PlaybackQueueItem)
    → get_elem? items i ≡ some x
    → take (suc i) items ≡ take i items ++ x ∷ []
take-suc i [] x e = cc
take-suc zero (y ∷ items) x e = ap (λ z. z ∷ []) (some-injective e)
take-suc (suc i) (y ∷ items) x e = ap (λ l. y ∷ l) (take-suc i items x e)

pub last-append :
    (xs : List PlaybackQueueItem) (x : PlaybackQueueItem) → last (xs ++ x ∷ []) ≡ some x
last-append [] x = refl
last-append (y ∷ []) x = refl
last-append (y ∷ z ∷ xs) x = last-append (z ∷ xs) x

pub popped-append :
    (xs : List PlaybackQueueItem) (x : PlaybackQueueItem) → popped (xs ++ x ∷ []) ≡ xs
popped-append [] x = refl
popped-append (y ∷ []) x = refl
popped-append (y ∷ z ∷ xs) x = ap (λ l. y ∷ l) (popped-append (z ∷ xs) x)

module _ (items : List PlaybackQueueItem) (i : ℕ) (history : List PlaybackQueueItem)
    (x : PlaybackQueueItem) (current : get_elem? items i ≡ some x) where
  pub next-IsOrder :
      IsOrder items i history → suc i < length items → IsOrder items (suc i) (history ++ x ∷ [])
  next-IsOrder v h = record {
    within = h;
    distinct = v.distinct;
    past = v.past;
    order =
        ap (λ l. l ++ x ∷ []) v.order
        ∙ append_assoc v.past (take i items) (x ∷ [])
        ∙ ap (λ l. v.past ++ l) (sym (take-suc i items x current));
  }

  pub first-IsOrder : IsOrder items i history → IsOrder items 0 (history ++ x ∷ [])
  first-IsOrder v = record {
    within = omega (arith, v.within);
    distinct = v.distinct;
    past = history ++ x ∷ [];
    order = sym (append-nil (history ++ x ∷ []));
  }

  -- The item before the index is the last one of the history, and popping it goes back to it.
  pub previous-last : IsOrder items (suc i) history → last history ≡ some x
  previous-last v =
      ap last (
        v.order
        ∙ ap (λ l. v.past ++ l) (take-suc i items x current)
        ∙ sym (append_assoc v.past (take i items) (x ∷ [])))
      ∙ last-append (v.past ++ take i items) x

  pub previous-IsOrder : IsOrder items (suc i) history → IsOrder items i (popped history)
  previous-IsOrder v = record {
    within = omega (arith, v.within);
    distinct = v.distinct;
    past = v.past;
    order =
        ap popped (
          v.order
          ∙ ap (λ l. v.past ++ l) (take-suc i items x current)
          ∙ sym (append_assoc v.past (take i items) (x ∷ [])))
        ∙ popped-append (v.past ++ take i items) x;
  }

-- Dropping the URLs keeps the order.
length-blanked : (items : List PlaybackQueueItem) → length (map blanked items) ≡ length items
length-blanked [] = refl
length-blanked (x ∷ items) = omega (arith, length-blanked items)

IsAbsent-blanked :
    (n : ℕ) (items : List PlaybackQueueItem) → IsAbsent n items → IsAbsent n (map blanked items)
IsAbsent-blanked n [] h = tt
IsAbsent-blanked n (x ∷ items) h = (h.0, IsAbsent-blanked n items h.1)

IsDistinct-blanked :
    (items : List PlaybackQueueItem) → IsDistinct items → IsDistinct (map blanked items)
IsDistinct-blanked [] h = tt
IsDistinct-blanked (x ∷ items) h =
    (IsAbsent-blanked x.identity items h.0, IsDistinct-blanked items h.1)

take-blanked :
    (i : ℕ) (items : List PlaybackQueueItem)
    → map blanked (take i items) ≡ take i (map blanked items)
take-blanked zero items = refl
take-blanked (suc i) [] = refl
take-blanked (suc i) (x ∷ items) = ap (λ l. blanked x ∷ l) (take-blanked i items)

append-blanked :
    (xs ys : List PlaybackQueueItem) → map blanked (xs ++ ys) ≡ map blanked xs ++ map blanked ys
append-blanked [] ys = refl
append-blanked (x ∷ xs) ys = ap (λ l. blanked x ∷ l) (append-blanked xs ys)

pub blanked-IsOrder :
    (items : List PlaybackQueueItem) (i : ℕ) (history : List PlaybackQueueItem)
    → IsOrder items i history
    → IsOrder (map blanked items) i (map blanked history)
blanked-IsOrder items i history v = record {
  within = omega (arith, v.within, length-blanked items);
  distinct = IsDistinct-blanked items v.distinct;
  past = map blanked v.past;
  order =
      ap (map blanked) v.order
      ∙ append-blanked v.past (take i items)
      ∙ ap (λ l. map blanked v.past ++ l) (take-blanked i items);
}

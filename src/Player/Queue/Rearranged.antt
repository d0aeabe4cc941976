-- ===== src/Player/Queue/Rearranged.antt =====
-- Lists of queue items in another order, and the items that a test picks
-- (backend/bl_haos/ha/player.py: control_queue with set_shuffle).
use bl_haos_bridge.Prelude.{
  ℕ, zero, suc, ◌<◌, ◌≡◌, refl, sym, ap, subst, ◌∙◌, Bool, true, false, List, [], ◌∷◌, ◌++◌, arith,
  inl, inr, All, length, take, drop, ◌==◌, any, select, if◌then◌else◌, Bool-cases,
}
use bl_haos_bridge.Player.Model.{PlaybackQueueItem}
use bl_haos_bridge.Player.Queue.Order.{IsAbsent, IsDistinct}

-- No item of the one list is in the other.
abbrev pub AreApart : List PlaybackQueueItem → List PlaybackQueueItem → Type 0
AreApart xs ys = All (λ x. IsAbsent x.identity ys) xs

IsAbsent-append :
    (n : ℕ) (xs ys : List PlaybackQueueItem) → IsAbsent n xs → IsAbsent n ys → IsAbsent n (xs ++ ys)
IsAbsent-append n [] ys h k = k
IsAbsent-append n (x ∷ xs) ys h k = (h.0, IsAbsent-append n xs ys h.1 k)

pub IsDistinct-append :
    (xs ys : List PlaybackQueueItem)
    → IsDistinct xs
    → IsDistinct ys
    → AreApart xs ys
    → IsDistinct (xs ++ ys)
IsDistinct-append [] ys h k a = k
IsDistinct-append (x ∷ xs) ys h k a =
    (IsAbsent-append x.identity xs ys h.0 a.0, IsDistinct-append xs ys h.1 k a.1)

IsAbsent-take :
    (n i : ℕ) (xs : List PlaybackQueueItem)
    → IsAbsent n xs
    → IsAbsent n (take i xs) × IsAbsent n (drop i xs)
IsAbsent-take n zero xs h = (tt, h)
IsAbsent-take n (suc i) [] h = (tt, tt)
IsAbsent-take n (suc i) (x ∷ xs) h = let (a, b) = IsAbsent-take n i xs h.1 in ((h.0, a), b)

pub IsDistinct-take :
    (i : ℕ) (xs : List PlaybackQueueItem)
    → IsDistinct xs
    → IsDistinct (take i xs) × IsDistinct (drop i xs) × AreApart (take i xs) (drop i xs)
IsDistinct-take zero xs h = (tt, h, tt)
IsDistinct-take (suc i) [] h = (tt, tt, tt)
IsDistinct-take (suc i) (x ∷ xs) h =
    let (a, b, c) = IsDistinct-take i xs h.1 in
    let (d, e) = IsAbsent-take x.identity i xs h.0 in ((d, a), b, (e, c))

pub take-kept :
    (i : ℕ) (xs ys : List PlaybackQueueItem)
    → i < length xs
    → (take i (take (suc i) xs ++ ys) ≡ take i xs) × (i < length (take (suc i) xs ++ ys))
take-kept i [] ys h = absurd (omega arith)
take-kept zero (x ∷ xs) ys h = (refl, omega arith)
take-kept (suc i) (x ∷ xs) ys h =
    let (a, b) = take-kept i xs ys (omega arith) in (ap (λ l. x ∷ l) a, omega (arith, b))

-- What is picked from a distinct list is distinct, and not among what its test excludes.
IsAbsent-select :
    (n : ℕ) (p : PlaybackQueueItem → Bool) (xs : List PlaybackQueueItem)
    → IsAbsent n xs
    → IsAbsent n (select p xs)
IsAbsent-select n p [] h = tt
IsAbsent-select n p (x ∷ xs) h = ground (arith, IsAbsent-select n p xs h.1)

pub IsDistinct-select :
    (p : PlaybackQueueItem → Bool) (xs : List PlaybackQueueItem)
    → IsDistinct xs
    → IsDistinct (select p xs)
IsDistinct-select p [] h = tt
IsDistinct-select p (x ∷ xs) h =
    ground (arith, IsAbsent-select x.identity p xs h.0, IsDistinct-select p xs h.1)

-- The test of `tail_ids`
abbrev pub is_among : List PlaybackQueueItem → PlaybackQueueItem → Bool
is_among tail item = any (λ other. other.identity == item.identity) tail

among-IsAbsent :
    (n : ℕ) (tail : List PlaybackQueueItem) (item : PlaybackQueueItem)
    → IsAbsent n tail
    → is_among tail item ≡ true
    → (item.identity == n) ≡ false
among-IsAbsent n [] item h k = cc
among-IsAbsent n (x ∷ tail) item h k = ground (arith, among-IsAbsent n tail item h.1, h.0)

select-IsAbsent :
    (n : ℕ) (tail xs : List PlaybackQueueItem)
    → IsAbsent n tail
    → IsAbsent n (select (is_among tail) xs)
select-IsAbsent n tail [] h = tt
select-IsAbsent n tail (x ∷ xs) h =
    ground (arith, select-IsAbsent n tail xs h, among-IsAbsent n tail x h)

pub select-AreApart :
    (front tail xs : List PlaybackQueueItem)
    → AreApart front tail
    → AreApart front (select (is_among tail) xs)
select-AreApart [] tail xs h = tt
select-AreApart (x ∷ front) tail xs h =
    (select-IsAbsent x.identity tail xs h.0, select-AreApart front tail xs h.1)

-- The one list is the other in another order.
pub data Rearranged : List PlaybackQueueItem → List PlaybackQueueItem → Type 0 where
  empty : Rearranged [] []
  keep :
      (x : PlaybackQueueItem) {xs ys : List PlaybackQueueItem}
      → Rearranged xs ys
      → Rearranged (x ∷ xs) (x ∷ ys)
  swap :
      (x y : PlaybackQueueItem) (xs : List PlaybackQueueItem) → Rearranged (x ∷ y ∷ xs) (y ∷ x ∷ xs)
  onward :
      {xs ys zs : List PlaybackQueueItem} → Rearranged xs ys → Rearranged ys zs → Rearranged xs zs

Rearranged-IsAbsent :
    (n : ℕ) {xs ys : List PlaybackQueueItem} → Rearranged xs ys → IsAbsent n xs → IsAbsent n ys
Rearranged-IsAbsent n empty h = tt
Rearranged-IsAbsent n (keep x r) h = (h.0, Rearranged-IsAbsent n r h.1)
Rearranged-IsAbsent n (swap x y xs) h = (h.1.0, (h.0, h.1.1))
Rearranged-IsAbsent n (onward r s) h = Rearranged-IsAbsent n s (Rearranged-IsAbsent n r h)

pub Rearranged-IsDistinct :
    {xs ys : List PlaybackQueueItem} → Rearranged xs ys → IsDistinct xs → IsDistinct ys
Rearranged-IsDistinct empty h = tt
Rearranged-IsDistinct (keep x r) h =
    (Rearranged-IsAbsent x.identity r h.0, Rearranged-IsDistinct r h.1)
Rearranged-IsDistinct (swap x y xs) h = ((ground (arith, h.0), h.1.0), (h.0.1, h.1.1))
Rearranged-IsDistinct (onward r s) h = Rearranged-IsDistinct s (Rearranged-IsDistinct r h)

pub Rearranged-AreApart :
    (front : List PlaybackQueueItem) {xs ys : List PlaybackQueueItem}
    → Rearranged xs ys
    → AreApart front xs
    → AreApart front ys
Rearranged-AreApart [] r h = tt
Rearranged-AreApart (x ∷ front) r h =
    (Rearranged-IsAbsent x.identity r h.0, Rearranged-AreApart front r h.1)

-- The one list is the other without some items.
pub data Subsequence : List PlaybackQueueItem → List PlaybackQueueItem → Type 0 where
  nothing : Subsequence [] []
  both :
      (x : PlaybackQueueItem) {xs ys : List PlaybackQueueItem}
      → Subsequence xs ys
      → Subsequence (x ∷ xs) (x ∷ ys)
  left_out :
      (y : PlaybackQueueItem) {xs ys : List PlaybackQueueItem}
      → Subsequence xs ys
      → Subsequence xs (y ∷ ys)

pub select-Subsequence :
    (p : PlaybackQueueItem → Bool) (xs : List PlaybackQueueItem) → Subsequence (select p xs) xs
select-Subsequence p [] = Subsequence.nothing
select-Subsequence p (x ∷ xs) = elim (Bool-cases (p x)) [
  | inl e ↦ rw e (Subsequence.both x (select-Subsequence p xs))
  | inr e ↦ rw e (Subsequence.left_out x (select-Subsequence p xs))
]

pub Rearranged-refl : (xs : List PlaybackQueueItem) → Rearranged xs xs
Rearranged-refl [] = Rearranged.empty
Rearranged-refl (x ∷ xs) = Rearranged.keep x (Rearranged-refl xs)

pub Rearranged-sym : {xs ys : List PlaybackQueueItem} → Rearranged xs ys → Rearranged ys xs
Rearranged-sym Rearranged.empty = Rearranged.empty
Rearranged-sym (Rearranged.keep x r) = Rearranged.keep x (Rearranged-sym r)
Rearranged-sym (Rearranged.swap x y xs) = Rearranged.swap y x xs
Rearranged-sym (Rearranged.onward r s) = Rearranged.onward (Rearranged-sym s) (Rearranged-sym r)

pub Rearranged-behind :
    (front : List PlaybackQueueItem) {xs ys : List PlaybackQueueItem}
    → Rearranged xs ys
    → Rearranged (front ++ xs) (front ++ ys)
Rearranged-behind [] r = r
Rearranged-behind (x ∷ front) r = Rearranged.keep x (Rearranged-behind front r)

swapped_if :
    (x y : PlaybackQueueItem) (a b : Bool) (xs : List PlaybackQueueItem)
    → Rearranged
        (if a then x ∷ (if b then y ∷ xs else xs) else if b then y ∷ xs else xs)
        (if b then y ∷ (if a then x ∷ xs else xs) else if a then x ∷ xs else xs)
swapped_if x y true true xs = Rearranged.swap x y xs
swapped_if x y true false xs = Rearranged-refl (x ∷ xs)
swapped_if x y false true xs = Rearranged-refl (y ∷ xs)
swapped_if x y false false xs = Rearranged-refl xs

kept_if :
    (x : PlaybackQueueItem) (a : Bool) {xs ys : List PlaybackQueueItem}
    → Rearranged xs ys
    → Rearranged (if a then x ∷ xs else xs) (if a then x ∷ ys else ys)
kept_if x true r = Rearranged.keep x r
kept_if x false r = r

-- The order in which a test picks does not matter.
pub select-Rearranged :
    (p : PlaybackQueueItem → Bool) {xs ys : List PlaybackQueueItem}
    → Rearranged xs ys
    → Rearranged (select p xs) (select p ys)
select-Rearranged p Rearranged.empty = Rearranged.empty
select-Rearranged p (Rearranged.keep x r) = kept_if x (p x) (select-Rearranged p r)
select-Rearranged p (Rearranged.swap x y xs) = swapped_if x y (p x) (p y) (select p xs)
select-Rearranged p (Rearranged.onward r s) =
    Rearranged.onward (select-Rearranged p r) (select-Rearranged p s)

absent-among :
    (tail : List PlaybackQueueItem) (x : PlaybackQueueItem)
    → IsAbsent x.identity tail
    → is_among tail x ≡ false
absent-among [] x h = refl
absent-among (y ∷ tail) x h = ground (arith, absent-among tail x h.1, h.0)

select-front :
    (front tail xs : List PlaybackQueueItem)
    → AreApart front tail
    → select (is_among tail) (front ++ xs) ≡ select (is_among tail) xs
select-front [] tail xs h = refl
select-front (x ∷ front) tail xs h = rw (absent-among tail x h.0) (select-front front tail xs h.1)

among_more :
    (y : PlaybackQueueItem) (tail xs : List PlaybackQueueItem)
    → All (λ x. is_among tail x ≡ true) xs
    → All (λ x. is_among (y ∷ tail) x ≡ true) xs
among_more y tail [] h = tt
among_more y tail (x ∷ xs) h = (ground (arith, h.0), among_more y tail xs h.1)

all_among : (xs : List PlaybackQueueItem) → All (λ x. is_among xs x ≡ true) xs
all_among [] = tt
all_among (x ∷ xs) = (ground arith, among_more x xs xs (all_among xs))

select-All :
    (p : PlaybackQueueItem → Bool) (xs : List PlaybackQueueItem)
    → All (λ x. p x ≡ true) xs
    → select p xs ≡ xs
select-All p [] h = refl
select-All p (x ∷ xs) h = rw h.0 (ap (λ l. x ∷ l) (select-All p xs h.1))

pub take-drop : (n : ℕ) (xs : List PlaybackQueueItem) → take n xs ++ drop n xs ≡ xs
take-drop zero xs = refl
take-drop (suc n) [] = refl
take-drop (suc n) (x ∷ xs) = ap (λ l. x ∷ l) (take-drop n xs)

-- Of the items in any order, those among the tail are the tail.
pub picked-Rearranged :
    (n : ℕ) (items original : List PlaybackQueueItem)
    → IsDistinct items
    → Rearranged original items
    → Rearranged (drop n items) (select (is_among (drop n items)) original)
picked-Rearranged n items original d r =
    let (_, _, apart) = IsDistinct-take n items d in
    let tail = drop n items in
    let whole : select (is_among tail) items ≡ tail =
      ap (select (is_among tail)) (sym (take-drop n items))
      ∙ select-front (take n items) tail tail apart
      ∙ select-All (is_among tail) tail (all_among tail) in
    Rearranged-sym (
      subst (Rearranged (select (is_among tail) original)) whole
        (select-Rearranged (is_among tail) r))

pub new_tail :
    (i : ℕ) (xs ys : List PlaybackQueueItem)
    → i < length xs
    → (take (suc i) (take (suc i) xs ++ ys) ≡ take (suc i) xs)
      × (drop (suc i) (take (suc i) xs ++ ys) ≡ ys)
new_tail i [] ys h = absurd (omega arith)
new_tail zero (x ∷ xs) ys h = (refl, refl)
new_tail (suc i) (x ∷ xs) ys h =
    let (a, b) = new_tail i xs ys (omega arith) in (ap (λ l. x ∷ l) a, b)

-- ===== src/Player/Request/Laws.antt =====
-- What an accepted queue request holds (backend/bl_haos/ha/player.py: start_queue).
use bl_haos_bridge.Prelude.{
  ◌>>=◌, ℕ, suc, ◌+◌, ◌≤◌, ◌≡◌, refl, subst, Bool, true, false, not, ◌||◌, List, [], ◌∷◌, Option,
  none, some, arith, ◌==◌, if◌then◌else◌, length, ltb, All, >>=-eq-some, some-injective,
}
use bl_haos_bridge.Dict.{Text}
use bl_haos_bridge.Player.Model.{
  PlaybackQueueItem, Speaker, max_queue_items, max_queue_payload_bytes,
}
use bl_haos_bridge.Player.Request.{
  Entry, utf8_bytes, text_bytes, queue_text, validated_item, validated_items, within_payload,
  queue_request,
}
use bl_haos_bridge.Player.Queue.{new_session, start_queue_locked, put_session, play_queue_item}
use bl_haos_bridge.Player.Queue.Order.{IsDistinct, IsAbsent}
use bl_haos_bridge.Player.Queue.Laws.{HasQueue, Returns, play_queue_item-Returns}

-- The bytes of the items of a queue.
pub items_bytes : List PlaybackQueueItem → ℕ
items_bytes [] = 0
items_bytes (item ∷ items) =
    utf8_bytes item.url + text_bytes item.title + text_bytes item.artist + items_bytes items

-- Numbers from `n` on, each once.
record IsNumbered (n : ℕ) (items : List PlaybackQueueItem) : Type 0 where
  above : All (λ item. n ≤ item.identity) items
  distinct : IsDistinct items

above-weaken :
    (n : ℕ) (items : List PlaybackQueueItem)
    → All (λ item. suc n ≤ item.identity) items
    → All (λ item. n ≤ item.identity) items × IsAbsent n items
above-weaken n [] h = (tt, tt)
above-weaken n (item ∷ items) h =
    let (x, y) = above-weaken n items h.1 in ((omega (arith, h.0), x), (ground (arith, h.0), y))

module _ (validate_media_url : Text → Option Text) (display_text : Text → Option Text) where
  validated_items-IsNumbered :
      (n : ℕ) (entries : List Entry) (r : List PlaybackQueueItem × ℕ)
      → validated_items validate_media_url display_text n entries ≡ some r
      → (length r.0 ≡ length entries) × (r.1 ≡ items_bytes r.0) × IsNumbered n r.0
  unfolding validated_items items_bytes
  validated_items-IsNumbered n [] r h =
      subst (λ q. (length q.0 ≡ 0) × (q.1 ≡ items_bytes q.0) × IsNumbered n q.0) (some-injective h)
        (refl, refl, record { above = tt; distinct = tt })
  validated_items-IsNumbered n (entry ∷ entries) r h =
      let (url, _, h₁) = >>=-eq-some (validate_media_url entry.url) with_url h in
      let (q, v, h₂) =
        >>=-eq-some (validated_items validate_media_url display_text (suc n) entries) (packed url)
          h₁ in
      let (size, bytes, numbered) = validated_items-IsNumbered (suc n) entries q v in
      let (above, absent) = above-weaken n q.0 numbered.above in
      subst (λ q. (length q.0 ≡ suc (length entries)) × (q.1 ≡ items_bytes q.0) × IsNumbered n q.0)
        (some-injective h₂)
        (
          omega (arith, size),
          omega (arith, bytes),
          record { above = (omega arith, above); distinct = (absent, numbered.distinct) },
        )
    where
      packed : Text → List PlaybackQueueItem × ℕ → Option (List PlaybackQueueItem × ℕ)
      packed url (items, bytes) = some (
        validated_item validate_media_url display_text n url entry ∷ items,
        utf8_bytes url
            + text_bytes (queue_text validate_media_url display_text entry.title)
            + text_bytes (queue_text validate_media_url display_text entry.artist)
            + bytes,
      )

      with_url : Text → Option (List PlaybackQueueItem × ℕ)
      with_url url = validated_items validate_media_url display_text (suc n) entries >>= packed url

  -- A queue request that is accepted has as many items as entries, at least one and at most
  -- 250, at most 256 KiB of playlist name, URLs, titles and artists together, and distinct
  -- items, whatever the validators of URLs and texts are.
  pub queue_request-bounds :
      (n : ℕ) (playlist : Option Text) (entries : List Entry) (name : Text)
      (items : List PlaybackQueueItem)
      → queue_request validate_media_url display_text n playlist entries ≡ some (name, items)
      → (length items ≡ length entries)
        × (1 ≤ length items)
        × (length items ≤ max_queue_items)
        × (utf8_bytes name + items_bytes items ≤ max_queue_payload_bytes)
        × IsDistinct items
  unfolding queue_request
  queue_request-bounds n playlist entries name items h =
      let (text, _, h₁) =
        >>=-eq-some (queue_text validate_media_url display_text playlist) counted h in
      let (sized, h₂) = passed (length entries == 0 || ltb max_queue_items (length entries)) h₁ in
      let (q, v, h₃) =
        >>=-eq-some (validated_items validate_media_url display_text n entries)
          (within_payload validate_media_url display_text text) h₂ in
      let (size, bytes, numbered) = validated_items-IsNumbered n entries q v in
      let (light, e) = passed (ltb max_queue_payload_bytes (utf8_bytes text + q.1)) h₃ in
      let same = some-injective e in
      let bounds : (length q.0 ≡ length entries)
          × (1 ≤ length q.0)
          × (length q.0 ≤ max_queue_items)
          × (utf8_bytes text + items_bytes q.0 ≤ max_queue_payload_bytes)
          × IsDistinct q.0 =
        (
          size,
          ground (arith, size, sized),
          ground (arith, size, sized),
          ground (arith, bytes, light),
          numbered.distinct,
        ) in
      subst
        (λ r.
          (length r.1 ≡ length entries)
          × (1 ≤ length r.1)
          × (length r.1 ≤ max_queue_items)
          × (utf8_bytes r.0 + items_bytes r.1 ≤ max_queue_payload_bytes)
          × IsDistinct r.1)
        same bounds
    where
      counted : Text → Option (Text × List PlaybackQueueItem)
      counted name =
          if length entries == 0 || ltb max_queue_items (length entries)
          then none
          else (validated_items validate_media_url display_text n entries
              >>= within_payload validate_media_url display_text name)

      passed :
          (b : Bool) {o : Option (Text × List PlaybackQueueItem)}
          {r : Text × List PlaybackQueueItem}
          → (if b then none else o) ≡ some r
          → (b ≡ false) × (o ≡ some r)
      passed true e = cc
      passed false e = (refl, e)

  -- Starting an accepted queue raises nothing, whether the stream starts or not, and leaves the
  -- speaker with a queue in order.
  pub start_queue_locked-HasQueue :
      (n : ℕ) (playlist : Option Text) (entries : List Entry) (name : Text)
      (items : List PlaybackQueueItem) (identity generation : ℕ) (started : Option ℕ) (p : Speaker)
      → queue_request validate_media_url display_text n playlist entries ≡ some (name, items)
      → HasQueue p
      → (q : Speaker) × (start_queue_locked identity generation name items started p ≡ some q)
        × HasQueue q
  unfolding start_queue_locked
  start_queue_locked-HasQueue n playlist entries name items identity generation started p h v =
      let b = queue_request-bounds n playlist entries name items h in
      let s = new_session identity generation name items in
      go (p.generation == generation) (
        play_queue_item-Returns started s (put_session s p)
          (record { within = omega (arith, b); distinct = b.4; past = []; order = refl }))
    where
      go :
          (current : Bool)
          → Returns HasQueue (
              play_queue_item started
                (new_session identity generation name items)
                (put_session (new_session identity generation name items) p))
          → Returns HasQueue (
              if not current
              then some p
              else play_queue_item started
                  (new_session identity generation name items)
                  (put_session (new_session identity generation name items) p))
      go true r = r
      go false r = (p, refl, v)

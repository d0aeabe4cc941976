-- ===== src/Player/Request.antt =====
-- The validation of a queue request (backend/bl_haos/ha/player.py: start_queue).
pub mod Laws
use bl_haos_bridge.Prelude.{
  ◌>>=◌, ℕ, suc, ◌+◌, Bool, List, [], ◌∷◌, Option, none, some, ltb, ◌==◌, ◌||◌, if◌then◌else◌,
  length,
}
use bl_haos_bridge.Dict.{Text}
use bl_haos_bridge.Player.Model.{PlaybackQueueItem, max_queue_items, max_queue_payload_bytes}

-- One entry of the request. An entry without a string under `url` is a bad request before it gets
-- here; a title or artist that is no string is `none`.
pub record Entry : Type 0 where
  pub url : Text
  pub title : Option Text
  pub artist : Option Text

-- `len(text.encode("utf-8"))`
unfoldable pub utf8_bytes : Text → ℕ
utf8_bytes [] = 0
utf8_bytes (c ∷ s) =
    (if ltb c 0x80 then 1 else if ltb c 0x800 then 2 else if ltb c 0x10000 then 3 else 4)
    + utf8_bytes s

abbrev pub text_bytes : Option Text → ℕ
text_bytes none = 0
text_bytes (some s) = utf8_bytes s

-- `validate_media_url` and `_text` are parameters here: what they refuse is `none`.
module _ (validate_media_url : Text → Option Text) (display_text : Text → Option Text) where
  abbrev pub queue_text : Option Text → Option Text
  queue_text none = none
  queue_text (some s) = display_text s

  abbrev pub validated_item : ℕ → Text → Entry → PlaybackQueueItem
  validated_item n url entry = record {
    identity = n;
    url = url;
    title = queue_text entry.title;
    artist = queue_text entry.artist;
  }

  -- The loop over the entries; `n` is the identity of the next item. The result has the items and
  -- their bytes.
  pub validated_items : ℕ → List Entry → Option (List PlaybackQueueItem × ℕ)
  validated_items n [] = some ([], 0)
  validated_items n (entry ∷ entries) = do
    url ← validate_media_url entry.url
    (items, bytes) ← validated_items (suc n) entries
    some (
      validated_item n url entry ∷ items,
      utf8_bytes url
          + text_bytes (queue_text entry.title)
          + text_bytes (queue_text entry.artist)
          + bytes,
    )

  abbrev pub within_payload :
      Text → List PlaybackQueueItem × ℕ → Option (Text × List PlaybackQueueItem)
  within_payload playlist (items, bytes) =
      if ltb max_queue_payload_bytes (utf8_bytes playlist + bytes)
      then none
      else some (playlist, items)

  -- The request up to the point where it replaces the queue. `none` is the MediaPlayerError.
  unfoldable pub queue_request :
      ℕ → Option Text → List Entry → Option (Text × List PlaybackQueueItem)
  unfolding validated_items
  queue_request n playlist entries = do
    name ← queue_text playlist
    if length entries == 0 || ltb max_queue_items (length entries)
        then none
        else validated_items n entries >>= within_payload name

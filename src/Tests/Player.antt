-- ===== src/Tests/Player.antt =====
-- Runs of the playback queue (backend/bl_haos/ha/player.py).
use bl_haos_bridge.Prelude.{
  ◌+◌, ◌≤◌, ◌≡◌, refl, true, false, List, [], ◌∷◌, Option, none, some, arith, length,
}
use bl_haos_bridge.Dict.{Text}
use bl_haos_bridge.Text.{codes}
use bl_haos_bridge.Player.Model.{
  PlaybackQueueItem, PlaybackSession, Speaker, silent, PlaybackState, max_queue_items,
  max_queue_payload_bytes,
}
use bl_haos_bridge.Player.Request.{Entry, queue_request, utf8_bytes}
use bl_haos_bridge.Player.Request.Laws.{items_bytes, queue_request-bounds}
use bl_haos_bridge.Player.Queue.{
  Operation, Pending, new_session, start_queue_locked, invalidate_playback_session,
  control_queue_begin, control_queue_locked, watch_processes,
}
use bl_haos_bridge.Player.Queue.Order.{IsDistinct, IsQueue}
use bl_haos_bridge.Player.Queue.Laws.{HasQueue}
use bl_haos_bridge.Player.Queue.Moves.{Move, control_queue-Returns, control_queue_begin-previous}
use bl_haos_bridge.Player.Queue.Stale.{invalidated-ignores}
use bl_haos_bridge.Player.Queue.Rearranged.{Rearranged, Rearranged-refl}
use bl_haos_bridge.Player.Queue.Shuffle.{IsReshuffled, reshuffled-IsQueue}
use bl_haos_bridge.Player.Queue.{reshuffled}
use bl_haos_bridge.Player.Queue.Playthrough.{play_out, IsPlayedOut, play_out-IsPlayedOut}

-- A validator that refuses what is empty, and a display text that is the text.
abbrev accept : Text → Option Text
accept [] = none
accept (c ∷ s) = some (c ∷ s)

abbrev entry : Text → Entry
entry url = record { url = url; title = none; artist = none }

abbrev entries : List Entry
entries = entry (codes "http://a/1") ∷ entry (codes "http://a/2") ∷ []

abbrev first : PlaybackQueueItem
first = record { identity = 5; url = codes "http://a/1"; title = none; artist = none }

abbrev second : PlaybackQueueItem
second = record { identity = 6; url = codes "http://a/2"; title = none; artist = none }

abbrev items : List PlaybackQueueItem
items = first ∷ second ∷ []

accepted :
    queue_request accept accept 5 (some (codes "evening")) entries ≡ some (codes "evening", items)
unfolding queue_request utf8_bytes
accepted = refl

empty_refused : queue_request accept accept 5 (some (codes "evening")) [] ≡ none
unfolding queue_request
empty_refused = refl

queue_request-bounds_example :
    (length items ≡ length entries)
    × (1 ≤ length items)
    × (length items ≤ max_queue_items)
    × (utf8_bytes (codes "evening") + items_bytes items ≤ max_queue_payload_bytes)
    × IsDistinct items
queue_request-bounds_example =
    queue_request-bounds accept accept 5 (some (codes "evening")) entries (codes "evening") items
      accepted

-- The second item plays with the pair 8 of processes.
abbrev session : PlaybackSession
session = record (new_session 1 3 (codes "evening") items) {
  index = 1;
  history = first ∷ [];
  processes = some 8;
}

abbrev listening : Speaker
listening = record silent {
  generation = 3;
  session = some session;
  active_processes = some 8;
  state = PlaybackState.state_playing;
}

session-IsQueue : IsQueue session
session-IsQueue = record {
  within = omega arith;
  distinct = ((refl, tt), (tt, tt));
  past = [];
  order = refl;
}

abbrev back : Pending
back = record {
  initial = 1;
  operation = Operation.previous;
  restart_current = false;
  next_index = 0;
  generation = some 4;
}

abbrev waiting : Speaker
waiting = record listening { generation = 4 }

begins_back : control_queue_begin Operation.previous (some 1000) listening ≡ some (waiting, back)
unfolding control_queue_begin
begins_back = refl

control_queue-Returns_example :
    (q : Speaker) × (control_queue_locked back (λ tail. tail) (some 9) waiting ≡ some q)
    × HasQueue q
control_queue-Returns_example =
    control_queue-Returns Operation.previous (some 1000) (λ tail. tail) (some 9) listening waiting
      back Move.backward session-IsQueue begins_back

control_queue_begin-previous_example :
    control_queue_begin Operation.previous (some 1000) listening ≡ some (waiting, back)
control_queue_begin-previous_example =
    control_queue_begin-previous (some 1000) listening session 0 refl session-IsQueue refl refl

invalidated-ignores_example :
    let q = invalidate_playback_session listening in
    (watch_processes 8 3 true (some 9) q ≡ some q)
    × (start_queue_locked 2 3 (codes "late") items (some 9) q ≡ some q)
    × (control_queue_locked back (λ tail. tail) (some 9) q ≡ some q)
invalidated-ignores_example =
    invalidated-ignores listening 3 8 2 true (some 9) (codes "late") items back (λ tail. tail)
      (omega arith)

abbrev opening : PlaybackSession
opening = record (new_session 1 3 (codes "evening") items) { processes = some 7 }

abbrev opened : Speaker
opened = record listening { session = some opening; active_processes = some 7 }

play_out-IsPlayedOut_example :
    (r : Speaker × List (Option Text)) × (play_out 7 (8 ∷ []) opened ≡ some r)
    × IsPlayedOut opening 1 r
play_out-IsPlayedOut_example =
    play_out-IsPlayedOut 7 (8 ∷ []) opening opened
      (record { session = refl; active = refl; own = refl; current = refl; once = refl })
      (omega arith)

-- The URL of the stream that an operation starts.
abbrev url_after : Option (Speaker × Pending) → Option (Option Text)
url_after none = none
url_after (some (p, pending)) = elim (control_queue_locked pending (λ tail. tail) (some 10) p) [
  | none ↦ none
  | some q ↦ some q.last_url
]

abbrev ended : Option Speaker → Speaker
ended none = silent
ended (some p) = p

-- On a queue that has completed, `previous` starts a stream with an empty URL.
completed_previous :
    url_after (
      control_queue_begin Operation.previous none (ended (watch_processes 8 3 true none listening)))
    ≡ some (some [])
unfolding control_queue_begin watch_processes control_queue_locked
completed_previous = refl

-- A shuffle that swaps the first two.
abbrev swapped : List PlaybackQueueItem → List PlaybackQueueItem
swapped [] = []
swapped (x ∷ []) = x ∷ []
swapped (x ∷ y ∷ xs) = y ∷ x ∷ xs

swapped-Rearranged : (xs : List PlaybackQueueItem) → Rearranged xs (swapped xs)
swapped-Rearranged [] = Rearranged.empty
swapped-Rearranged (x ∷ []) = Rearranged-refl (x ∷ [])
swapped-Rearranged (x ∷ y ∷ xs) = Rearranged.swap x y xs

abbrev third : PlaybackQueueItem
third = record { identity = 7; url = codes "http://a/3"; title = none; artist = none }

abbrev trio : PlaybackSession
trio = new_session 1 3 (codes "evening") (first ∷ second ∷ third ∷ [])

trio-IsDistinct : IsDistinct trio.items
trio-IsDistinct = ((refl, (refl, tt)), ((refl, tt), (tt, tt)))

trio_shuffled : (reshuffled swapped true trio).items ≡ first ∷ third ∷ second ∷ []
trio_shuffled = refl

trio_restored : (reshuffled swapped false (reshuffled swapped true trio)).items ≡ trio.items
trio_restored = refl

reshuffled-IsQueue_example : IsReshuffled true trio (reshuffled swapped true trio)
reshuffled-IsQueue_example =
    reshuffled-IsQueue swapped true trio swapped-Rearranged (Rearranged-refl trio.items)
      (record { within = omega arith; distinct = trio-IsDistinct; past = []; order = refl })

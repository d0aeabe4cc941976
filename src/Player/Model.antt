-- ===== src/Player/Model.antt =====
-- The records of a speaker's playback (backend/bl_haos/ha/player.py).
use bl_haos_bridge.Prelude.{ℕ, Bool, true, false, List, Option, none}
use bl_haos_bridge.Dict.{Text}
use bl_haos_bridge.Text.{codes}

abbrev pub max_queue_items : ℕ
max_queue_items = 250

abbrev pub max_queue_payload_bytes : ℕ
max_queue_payload_bytes = 262144

abbrev pub queue_error_playback_failed : Text
queue_error_playback_failed = codes "Playback failed"

-- Items and sessions are compared with `is`, so each has an identity.
pub record PlaybackQueueItem : Type 0 where
  pub identity : ℕ
  pub url : Text
  pub title : Option Text
  pub artist : Option Text

pub data Repeat : Type 0 where
  repeat_off repeat_one repeat_all : Repeat

pub data Status : Type 0 where
  playing paused failed completed : Status

-- A pair of processes has a number.
pub record PlaybackSession : Type 0 where
  pub identity : ℕ
  pub generation : ℕ
  pub playlist : Text
  pub items : List PlaybackQueueItem
  pub original_items : List PlaybackQueueItem
  pub index : ℕ
  pub shuffle : Bool
  pub repeat : Repeat
  pub status : Status
  pub error : Option Text
  pub processes : Option ℕ
  pub history : List PlaybackQueueItem

-- `states`: `PLAYBACK_PLAYING`, `PLAYBACK_PAUSED`, `PLAYBACK_IDLE`
pub data PlaybackState : Type 0 where
  state_playing state_paused state_idle : PlaybackState

-- What the bridge holds for one address: the entries of `_playback_generations`,
-- `playback_sessions`, `active_processes`, `last_urls` and `states`.
pub record Speaker : Type 0 where
  pub generation : ℕ
  pub session : Option PlaybackSession
  pub active_processes : Option ℕ
  pub last_url : Option Text
  pub state : PlaybackState

abbrev pub silent : Speaker
silent = record {
  generation = 0;
  session = none;
  active_processes = none;
  last_url = none;
  state = PlaybackState.state_idle;
}

abbrev pub is_playing : Status → Bool
is_playing Status.playing = true
is_playing _ = false

abbrev pub is_failed : Status → Bool
is_failed Status.failed = true
is_failed _ = false

abbrev pub is_repeat_one : Repeat → Bool
is_repeat_one Repeat.repeat_one = true
is_repeat_one _ = false

abbrev pub is_repeat_all : Repeat → Bool
is_repeat_all Repeat.repeat_all = true
is_repeat_all _ = false

-- ===== src/Player/Timeline.antt =====
-- The position of a stream (backend/bl_haos/ha/player.py: get_timeline and the functions that start,
-- pause and resume a timeline). Times are milliseconds.
pub mod Laws
use bl_haos_bridge.Prelude.{ℕ, ◌+◌, ◌-◌, min, Option, none, some}
use bl_haos_bridge.Dict.{Text}
use bl_haos_bridge.Health.{or_text}

-- An entry of `timelines`.
pub record Timeline : Type 0 where
  pub position : ℕ
  pub clock_started_at : Option ℕ
  pub duration : Option ℕ
  pub url : Text
  pub title : Option Text
  pub artist : Option Text

-- What `get_timeline` returns. Without an entry nothing is known.
pub record Envelope : Type 0 where
  pub position : Option ℕ
  pub duration : Option ℕ
  pub position_updated_at : Option ℕ
  pub title : Option Text
  pub artist : Option Text

abbrev running_since : ℕ → ℕ → Option ℕ → ℕ
running_since now position none = position
running_since now position (some started) = position + now - started

-- The time of playing, without what was spent paused; below zero it is zero.
pub timeline_position : ℕ → Timeline → ℕ
timeline_position now e = running_since now e.position e.clock_started_at

-- `display` is `_text` and `from_url` is `_title_from_url`, which quote and bound what is shown.
unfoldable pub start_timeline :
    (Option Text → Option Text) → (Text → Option Text) → ℕ → Text → Option Text → Timeline
start_timeline display from_url now url title = record {
  position = 0;
  clock_started_at = some now;
  duration = none;
  url = url;
  title = or_text (display title) (from_url url);
  artist = none;
}

abbrev paused_at : ℕ → Option ℕ → Timeline → Timeline
paused_at now none e = e
paused_at now (some started) e = record e {
  position = timeline_position now e;
  clock_started_at = none;
}

pub pause_timeline : ℕ → Timeline → Timeline
unfolding timeline_position
pause_timeline now e = paused_at now e.clock_started_at e

abbrev resumed_at : ℕ → Option ℕ → Timeline → Timeline
resumed_at now none e = record e { clock_started_at = some now }
resumed_at now (some started) e = e

pub resume_timeline : ℕ → Timeline → Timeline
resume_timeline now e = resumed_at now e.clock_started_at e

-- A position never exceeds a duration that is known.
abbrev capped : Option ℕ → ℕ → ℕ
capped none position = position
capped (some duration) position = min position duration

unfoldable pub get_timeline : (Option Text → Option Text) → ℕ → Option Timeline → Envelope
unfolding timeline_position
get_timeline display now none = record {
  position = none;
  duration = none;
  position_updated_at = none;
  title = none;
  artist = none;
}
get_timeline display now (some e) = record {
  position = some (capped e.duration (timeline_position now e));
  duration = e.duration;
  position_updated_at = some now;
  title = display e.title;
  artist = display e.artist;
}

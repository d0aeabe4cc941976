-- ===== src/Tests/Timeline.antt =====
-- Runs of the timeline of a stream (backend/bl_haos/ha/player.py).
use bl_haos_bridge.Prelude.{ℕ, ◌≡◌, refl, arith, true, List, [], ◌∷◌, Option, none, some}
use bl_haos_bridge.Dict.{Text}
use bl_haos_bridge.Text.{codes}
use bl_haos_bridge.Player.Timeline.{Timeline, start_timeline, timeline_position, get_timeline}
use bl_haos_bridge.Player.Timeline.Laws.{
  Control, pauses, resumes, run, time_played, start_timeline-time_played,
}

abbrev display : Option Text → Option Text
display t = t

abbrev from_url : Text → Option Text
from_url url = some (codes "song")

abbrev url : Text
url = codes "http://h/song.mp3"

-- Paused from 5 s to 65 s.
abbrev controls : List (ℕ × Control)
controls = (5000, pauses) ∷ (65000, resumes) ∷ []

abbrev known : Timeline
known = record (start_timeline display from_url 0 url none) { duration = some 3000 }

capped_position : (get_timeline display 4000 (some known)).position ≡ some 3000
unfolding get_timeline start_timeline
capped_position = refl

start_timeline-time_played_example :
    timeline_position 70000 (run controls (start_timeline display from_url 0 url none))
    ≡ time_played true 0 70000 controls
start_timeline-time_played_example =
    start_timeline-time_played display from_url url none 0 70000 controls
      (omega arith, (omega arith, omega arith))

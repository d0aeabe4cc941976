-- ===== src/Player/Timeline/Laws.antt =====
-- The position that is shown is the time that was spent playing
-- (backend/bl_haos/ha/player.py: _timeline_position, _pause_timeline, _resume_timeline).
use bl_haos_bridge.Prelude.{
  ℕ, ◌+◌, ◌-◌, ◌≤◌, ◌≡◌, refl, arith, Bool, true, false, List, [], ◌∷◌, if◌then◌else◌, Option, none,
  some,
}
use bl_haos_bridge.Dict.{Text}
use bl_haos_bridge.Player.Timeline.{
  Timeline, timeline_position, start_timeline, pause_timeline, resume_timeline,
}

pub data Control : Type 0 where
  pauses resumes : Control

abbrev pub controlled : ℕ → Control → Timeline → Timeline
controlled now pauses e = pause_timeline now e
controlled now resumes e = resume_timeline now e

-- Controls at their times, in order.
pub run : List (ℕ × Control) → Timeline → Timeline
run [] e = e
run ((t, c) ∷ controls) e = run controls (controlled t c e)

abbrev pub plays_after : Control → Bool
plays_after pauses = false
plays_after resumes = true

-- The sum of the stretches from `since` to `now` in which the stream plays.
pub time_played : Bool → ℕ → ℕ → List (ℕ × Control) → ℕ
time_played playing since now [] = if playing then now - since else 0
time_played playing since now ((t, c) ∷ controls) =
    (if playing then t - since else 0) + time_played (plays_after c) t now controls

-- The times do not run back.
abbrev pub IsOrdered : ℕ → ℕ → List (ℕ × Control) → Type 0
IsOrdered since now [] = since ≤ now
IsOrdered since now ((t, c) ∷ controls) = (since ≤ t) × IsOrdered t now controls

-- A running timeline counts from `started`; a paused one has its position.
mutual
  unfolding run time_played timeline_position pause_timeline resume_timeline

  run-running :
      (controls : List (ℕ × Control)) (since now started : ℕ) (e : Timeline)
      → e.clock_started_at ≡ some started
      → started ≤ since
      → IsOrdered since now controls
      → timeline_position now (run controls e)
        ≡ e.position + (since - started) + time_played true since now controls
  run-running [] since now started e h o v = ground arith
  run-running ((t, pauses) ∷ controls) since now started e h o v =
      ground (arith, run-paused controls t now (pause_timeline t e) (ground arith) v.1)
  run-running ((t, resumes) ∷ controls) since now started e h o v = ground (
    arith,
    run-running controls t now started (resume_timeline t e) (ground arith) (omega arith) v.1,
  )

  run-paused :
      (controls : List (ℕ × Control)) (since now : ℕ) (e : Timeline)
      → e.clock_started_at ≡ none
      → IsOrdered since now controls
      → timeline_position now (run controls e) ≡ e.position + time_played false since now controls
  run-paused [] since now e h v = ground arith
  run-paused ((t, pauses) ∷ controls) since now e h v =
      ground (arith, run-paused controls t now (pause_timeline t e) (ground arith) v.1)
  run-paused ((t, resumes) ∷ controls) since now e h v =
      ground
        (arith, run-running controls t now t (resume_timeline t e) (ground arith) (omega arith) v.1)

-- After a stream was started, paused and resumed any number of times in the order of time, the
-- position of its timeline is the sum of the times that it played.
pub start_timeline-time_played :
    (display : Option Text → Option Text) (from_url : Text → Option Text) (url : Text)
    (title : Option Text) (start now : ℕ) (controls : List (ℕ × Control))
    → IsOrdered start now controls
    → timeline_position now (run controls (start_timeline display from_url start url title))
      ≡ time_played true start now controls
unfolding start_timeline
start_timeline-time_played display from_url url title start now controls v = omega (
  arith,
  run-running controls start now start (start_timeline display from_url start url title) refl
      (omega arith) v,
)

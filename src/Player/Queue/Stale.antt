-- ===== src/Player/Queue/Stale.antt =====
-- What comes too late (backend/bl_haos/ha/player.py: the playback generations).
use bl_haos_bridge.Prelude.{
  ℕ, suc, ◌≤◌, ◌≡◌, refl, Bool, false, List, Option, none, some, arith, ◌==◌,
}
use bl_haos_bridge.Dict.{Text}
use bl_haos_bridge.Player.Model.{PlaybackQueueItem, PlaybackSession, Speaker}
use bl_haos_bridge.Player.Queue.{
  Pending, invalidate_playback_session, without_session, start_queue_locked, control_queue_locked,
  watch_processes,
}

without_session-generation :
    (o : Option PlaybackSession) (p : Speaker) → (without_session o p).generation ≡ p.generation
without_session-generation none p = refl
without_session-generation (some s) p = refl

pub invalidated-stale :
    (p : Speaker) (g : ℕ)
    → g ≤ p.generation
    → ((invalidate_playback_session p).generation == g) ≡ false
unfolding invalidate_playback_session
invalidated-stale p g h =
    ground
      (arith, without_session-generation p.session (record p { generation = suc p.generation }))

invalidated-session :
    (o : Option PlaybackSession) (p : Speaker)
    → p.session ≡ o
    → (without_session o p).session ≡ none
invalidated-session none p h = h
invalidated-session (some s) p h = refl

-- Once the session of a speaker is invalidated, what was decided before comes to nothing: an
-- ended stream of an earlier generation, a queue that was accepted for one, and any pending
-- queue control leave the speaker as it is.
pub invalidated-ignores :
    (p : Speaker) (g processes identity : ℕ) (natural : Bool) (started : Option ℕ) (playlist : Text)
    (items : List PlaybackQueueItem) (pending : Pending)
    (rng : List PlaybackQueueItem → List PlaybackQueueItem)
    → g ≤ p.generation
    → let q = invalidate_playback_session p in
      (watch_processes processes g natural started q ≡ some q)
      × (start_queue_locked identity g playlist items started q ≡ some q)
      × (control_queue_locked pending rng started q ≡ some q)
unfolding watch_processes start_queue_locked control_queue_locked
invalidated-ignores p g processes identity natural started playlist items pending rng h =
    let stale = invalidated-stale p g h in
    let gone : (invalidate_playback_session p).session ≡ none =
      unfold invalidate_playback_session in
      invalidated-session p.session (record p { generation = suc p.generation }) refl in
    (ground (arith, stale), rw stale refl, rw gone refl)

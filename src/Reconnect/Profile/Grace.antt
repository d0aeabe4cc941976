-- ===== src/Reconnect/Profile/Grace.antt =====
-- The grace window of a dropout (backend/bl_haos/bluetooth/reconnect.py).
use bl_haos_bridge.Prelude.{
  ℕ, ◌+◌, ◌≤◌, ◌<◌, ◌≡◌, refl, Bool, true, false, ◌||◌, List, [], ◌∷◌, none, some, arith, All,
}
use bl_haos_bridge.Text.{codes}
use bl_haos_bridge.Reconnect.Model.{
  Config, Time, SpeakerReconnectProfile, ReconnectState, flap, is_settled, disconnect_grace,
}
use bl_haos_bridge.Reconnect.Delay.{calculate_backoff_delay}
use bl_haos_bridge.Reconnect.Profile.{link_up, link_down, record_flap, tick_profile}

-- Ticks with their jitter and time; the flag says whether any of them was due for an attempt.
pub ticks : Config → List (ℕ × Time) → SpeakerReconnectProfile → SpeakerReconnectProfile × Bool
ticks c [] p = (p, false)
ticks c ((jitter, now) ∷ ts) p =
    let (q, notes, due) = tick_profile c jitter now p in
    let (r, later) = ticks c ts q in (r, due || later)

tick-inside :
    (c : Config) (jitter : ℕ) (now t : Time) (p : SpeakerReconnectProfile)
    → is_settled p.state ≡ true
    → p.disconnected_since ≡ some t
    → now < t + disconnect_grace
    → tick_profile c jitter now p ≡ (p, [], false)
unfolding tick_profile
tick-inside c jitter now t p s d h = ground arith

ticks-inside :
    (c : Config) (t : Time) (ts : List (ℕ × Time)) (p : SpeakerReconnectProfile)
    → is_settled p.state ≡ true
    → p.disconnected_since ≡ some t
    → All (λ e. e.1 < t + disconnect_grace) ts
    → ticks c ts p ≡ (p, false)
unfolding ticks
ticks-inside c t [] p s d h = refl
ticks-inside c t ((jitter, now) ∷ ts) p s d h =
    rw (tick-inside c jitter now t p s d h.0, ticks-inside c t ts p s d h.1) refl

-- A speaker that is up drops and comes back, with any number of ticks inside the grace window
-- in between: no attempt is due, no dropout is remembered, no cooldown starts, the flap is
-- counted and noted, and the speaker has been connected since before.
pub grace_window :
    (c : Config) (t : Time) (ts : List (ℕ × Time)) (back : Time) (p : SpeakerReconnectProfile)
    → p.state ≡ ReconnectState.connected
    → p.disconnected_since ≡ none
    → All (λ e. e.1 < t + disconnect_grace) ts
    → let (q, due) = ticks c ts (link_down t p).0 in
      let (r, notes) = link_up back q in
      (due ≡ false)
      × (r.state ≡ ReconnectState.connected)
      × (r.connected_at ≡ p.connected_at)
      × (r.flap_times ≡ p.flap_times)
      × (r.cooldown_until ≡ p.cooldown_until)
      × (r.suppressed_flaps ≡ p.suppressed_flaps + 1)
      × (notes ≡ flap (codes "reconnected inside the grace window") ∷ [])
grace_window c t ts back p s d h =
    rw (down, ticks-inside c t ts (record p { disconnected_since = some t }) settled refl h)
      (unfold link_up in ground arith)
  where
    down : (link_down t p).0 ≡ record p { disconnected_since = some t }
    down = unfold link_down in ground arith

    settled : is_settled p.state ≡ true
    settled = ground arith

-- A dropout that has outlasted the window is acted on at the next tick of an enabled profile
-- with a closed circuit: the backoff is armed, and the retry waits for the delay.
pub tick_profile-survived :
    (c : Config) (jitter : ℕ) (now t : Time) (p : SpeakerReconnectProfile)
    → p.enabled ≡ true
    → is_settled p.state ≡ true
    → p.circuit_broken_until ≤ now
    → p.disconnected_since ≡ some t
    → t + disconnect_grace ≤ now
    → let q = (tick_profile c jitter now p).0 in
      (q.state ≡ ReconnectState.backoff)
      × (q.disconnected_since ≡ none)
      × (now + calculate_backoff_delay c jitter p.backoff_step ≤ q.next_retry_time)
unfolding tick_profile record_flap
tick_profile-survived c jitter now t p e s b d h = ground arith

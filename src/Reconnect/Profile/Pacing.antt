-- ===== src/Reconnect/Profile/Pacing.antt =====
-- When the reconnect loop acts (backend/bl_haos/bluetooth/reconnect.py): the grace window, the
-- retry deadlines and the circuit breaker.
use bl_haos_bridge.Prelude.{
  ℕ, ◌+◌, ◌-◌, ◌≤◌, ◌<◌, min, ◌≡◌, ◌⊎◌, refl, true, false, List, [], ◌∷◌, arith, length, leb,
  if◌then◌else◌,
}
use bl_haos_bridge.Reconnect.Model.{
  Config, Time, SpeakerReconnectProfile, ReconnectState, disconnect_grace, post_connect_settle,
}
use bl_haos_bridge.Reconnect.Delay.{calculate_backoff_delay}
use bl_haos_bridge.Reconnect.Delay.Laws.{within_cap, delay_floor}
use bl_haos_bridge.Reconnect.Profile.{
  link_down, record_flap, defer_busy_connection, begin_attempt, attempt_cancelled, attempt_failed,
  tick_profile, since, has_dropped,
}

-- An attempt is due only for an enabled profile in backoff whose circuit, retry, cooldown and
-- settle times have all passed; and a dropout that was acted on in this tick has outlasted the
-- grace window.
pub tick_profile-due :
    (c : Config) (jitter : ℕ) (now : Time) (p : SpeakerReconnectProfile)
    → (tick_profile c jitter now p).2 ≡ true
    → let q = (tick_profile c jitter now p).0 in
      (p.enabled ≡ true)
      × (q.state ≡ ReconnectState.backoff)
      × (p.circuit_broken_until ≤ now)
      × (q.next_retry_time ≤ now)
      × (q.cooldown_until ≤ now)
      × (post_connect_settle ≤ now - q.connected_at)
      × ((has_dropped p ≡ false) ⊎ (disconnect_grace ≤ now - since p.disconnected_since))
unfolding tick_profile
tick_profile-due c jitter now p h = ground arith

-- With a positive delay, a tick that acts on a dropout starts no attempt itself.
pub tick_profile-arms :
    (c : Config) (jitter : ℕ) (now : Time) (p : SpeakerReconnectProfile)
    → has_dropped p ≡ true
    → 0 < min (delay_floor c) c.max_backoff
    → (tick_profile c jitter now p).2 ≡ false
unfolding tick_profile record_flap
tick_profile-arms c jitter now p h positive = ground (arith, within_cap c jitter p.backoff_step)

-- What may happen to a profile while its link stays down.
pub data Down : Type 0 where
  drop : Down
  tick start : Down
  fail busy cancel : Down

unfoldable pub down : Config → ℕ → Time → Down → SpeakerReconnectProfile → SpeakerReconnectProfile
down c jitter now drop p = (link_down now p).0
down c jitter now tick p = (tick_profile c jitter now p).0
down c jitter now start p = (begin_attempt p).0
down c jitter now fail p = (attempt_failed c jitter now p).0
down c jitter now busy p = (defer_busy_connection c jitter now p).0
down c jitter now cancel p = (attempt_cancelled c jitter now p).0

-- Nothing that happens while the link is down brings a retry deadline forward, closes an open
-- circuit earlier, or forgives a failure.
down-keeps :
    (c : Config) (jitter : ℕ) (now : Time) (e : Down) (p : SpeakerReconnectProfile)
    → let q = down c jitter now e p in
      (p.next_retry_time ≤ q.next_retry_time)
      × (p.circuit_broken_until ≤ q.circuit_broken_until)
      × (p.consecutive_failures ≤ q.consecutive_failures)
unfolding down link_down tick_profile begin_attempt attempt_failed defer_busy_connection
    attempt_cancelled record_flap
down-keeps c jitter now drop p = ground arith
down-keeps c jitter now _ p = ground arith

-- Events with their jitter and time, oldest first.
unfoldable pub down_all :
    Config → List (ℕ × Time × Down) → SpeakerReconnectProfile → SpeakerReconnectProfile
down_all c [] p = p
down_all c ((jitter, now, e) ∷ es) p = down_all c es (down c jitter now e p)

down_all-keeps :
    (c : Config) (es : List (ℕ × Time × Down)) (p : SpeakerReconnectProfile)
    → let q = down_all c es p in
      (p.next_retry_time ≤ q.next_retry_time) × (p.circuit_broken_until ≤ q.circuit_broken_until)
unfolding down_all
down_all-keeps c [] p = (omega arith, omega arith)
down_all-keeps c ((jitter, now, e) ∷ es) p =
    omega (arith, down-keeps c jitter now e p, down_all-keeps c es (down c jitter now e p))

-- A tick keeps the deadlines, so one that is due is due by the deadlines before it.
tick_due-deadline :
    (c : Config) (jitter : ℕ) (now : Time) (p : SpeakerReconnectProfile)
    → (tick_profile c jitter now p).2 ≡ true
    → (p.next_retry_time ≤ now) × (p.circuit_broken_until ≤ now)
unfolding tick_profile record_flap
tick_due-deadline c jitter now p h = ground arith

module _ (c : Config) (jitter : ℕ) (failed_at : Time) (p : SpeakerReconnectProfile)
    (es : List (ℕ × Time × Down)) (jitter' : ℕ) (now : Time) where
  -- After a failed attempt, and whatever else happens while the link stays down, no attempt is
  -- due before the delay of the next backoff step is over.
  pub failed-paces :
      (tick_profile c jitter' now (down_all c es (attempt_failed c jitter failed_at p).0)).2 ≡ true
      → failed_at + calculate_backoff_delay c jitter (p.backoff_step + 1) ≤ now
  failed-paces h = omega (
    arith,
    tick_due-deadline c jitter' now (down_all c es (attempt_failed c jitter failed_at p).0) h,
    down_all-keeps c es (attempt_failed c jitter failed_at p).0,
    deadline,
  )
    where
      deadline :
          failed_at + calculate_backoff_delay c jitter (p.backoff_step + 1)
          ≤ (attempt_failed c jitter failed_at p).0.next_retry_time
      deadline = unfold attempt_failed in ground arith

  -- Once a failed attempt makes the failures reach the limit, and whatever else happens while
  -- the link stays down, no attempt is due before the cooldown of the breaker is over.
  pub failed-breaks :
      c.max_failures ≤ p.consecutive_failures + 1
      → (tick_profile c jitter' now (down_all c es (attempt_failed c jitter failed_at p).0)).2
        ≡ true
      → failed_at + c.breaker_cooldown ≤ now
  failed-breaks limit h = omega (
    arith,
    tick_due-deadline c jitter' now (down_all c es (attempt_failed c jitter failed_at p).0) h,
    down_all-keeps c es (attempt_failed c jitter failed_at p).0,
    deadline,
  )
    where
      deadline :
          failed_at + c.breaker_cooldown
          ≤ (attempt_failed c jitter failed_at p).0.circuit_broken_until
      deadline = unfold attempt_failed in ground arith

  -- After a busy answer, and whatever else happens while the link stays down, no attempt is due
  -- before the delay of the same step and the settle time are over: a connection in progress is
  -- left to settle, and counts as no failure.
  pub busy-paces :
      (tick_profile c jitter' now (down_all c es (defer_busy_connection c jitter failed_at p).0)).2
        ≡ true
      → (failed_at + calculate_backoff_delay c jitter p.backoff_step ≤ now)
        × (failed_at + post_connect_settle ≤ now)
        × ((defer_busy_connection c jitter failed_at p).0.consecutive_failures
            ≡ p.consecutive_failures)
  busy-paces h =
      let due =
        tick_due-deadline c jitter' now
          (down_all c es (defer_busy_connection c jitter failed_at p).0) h in
      let kept = down_all-keeps c es (defer_busy_connection c jitter failed_at p).0 in
      (
        omega (arith, due, kept, deadline),
        omega (arith, due, kept, deadline),
        unfold defer_busy_connection in refl,
      )
    where
      deadline :
          (failed_at + calculate_backoff_delay c jitter p.backoff_step
            ≤ (defer_busy_connection c jitter failed_at p).0.next_retry_time)
          × (failed_at + post_connect_settle
              ≤ (defer_busy_connection c jitter failed_at p).0.next_retry_time)
      deadline = unfold defer_busy_connection in (omega arith, omega arith)

-- Attempts that start and fail one after the other, each with its jitter and time.
pub fail_run : Config → List (ℕ × Time) → SpeakerReconnectProfile → SpeakerReconnectProfile
fail_run c [] p = p
fail_run c ((jitter, now) ∷ es) p =
    fail_run c es (attempt_failed c jitter now (begin_attempt p).0).0

-- The circuit opens with exactly the failure that reaches the limit: after one or more attempts
-- that start and fail in a row the failures are counted one by one, and the state is
-- `circuit_broken` if the count has reached the limit, and `backoff` before.
pub fail_run-breaks :
    (c : Config) (jitter : ℕ) (now : Time) (es : List (ℕ × Time)) (p : SpeakerReconnectProfile)
    → let q = fail_run c ((jitter, now) ∷ es) p in
      (q.consecutive_failures ≡ p.consecutive_failures + 1 + length es)
      × (q.state ≡ (
          if leb c.max_failures (p.consecutive_failures + 1 + length es)
          then ReconnectState.circuit_broken
          else ReconnectState.backoff))
unfolding fail_run attempt_failed begin_attempt
fail_run-breaks c jitter now [] p = ground arith
fail_run-breaks c jitter now ((j, t) ∷ es) p =
    ground (arith, fail_run-breaks c j t es (attempt_failed c jitter now (begin_attempt p).0).0)

-- ===== src/Reconnect/Profile/Laws.antt =====
-- The invariant of a reconnect profile (backend/bl_haos/bluetooth/reconnect.py).
use bl_haos_bridge.Prelude.{Bool, Option, ℕ, ◌≤◌, ◌<◌, ◌≡◌, true, arith, length}
use bl_haos_bridge.Dict.{Text}
use bl_haos_bridge.Reconnect.Model.{
  new_profile, Config, Time, SpeakerReconnectProfile, is_settled, is_circuit_broken, flap_limit,
}
use bl_haos_bridge.Reconnect.Profile.{
  link_up, link_down, arm_backoff, defer_busy_connection, begin_attempt, attempt_succeeded,
  attempt_cancelled, attempt_failed, tick_profile,
}

-- The backoff step counts the failures in a row; a speaker that is up or was never tried has no
-- failure and no deadline; an open circuit follows on enough failures and holds the next retry; and
-- fewer dropouts than the limit are remembered.
pub record IsSound (c : Config) (p : SpeakerReconnectProfile) : Type 0 where
  pub step : p.backoff_step ≡ p.consecutive_failures
  pub settled : is_settled p.state ≡ true → p.consecutive_failures ≡ 0
  pub unbound : is_settled p.state ≡ true → p.next_retry_time ≡ 0
  pub closed : is_settled p.state ≡ true → p.circuit_broken_until ≡ 0
  pub broken : is_circuit_broken p.state ≡ true → c.max_failures ≤ p.consecutive_failures
  pub held : p.circuit_broken_until ≤ p.next_retry_time
  pub flaps : length p.flap_times < flap_limit

module _ (c : Config) (p : SpeakerReconnectProfile) (v : IsSound c p) where
  pub link_up-IsSound : (now : Time) → IsSound c (link_up now p).0
  unfolding link_up
  link_up-IsSound now = ground (arith, v.step, v.flaps)

  pub link_down-IsSound : (now : Time) → IsSound c (link_down now p).0
  unfolding link_down
  link_down-IsSound now = ground (arith, v.step, v.flaps)

  pub arm_backoff-IsSound : (jitter : ℕ) (now : Time) → IsSound c (arm_backoff c jitter now p).0
  unfolding arm_backoff
  arm_backoff-IsSound jitter now = ground (arith, v.step, v.flaps)

  pub defer_busy_connection-IsSound :
      (jitter : ℕ) (now : Time) → IsSound c (defer_busy_connection c jitter now p).0
  unfolding defer_busy_connection
  defer_busy_connection-IsSound jitter now = ground (arith, v.step, v.flaps)

  pub begin_attempt-IsSound : IsSound c (begin_attempt p).0
  unfolding begin_attempt
  begin_attempt-IsSound = ground (arith, v.step, v.flaps)

  pub attempt_succeeded-IsSound : (now : Time) → IsSound c (attempt_succeeded now p).0
  unfolding attempt_succeeded
  attempt_succeeded-IsSound now = ground (arith, v.step, v.flaps)

  pub attempt_cancelled-IsSound :
      (jitter : ℕ) (now : Time) → IsSound c (attempt_cancelled c jitter now p).0
  unfolding attempt_cancelled
  attempt_cancelled-IsSound jitter now = ground (arith, v.step, v.flaps)

  pub attempt_failed-IsSound :
      (jitter : ℕ) (now : Time) → IsSound c (attempt_failed c jitter now p).0
  unfolding attempt_failed
  attempt_failed-IsSound jitter now = ground (arith, v.step, v.flaps)

  pub tick_profile-IsSound : (jitter : ℕ) (now : Time) → IsSound c (tick_profile c jitter now p).0
  unfolding tick_profile
  tick_profile-IsSound jitter now = ground (arith, v.step, v.flaps)

pub new_profile-IsSound :
    (c : Config) (identity : ℕ) (address : Text) (enabled : Bool) (adapter : Option Text)
    → IsSound c (new_profile identity address enabled adapter)
new_profile-IsSound c identity address enabled adapter = ground arith

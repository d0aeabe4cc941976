-- ===== src/Reconnect/Profile.antt =====
-- What each event does to the profile of a speaker (backend/bl_haos/bluetooth/reconnect.py). Every
-- function returns the profile and what it tells the health registry, in order.
pub mod Laws
pub mod Pacing
pub mod Grace
use bl_haos_bridge.Prelude.{
  ℕ, ◌+◌, ◌-◌, max, Bool, true, false, not, ◌&&◌, ◌||◌, List, [], ◌∷◌, ◌++◌, Option, none, some,
  is_some, leb, ltb, if◌then◌else◌, select, length,
}
use bl_haos_bridge.Dict.{Text}
use bl_haos_bridge.Text.{codes}
use bl_haos_bridge.Health.Model.{SpeakerState, FailureClass}
use bl_haos_bridge.Reconnect.Model.{
  Config, Time, ReconnectState, SpeakerReconnectProfile, HealthNote, flap, observe, is_settled,
  is_connected, is_backoff, is_circuit_broken, disconnect_grace, post_connect_settle, flap_window,
  flap_limit, flap_cooldown,
}
use bl_haos_bridge.Reconnect.Delay.{calculate_backoff_delay}

abbrev pub Noted : Type 0
Noted = SpeakerReconnectProfile × List HealthNote

-- `_on_device_event` for a device that reports itself connected.
unfoldable pub link_up : Time → SpeakerReconnectProfile → Noted
link_up now p = (
  record p {
    state = ReconnectState.connected;
    consecutive_failures = 0;
    backoff_step = 0;
    next_retry_time = 0;
    circuit_broken_until = 0;
    disconnected_since = none;
    suppressed_flaps = p.suppressed_flaps + (if is_some p.disconnected_since then 1 else 0);
    connected_at = if is_connected p.state then p.connected_at else now;
  },
  (if is_some p.disconnected_since
        then flap (codes "reconnected inside the grace window") ∷ []
        else [])
      ++ (if is_connected p.state then [] else observe SpeakerState.connected none none 0 ∷ []),
)

-- `_on_device_event` for a device that reports itself disconnected.
unfoldable pub link_down : Time → SpeakerReconnectProfile → Noted
link_down now p = (
  (if not (is_some p.disconnected_since) && is_settled p.state
      then record p { disconnected_since = some now }
      else p),
  [],
)

unfoldable pub record_flap : Time → SpeakerReconnectProfile → Noted
record_flap now p =
    let times = select (λ seen. leb (now - seen) flap_window) p.flap_times ++ now ∷ [] in
    if ltb (length times) flap_limit then (record p { flap_times = times }, []) else (
      record p { flap_times = []; cooldown_until = now + flap_cooldown },
      flap (codes "flap limit reached; holding reconnects") ∷ [],
    )

pub arm_backoff : Config → ℕ → Time → SpeakerReconnectProfile → Noted
unfolding record_flap
arm_backoff c jitter now p =
    let (q, notes) = record_flap now p in
    let wait = calculate_backoff_delay c jitter q.backoff_step in
    let delay = if ltb now q.cooldown_until then max wait (q.cooldown_until - now) else wait in
    (
      record q {
        disconnected_since = none;
        state = ReconnectState.backoff;
        next_retry_time = max (max q.next_retry_time (now + delay)) q.circuit_broken_until;
      },
      notes ++ observe SpeakerState.disconnected none none 0 ∷ [],
    )

unfoldable pub defer_busy_connection : Config → ℕ → Time → SpeakerReconnectProfile → Noted
defer_busy_connection c jitter now p = (
  record p {
    disconnected_since = none;
    state = ReconnectState.backoff;
    next_retry_time =
        max
          (max
            (max (max p.next_retry_time (now + calculate_backoff_delay c jitter p.backoff_step))
              (now + post_connect_settle))
            p.cooldown_until)
          p.circuit_broken_until;
  },
  [],
)

-- The start of `_attempt_reconnect`, past its guard.
unfoldable pub begin_attempt : SpeakerReconnectProfile → Noted
begin_attempt p = (
  record p { state = ReconnectState.reconnecting },
  observe SpeakerState.reconnecting none none (p.consecutive_failures + 1) ∷ [],
)

-- The branches behind `connect_device`: it returned, was cancelled, or failed. A busy answer is
-- `defer_busy_connection`.
unfoldable pub attempt_succeeded : Time → SpeakerReconnectProfile → Noted
attempt_succeeded now p = (
  record p {
    state = ReconnectState.connected;
    connected_at = now;
    disconnected_since = none;
    consecutive_failures = 0;
    backoff_step = 0;
    next_retry_time = 0;
    circuit_broken_until = 0;
  },
  observe SpeakerState.connected none none 0 ∷ [],
)

abbrev pub retry_at : Config → ℕ → Time → SpeakerReconnectProfile → Time
retry_at c jitter now p =
    max
      (max (max p.next_retry_time (now + calculate_backoff_delay c jitter p.backoff_step))
        p.cooldown_until)
      p.circuit_broken_until

unfoldable pub attempt_cancelled : Config → ℕ → Time → SpeakerReconnectProfile → Noted
attempt_cancelled c jitter now p =
    (record p { state = ReconnectState.backoff; next_retry_time = retry_at c jitter now p }, [])

-- One more failure, and the state that it leads to.
abbrev pub counted_failure : Config → Time → SpeakerReconnectProfile → Noted
counted_failure c now p =
    let failures = p.consecutive_failures + 1 in
    let q = record p { consecutive_failures = failures; backoff_step = p.backoff_step + 1 } in
    if leb c.max_failures failures
    then (
      record q {
        state = ReconnectState.circuit_broken;
        circuit_broken_until = max p.circuit_broken_until (now + c.breaker_cooldown);
      },
      observe SpeakerState.unavailable (some FailureClass.reconnect_exhausted)
            (some (codes "Reconnect attempts exhausted")) failures
          ∷ [],
    )
    else (
      record q { state = ReconnectState.backoff },
      observe SpeakerState.reconnecting none none failures ∷ [],
    )

unfoldable pub attempt_failed : Config → ℕ → Time → SpeakerReconnectProfile → Noted
attempt_failed c jitter now p =
    let (q, notes) = counted_failure c now p in
    (record q { next_retry_time = retry_at c jitter now q }, notes)

abbrev pub since : Option Time → Time
since none = 0
since (some t) = t

abbrev pub is_due : Time → SpeakerReconnectProfile → Bool
is_due now q =
    is_backoff q.state
    && leb q.next_retry_time now
    && leb q.cooldown_until now
    && leb post_connect_settle (now - q.connected_at)

-- `now < circuit_broken_until` has passed: a broken circuit is allowed one probe.
abbrev pub probed : SpeakerReconnectProfile → SpeakerReconnectProfile
probed p = if is_circuit_broken p.state then record p { state = ReconnectState.backoff } else p

-- A dropout that has been noticed and not acted on.
abbrev pub has_dropped : SpeakerReconnectProfile → Bool
has_dropped p = is_some p.disconnected_since && is_settled p.state

-- The body of `_tick` for one profile. The flag says that an attempt is due.
unfoldable pub tick_profile :
    Config → ℕ → Time → SpeakerReconnectProfile → SpeakerReconnectProfile × List HealthNote × Bool
unfolding arm_backoff
tick_profile c jitter now p =
    if not p.enabled || ltb now p.circuit_broken_until
    then (p, [], false)
    else if has_dropped (probed p) && ltb (now - since p.disconnected_since) disconnect_grace
    then (probed p, [], false)
    else let (q, notes) =
        if has_dropped (probed p) then arm_backoff c jitter now (probed p) else (probed p, []) in
      (q, notes, is_due now q)

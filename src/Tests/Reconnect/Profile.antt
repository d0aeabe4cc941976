-- ===== src/Tests/Reconnect/Profile.antt =====
-- Runs of the delays and of one profile (backend/bl_haos/bluetooth/reconnect.py).
use bl_haos_bridge.Prelude.{
  ℕ, ◌+◌, ◌*◌, ◌/◌, ◌≤◌, ◌<◌, min, ◌≡◌, refl, true, false, List, [], ◌∷◌, arith, leb, if◌then◌else◌,
}
use bl_haos_bridge.Text.{codes}
use bl_haos_bridge.Reconnect.Model.{
  ReconnectState, default_config, Config, Time, millionths, backoff_jitter, flap,
}
use bl_haos_bridge.Reconnect.Delay.{calculate_backoff_delay}
use bl_haos_bridge.Reconnect.Delay.Laws.{delay_floor, calculate_backoff_delay_bounds}
use bl_haos_bridge.Reconnect.Profile.{
  tick_profile, attempt_failed, defer_busy_connection, link_up, link_down,
}
use bl_haos_bridge.Reconnect.Profile.Pacing.{
  failed-paces, fail_run-breaks, fail_run, down, Down, down_all,
}
use bl_haos_bridge.Reconnect.Profile.Grace.{ticks, grace_window}
use bl_haos_bridge.Tests.Reconnect.{playing, waiting}

delay_doubles : calculate_backoff_delay default_config 0 3 ≡ 80000
unfolding calculate_backoff_delay
delay_doubles = refl

delay_capped : calculate_backoff_delay default_config 150000 9 ≡ 120000
unfolding calculate_backoff_delay
delay_capped = refl

waiting_due : (tick_profile default_config 0 230000 waiting).2 ≡ true
unfolding tick_profile
waiting_due = refl

calculate_backoff_delay_bounds_example :
    (min (delay_floor default_config) default_config.max_backoff
      ≤ calculate_backoff_delay default_config 100000 2)
    × (calculate_backoff_delay default_config 100000 2 ≤ default_config.max_backoff)
    × (calculate_backoff_delay default_config 0 2 ≤ calculate_backoff_delay default_config 100000 2)
    × (calculate_backoff_delay default_config 100000 2
        ≤ calculate_backoff_delay default_config 0 2
          + calculate_backoff_delay default_config 0 2 * backoff_jitter / millionths)
    × (calculate_backoff_delay default_config 0 0
        ≡ min default_config.max_backoff default_config.initial_backoff)
calculate_backoff_delay_bounds_example =
    calculate_backoff_delay_bounds default_config 100000 2 (omega arith)

positive_delay : 0 < min (delay_floor default_config) default_config.max_backoff
positive_delay = omega arith

abbrev between : List (ℕ × Time × Down)
between = (0, 240000, Down.drop) ∷ (0, 250000, Down.tick) ∷ []

due_after_failure :
    (tick_profile default_config 0 600000
      (down_all default_config between (attempt_failed default_config 0 230000 waiting).0)).2
    ≡ true
unfolding tick_profile down_all down link_down attempt_failed calculate_backoff_delay
due_after_failure = refl

failed-paces_example : 230000 + calculate_backoff_delay default_config 0 1 ≤ 600000
failed-paces_example =
    failed-paces default_config 0 230000 waiting between 0 600000 due_after_failure

abbrev strict : Config
strict = record default_config { max_failures = 1 }

due_after_break :
    (tick_profile strict 0 600000
      (down_all strict between (attempt_failed strict 0 230000 waiting).0)).2
    ≡ true
unfolding tick_profile down_all down link_down attempt_failed calculate_backoff_delay
due_after_break = refl

due_after_busy :
    (tick_profile default_config 0 600000
      (down_all default_config between (defer_busy_connection default_config 0 230000 waiting).0)).2
    ≡ true
unfolding tick_profile down_all down link_down defer_busy_connection calculate_backoff_delay
due_after_busy = refl

fail_run-breaks_example :
    let q = fail_run default_config ((0, 230000) ∷ (0, 260000) ∷ []) waiting in
    (q.consecutive_failures ≡ 0 + 1 + 1)
    × (q.state ≡ (
        if leb default_config.max_failures (0 + 1 + 1)
        then ReconnectState.circuit_broken
        else ReconnectState.backoff))
fail_run-breaks_example = fail_run-breaks default_config 0 230000 ((0, 260000) ∷ []) waiting

abbrev inside : List (ℕ × Time)
inside = (0, 201000) ∷ (0, 203000) ∷ []

grace_window_example :
    let (q, due) = ticks default_config inside (link_down 200000 playing).0 in
    let (r, notes) = link_up 204000 q in
    (due ≡ false)
    × (r.state ≡ ReconnectState.connected)
    × (r.connected_at ≡ playing.connected_at)
    × (r.flap_times ≡ playing.flap_times)
    × (r.cooldown_until ≡ playing.cooldown_until)
    × (r.suppressed_flaps ≡ playing.suppressed_flaps + 1)
    × (notes ≡ flap (codes "reconnected inside the grace window") ∷ [])
grace_window_example =
    grace_window default_config 200000 inside 204000 playing refl refl
      (omega arith, (omega arith, tt))

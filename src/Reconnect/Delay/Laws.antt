-- ===== src/Reconnect/Delay/Laws.antt =====
-- Bounds of the reconnect delay (backend/bl_haos/bluetooth/reconnect.py).
use bl_haos_bridge.Prelude.{ℕ, ◌+◌, ◌*◌, ◌/◌, ◌≤◌, min, max, ◌≡◌, arith}
use bl_haos_bridge.Reconnect.Model.{Config, Time, min_backoff, backoff_jitter, millionths}
use bl_haos_bridge.Reconnect.Delay.{grown_delay, calculate_backoff_delay}

abbrev pub delay_floor : Config → Time
delay_floor c = min min_backoff c.initial_backoff

scaled : (d j k : ℕ) → j ≤ k → (d * (millionths + j) ≡ d * millionths + d * j) × (d * j ≤ d * k)
scaled d j k h = (grind arith, grind arith)

-- A jitter lengthens by its share at most.
lengthened :
    (d j : ℕ)
    → j ≤ backoff_jitter
    → (d ≤ d * (millionths + j) / millionths)
      × (d * (millionths + j) / millionths ≤ d + d * backoff_jitter / millionths)
lengthened d j h =
    let (e, g) = scaled d j backoff_jitter h in (omega (arith, e), omega (arith, e, g))

jitter_share :
    (cap d j : ℕ)
    → j ≤ backoff_jitter
    → (min cap (d * (millionths + 0) / millionths) ≤ min cap (d * (millionths + j) / millionths))
      × (min cap (d * (millionths + j) / millionths)
          ≤ min cap (d * (millionths + 0) / millionths)
            + min cap (d * (millionths + 0) / millionths) * backoff_jitter / millionths)
jitter_share cap d j h =
    let (low, high) = lengthened d j h in
    let same : d * (millionths + 0) / millionths ≡ d = omega arith in
    rw same (omega (arith, low), omega (arith, high))

grown_delay-first : (c : Config) → grown_delay c 0 ≡ min c.max_backoff c.initial_backoff
unfolding grown_delay
grown_delay-first c = ground arith

-- The delay lies between the floor and the cap.
pub within_cap :
    (c : Config) (jitter step : ℕ)
    → (min (delay_floor c) c.max_backoff ≤ calculate_backoff_delay c jitter step)
      × (calculate_backoff_delay c jitter step ≤ c.max_backoff)
unfolding calculate_backoff_delay
within_cap c jitter step = (omega arith, omega arith)

-- Whatever the float arithmetic of the growth gives, and for a jitter up to its bound, the
-- delay lies between the floor (10 s, or the initial delay or the cap if less) and the cap, is
-- not less than without the jitter and at most 15 % more; the first delay without jitter is the
-- initial one, cut at the cap.
pub calculate_backoff_delay_bounds :
    (c : Config) (jitter step : ℕ)
    → jitter ≤ backoff_jitter
    → (min (delay_floor c) c.max_backoff ≤ calculate_backoff_delay c jitter step)
      × (calculate_backoff_delay c jitter step ≤ c.max_backoff)
      × (calculate_backoff_delay c 0 step ≤ calculate_backoff_delay c jitter step)
      × (calculate_backoff_delay c jitter step
          ≤ calculate_backoff_delay c 0 step
            + calculate_backoff_delay c 0 step * backoff_jitter / millionths)
      × (calculate_backoff_delay c 0 0 ≡ min c.max_backoff c.initial_backoff)
unfolding calculate_backoff_delay
calculate_backoff_delay_bounds c jitter step h =
    let (low, high) = within_cap c jitter step in
    let (more, share) =
      jitter_share c.max_backoff (max (delay_floor c) (grown_delay c step)) jitter h in
    (low, high, more, share, omega (arith, grown_delay-first c))

-- ===== src/Reconnect/Delay.antt =====
-- The delay before the next attempt (backend/bl_haos/bluetooth/reconnect.py:
-- _calculate_backoff_delay). What the logarithms, `ldexp` and `exp2` of floats give is in Config.
pub mod Laws
use bl_haos_bridge.Prelude.{ℕ, ◌+◌, ◌*◌, ◌/◌, min, max, ◌||◌, leb, ◌==◌, if◌then◌else◌}
use bl_haos_bridge.Reconnect.Model.{Config, Time, min_backoff, millionths}

-- The delay before the floor and the jitter, by the branches of the source.
pub grown_delay : Config → ℕ → Time
grown_delay c step =
    if c.initial_backoff == 0
    then 0
    else if leb c.max_backoff c.initial_backoff
    then c.max_backoff
    else if c.multiplier_num == c.multiplier_den || step == 0
    then c.initial_backoff
    else if c.saturates step
    then c.max_backoff
    else min c.max_backoff (c.growth step)

-- `jitter` is what `random.uniform(0, RECONNECT_BACKOFF_JITTER)` draws, in millionths.
unfoldable pub calculate_backoff_delay : Config → ℕ → ℕ → Time
unfolding grown_delay
calculate_backoff_delay c jitter step =
    let floor = min min_backoff c.initial_backoff in
    let delay = max floor (grown_delay c step) in
    min c.max_backoff (delay * (millionths + jitter) / millionths)

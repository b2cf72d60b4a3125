-- ===== src/Clock.antt =====
-- Package time, as far as the loops use it: durations in nanoseconds, and tickers.
use twinval_go_backend.Prelude.{Option, none, some, if◌then◌else◌}
use twinval_go_backend.Prelude.Int.{ℤ, pos, leb_ℤ, int64, ◌*ℤ◌}

-- time.NewTicker, which panics on a duration that is not positive: `none`.
unfoldable pub new_ticker : ℤ → Option ℤ
new_ticker duration = if leb_ℤ duration (pos 0) then none else some duration

-- `time.Duration(n) * time.Millisecond`, which wraps around.
unfoldable pub milliseconds : ℤ → ℤ
unfolding int64 ◌*ℤ◌
milliseconds n = int64 (n *ℤ pos 1_000_000)

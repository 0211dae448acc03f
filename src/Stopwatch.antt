-- ===== src/Stopwatch.antt =====
-- The Stopwatch of testdyplobenchmark.cpp.
use libdyplo.Prelude.{ℕ, ◌+◌, ◌-◌, ◌*◌, ◌/◌, ◌%◌, ◌^◌, ◌≤◌, ◌<◌, arith}

-- `struct timespec`, of a clock that never runs backwards.
pub record Timespec : Type 0 where
  pub tv_sec : ℕ
  pub tv_nsec : ℕ

pub record Stopwatch : Type 0 where
  pub m_start : Timespec
  pub m_stop : Timespec

-- The constructor leaves `m_stop` as it is.
unfoldable pub new_stopwatch : Timespec → Timespec → Stopwatch
new_stopwatch now unset = record { m_start = now; m_stop = unset }

unfoldable pub start_watch : Timespec → Stopwatch → Stopwatch
start_watch now s = record s { m_start = now }

unfoldable pub stop_watch : Timespec → Stopwatch → Stopwatch
stop_watch now s = record s { m_stop = now }

-- The division of a negative difference goes towards zero; the sum is taken as an `unsigned int`.
unfoldable pub elapsed_us : Stopwatch → ℕ
elapsed_us s =
    (s.m_stop.tv_sec * 1000000
      + (s.m_stop.tv_nsec - s.m_start.tv_nsec) / 1000
      + 2 ^ 64
      - s.m_start.tv_sec * 1000000
      - (s.m_start.tv_nsec - s.m_stop.tv_nsec) / 1000)
    % 2 ^ 32

abbrev pub nanoseconds : Timespec → ℕ
nanoseconds t = t.tv_sec * 1000000000 + t.tv_nsec

-- Up to an hour, what the watch shows is less than a microsecond away from the time that has passed.
elapsed_us_lem :
    (start stop unset : Timespec)
    → start.tv_nsec < 1000000000
    → stop.tv_nsec < 1000000000
    → start.tv_sec < 2 ^ 32
    → nanoseconds start ≤ nanoseconds stop
    → nanoseconds stop ≤ nanoseconds start + 3600 * 1000000000
    → let shown = elapsed_us (stop_watch stop (new_stopwatch start unset)) in
      (shown * 1000 < nanoseconds stop - nanoseconds start + 1000)
      × (nanoseconds stop - nanoseconds start < shown * 1000 + 1000)
unfolding elapsed_us stop_watch new_stopwatch
elapsed_us_lem start stop unset h h' small order hour = (omega arith, omega arith)

-- ===== src/Tcp/Conn/Poll/Timer.antt =====
-- When the timer of cs144/tcp/rlib.c is due.
use stanford.Prelude.{ℕ, ◌+◌, ◌*◌, ◌/◌, ◌<◌, ◌≤◌, ◌≡◌, arith}
use stanford.Tcp.Conn.Poll.{Timespec, need_timer_in}

-- The nanoseconds since the clock's start.
abbrev pub nanoseconds : Timespec → ℕ
nanoseconds t = t.tv_sec * 1000000000 + t.tv_nsec

-- The timer is never late: when `timer` milliseconds have passed since `last`, the time to wait is 0.
-- When the time to wait is 0, the whole seconds of `timer` have passed, but for less than a
-- millisecond; the rest of `timer` may be missing. Else the time to wait is what is missing,
-- with an error of less than a millisecond. The nanoseconds of both times are below a second, and the
-- clock is not before `last`.
pub need_timer_in-due :
    (last ts : Timespec) (timer : ℕ)
    → last.tv_nsec < 1000000000
    → ts.tv_nsec < 1000000000
    → nanoseconds last ≤ nanoseconds ts
    → let wait = need_timer_in last ts timer in
      (nanoseconds last + timer * 1000000 ≤ nanoseconds ts → wait ≡ 0)
      × (wait ≡ 0 → nanoseconds last + timer / 1000 * 1000000000 < nanoseconds ts + 1000000)
      × (1 ≤ wait → nanoseconds last + timer * 1000000 < nanoseconds ts + wait * 1000000 + 1000000)
      × (1 ≤ wait → nanoseconds ts + wait * 1000000 < nanoseconds last + timer * 1000000 + 1000000)
unfolding need_timer_in
need_timer_in-due last ts timer l t le = (
  λ e. ground (arith, l, t, le, e),
  λ e. ground (arith, l, t, le, e),
  λ e. ground (arith, l, t, le, e),
  λ e. ground (arith, l, t, le, e),
)

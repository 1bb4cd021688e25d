-- ===== src/Priority/Average.antt =====
-- The average sleep of a process, which should grow while it sleeps.
use yonix.Base.{ℕ, ◌+◌, ◌-◌, ◌%◌, ◌^◌, ◌≤◌, ◌<◌, ◌≡◌, arith, leb, if◌then◌else◌}
use yonix.Priority.{max_avgslp, average_after_sleep}

-- A process whose average is `a`, between 0 and 100, and that sleeps for `d` ticks, 0 < d < 2^31,
-- wakes with the average lowered by `d` if `d` is at most `a`, and with the greatest average 100 if
-- `d` is greater than `a`: the average does not grow by the ticks slept.
pub average_after_sleep_lem :
    (a tick0 d : ℕ)
    → a ≤ max_avgslp
    → 0 < d
    → d < 2 ^ 31
    → tick0 < 2 ^ 32
    → average_after_sleep a tick0 ((tick0 + d) % 2 ^ 32) ≡ (if leb d a then a - d else max_avgslp)
unfolding average_after_sleep
average_after_sleep_lem a tick0 d ha h0 hd ht = ground arith

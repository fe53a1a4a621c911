-- ===== src/Net/LoadCounter/Tests.antt =====
-- A run of the counter, and the theorem on it.
use myoj.Common.{◌≤◌, ◌≡◌, refl, length, arith}
use myoj.Net.LoadCounter.{
  LoadCounter, make_load_counter, keep, start_sleep, sleep_wake_up, sum_up, add_current, leave_out,
  drop_old, share, load,
}
use myoj.Net.LoadCounter.Bounds.{Reachable, created, later, fell_asleep, woke_up, load-le}

counter_code : Unit {0}
unfolding keep start_sleep sleep_wake_up sum_up add_current leave_out drop_old share load
counter_code = tt

-- 30 microseconds of work, 60 of sleep and 10 of work.
abbrev worked : LoadCounter
worked = sleep_wake_up 90 (start_sleep 30 (make_load_counter 32 2000000 0))

worked-Reachable : Reachable worked 100
worked-Reachable = later 100 (omega arith) (
    woke_up (
      later 90 (omega arith)
        (fell_asleep (later 30 (omega arith) (created 32 2000000 0 (omega arith))))))

forty : (load 100 worked).0 ≡ 40
unfolding counter_code
forty = refl

load-le_example : ((load 100 worked).0 ≤ 100) × (length worked.time_list ≤ worked.max_size)
unfolding counter_code
load-le_example = load-le worked 100 worked-Reachable (omega arith)

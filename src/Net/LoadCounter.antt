-- ===== src/Net/LoadCounter.antt =====
-- include/net/ThreadLoadCounter.h and src/net/ThreadLoadCounter.cpp: the share of the time that a loop's
-- thread does not sleep. Times are microseconds in 64 bits; `now` is what the clock says.
pub mod Bounds
pub mod Tests
use myoj.Common.{
  ℕ, ◌+◌, ◌-◌, ◌*◌, ◌/◌, ◌%◌, ◌^◌, Bool, true, false, ◌||◌, if◌then◌else◌, List, [], ◌∷◌, ◌++◌,
  length, ltb, ◌==◌,
}

pub record TimeRecord : Type 0 where
  pub sleep : Bool
  pub time : ℕ

pub record LoadCounter : Type 0 where
  pub sleeping : Bool
  pub last_sleep_time : ℕ
  pub last_wake_time : ℕ
  pub max_size : ℕ
  pub max_usec : ℕ
  pub time_list : List TimeRecord

abbrev pub make_load_counter : ℕ → ℕ → ℕ → LoadCounter
make_load_counter max_size max_usec now = record {
  sleeping = true;
  last_sleep_time = now;
  last_wake_time = now;
  max_size = max_size;
  max_usec = max_usec;
  time_list = [];
}

abbrev pub u64_add : ℕ → ℕ → ℕ
u64_add a b = (a + b) % 2 ^ 64

abbrev pub u64_sub : ℕ → ℕ → ℕ
u64_sub a b = (a + 2 ^ 64 - b) % 2 ^ 64

abbrev pub pop_front : List TimeRecord → List TimeRecord
pop_front [] = []
pop_front (r ∷ rs) = rs

-- `emplace_back`, and the bound on the size.
unfoldable pub keep : TimeRecord → LoadCounter → LoadCounter
keep r c =
    let rs = c.time_list ++ r ∷ [] in
    record c { time_list = if ltb c.max_size (length rs) then pop_front rs else rs }

unfoldable pub start_sleep : ℕ → LoadCounter → LoadCounter
start_sleep now c =
    keep (record { sleep = false; time = u64_sub now c.last_wake_time })
      (record c { sleeping = true; last_sleep_time = now })

unfoldable pub sleep_wake_up : ℕ → LoadCounter → LoadCounter
sleep_wake_up now c =
    keep (record { sleep = true; time = u64_sub now c.last_sleep_time })
      (record c { sleeping = false; last_wake_time = now })

-- `totalRunTime`, `totalSleepTime` and `totalTime`.
pub record Totals : Type 0 where
  pub run : ℕ
  pub slept : ℕ
  pub total : ℕ

-- The loop of `for_each`.
unfoldable pub sum_up : List TimeRecord → ℕ → ℕ → ℕ × ℕ
sum_up [] run slept = (run, slept)
sum_up (r ∷ rs) run slept =
    sum_up rs (if r.sleep then run else u64_add run r.time)
      (if r.sleep then u64_add slept r.time else slept)

-- The time that runs now.
unfoldable pub add_current : ℕ → LoadCounter → ℕ × ℕ → Totals
add_current now c (run, slept) =
    if c.sleeping
    then (let s = u64_add slept (u64_sub now c.last_sleep_time) in
        record { run = run; slept = s; total = u64_add run s })
    else (let r = u64_add run (u64_sub now c.last_wake_time) in
        record { run = r; slept = slept; total = u64_add r slept })

unfoldable pub leave_out : TimeRecord → Totals → Totals
leave_out r t =
    if r.sleep
    then record t { slept = u64_sub t.slept r.time; total = u64_sub t.total r.time }
    else record t { run = u64_sub t.run r.time; total = u64_sub t.total r.time }

-- The while loop, which drops the oldest records.
unfoldable pub drop_old : ℕ → ℕ → List TimeRecord → Totals → List TimeRecord × Totals
drop_old size usec [] t = ([], t)
drop_old size usec (r ∷ rs) t =
    let rest = drop_old size usec rs (leave_out r t) in
    if ltb usec t.total || ltb size (length (r ∷ rs)) then rest else (r ∷ rs, t)

unfoldable pub share : Totals → ℕ
share t = if t.total == 0 then 0 else t.run * 100 % 2 ^ 64 / t.total % 2 ^ 32

unfoldable pub load : ℕ → LoadCounter → ℕ × LoadCounter
load now c =
    let (kept, t) =
      drop_old c.max_size c.max_usec c.time_list (add_current now c (sum_up c.time_list 0 0)) in
    (share t, record c { time_list = kept })

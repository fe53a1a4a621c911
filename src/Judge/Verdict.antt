-- ===== src/Judge/Verdict.antt =====
-- judge.c and time.c: the parent process measures the child and names what became of it.
use myoj.Common.{
  ℕ, ◌+◌, ◌-◌, ◌*◌, ◌/◌, ◌%◌, ◌^◌, ◌≤◌, ◌≡◌, ◌↔◌, ◌||◌, ltb, ◌==◌, if◌then◌else◌, arith,
}
use myoj.Judge.{
  ExecConfig, JudgeResult, RunningCondition, run_success, runtime_error, time_limit_exceed,
  memory_limit_exceed, output_limit_exceed, segmentation_fault, float_error, unknown_error,
  fork_error, create_thread_error,
}

-- The status of `wait4` as its macros read it.
pub data WaitStatus : Type 0 where
  exited : ℕ → WaitStatus
  signaled : ℕ → WaitStatus
  stopped : WaitStatus

abbrev pub sigfpe : ℕ
sigfpe = 8

abbrev pub sigkill : ℕ
sigkill = 9

abbrev pub sigsegv : ℕ
sigsegv = 11

abbrev pub sigxcpu : ℕ
sigxcpu = 24

abbrev pub sigxfsz : ℕ
sigxfsz = 25

-- The exit code 0: the limits are compared with what was measured.
unfoldable pub exited_condition : ℕ → ExecConfig → JudgeResult → RunningCondition
exited_condition code c r =
    if code == 0
    then (if ltb c.memory_limit r.memory_cost
        then memory_limit_exceed
        else (if ltb c.cpu_time_limit r.cpu_time_cost || ltb c.real_time_limit r.real_time_cost
            then time_limit_exceed
            else run_success))
    else unknown_error

unfoldable pub signaled_condition : ℕ → ExecConfig → JudgeResult → RunningCondition
signaled_condition sig c r =
    if sig == sigxcpu
    then time_limit_exceed
    else (if sig == sigfpe
        then float_error
        else (if sig == sigsegv
            then segmentation_fault
            else (if sig == sigkill
                then (if ltb c.cpu_time_limit r.cpu_time_cost
                    then time_limit_exceed
                    else runtime_error)
                else (if sig == sigxfsz then output_limit_exceed else runtime_error))))

unfoldable pub get_running_condition : WaitStatus → ExecConfig → JudgeResult → RunningCondition
get_running_condition (exited code) c r = exited_condition code c r
get_running_condition (signaled sig) c r = signaled_condition sig c r
get_running_condition stopped c r = unknown_error

-- `struct timeval`.
pub record TimeVal : Type 0 where
  pub tv_sec : ℕ
  pub tv_usec : ℕ

unfoldable pub get_time_millisecond_by_timeval : TimeVal → ℕ
get_time_millisecond_by_timeval t = t.tv_sec * 1000 + t.tv_usec / 1000

-- As an `int`, kept as its 32 bits.
unfoldable pub get_gap_millsecond : TimeVal → TimeVal → ℕ
unfolding get_time_millisecond_by_timeval
get_gap_millsecond start end =
    (get_time_millisecond_by_timeval end + 2 ^ 32 - get_time_millisecond_by_timeval start % 2 ^ 32)
    % 2 ^ 32

-- An `int` that is stored in an `rlim_t`: a negative one fills the upper bits with ones.
abbrev pub int_to_rlim : ℕ → ℕ
int_to_rlim n = if ltb n (2 ^ 31) then n else n + (2 ^ 64 - 2 ^ 32)

-- What the system reports to the parent.
pub data Report : Type 0 where
  fork_failed : Report
  thread_failed : Report
  waited : (status : WaitStatus) (user_time start end : TimeVal) (max_rss : ℕ) → Report

-- The record that `getRunningCondition` is called with.
unfoldable pub measure : TimeVal → TimeVal → TimeVal → ℕ → JudgeResult → JudgeResult
unfolding get_time_millisecond_by_timeval get_gap_millsecond
measure user_time start end max_rss r = record r {
  cpu_time_cost = int_to_rlim (get_time_millisecond_by_timeval user_time % 2 ^ 32);
  real_time_cost = int_to_rlim (get_gap_millsecond start end);
  memory_cost = max_rss;
}

-- `runJudge` in the parent. In the two failures the costs of the last run stay in the record.
unfoldable pub run_judge : ExecConfig → JudgeResult → Report → JudgeResult
run_judge c r fork_failed = record r { condition = fork_error }
run_judge c r thread_failed = record r { condition = create_thread_error }
run_judge c r (waited status user_time start end max_rss) =
    let measured = measure user_time start end max_rss r in
    record measured { condition = get_running_condition status c measured }

-- A run counts as a success exactly when the program ended by itself with code 0 and within all
-- three limits; the boundaries themselves are allowed.
pub run_success_iff :
    (status : WaitStatus) (c : ExecConfig) (r : JudgeResult)
    → (get_running_condition status c r ≡ run_success) ↔ (
        (status ≡ exited 0)
        × (r.memory_cost ≤ c.memory_limit)
        × (r.cpu_time_cost ≤ c.cpu_time_limit)
        × (r.real_time_cost ≤ c.real_time_limit))
unfolding get_running_condition exited_condition signaled_condition
run_success_iff (exited code) c r = ground arith
run_success_iff (signaled sig) c r = ground arith
run_success_iff stopped c r = ground arith

-- ===== src/Judge.antt =====
-- oj/judge: the sandbox that runs a submitted program. The types of common.h; the children model
-- common.c, child.c, judge.c and time.c. `rlim_t` is unsigned with 64 bits.
pub mod Options
pub mod Child
pub mod Verdict
pub mod Sandboxed
pub mod Tests
use myoj.Common.{ℕ, ◌^◌, ◌*◌, []}
use myoj.Common.Bytes.{Bytes}

-- The enumerators' values start at 1.
pub data RunningCondition : Type 0 where
  run_success runtime_error time_limit_exceed memory_limit_exceed : RunningCondition
  output_limit_exceed segmentation_fault float_error unknown_error : RunningCondition
  input_file_not_found can_not_make_output set_limit_error not_root_user : RunningCondition
  fork_error create_thread_error validate_error : RunningCondition

abbrev pub condition_value : RunningCondition → ℕ
condition_value run_success = 1
condition_value runtime_error = 2
condition_value time_limit_exceed = 3
condition_value memory_limit_exceed = 4
condition_value output_limit_exceed = 5
condition_value segmentation_fault = 6
condition_value float_error = 7
condition_value unknown_error = 8
condition_value input_file_not_found = 9
condition_value can_not_make_output = 10
condition_value set_limit_error = 11
condition_value not_root_user = 12
condition_value fork_error = 13
condition_value create_thread_error = 14
condition_value validate_error = 15

pub record ExecConfig : Type 0 where
  pub cpu_time_limit : ℕ
  pub memory_limit : ℕ
  pub wall_memory_limit : ℕ
  pub process_limit : ℕ
  pub output_limit : ℕ
  pub real_time_limit : ℕ
  pub exec_path : Bytes
  pub stdin_path : Bytes
  pub stdout_path : Bytes
  pub stderr_path : Bytes
  pub logger_path : Bytes
  pub uid : ℕ
  pub guard : ℕ

pub record JudgeResult : Type 0 where
  pub real_time_cost : ℕ
  pub memory_cost : ℕ
  pub cpu_time_cost : ℕ
  pub condition : RunningCondition

-- `initExecConfigAndJudgeResult`. `processLimit` and the others are those of EXEC_SETTING_DEFAULT.
abbrev pub init_exec_config : ExecConfig
init_exec_config = record {
  cpu_time_limit = 4000;
  memory_limit = 1024 * 64;
  wall_memory_limit = 1024 * 1024 * 3;
  process_limit = 100;
  output_limit = 20000;
  real_time_limit = 4000;
  exec_path = [];
  stdin_path = [];
  stdout_path = [];
  stderr_path = [];
  logger_path = [];
  uid = 3000;
  guard = 0;
}

abbrev pub init_judge_result : JudgeResult
init_judge_result = record {
  real_time_cost = 0;
  memory_cost = 0;
  cpu_time_cost = 0;
  condition = run_success;
}

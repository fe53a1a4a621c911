-- ===== src/Oj/Judger.antt =====
-- oj/src/Judger.h and Judger.cpp: a submission is compiled, run on the tests and given a status. The
-- types and the parts the steps share; the children model the steps of `Run`.
pub mod Decimal
pub mod Prepare
pub mod Program
pub mod Run
pub mod Verdicts
pub mod Accepted
pub mod Answer
pub mod Compilers
pub mod Tests
use myoj.Common.{
  ℕ, zero, suc, ◌+◌, ◌-◌, ◌*◌, ◌/◌, ◌%◌, ◌^◌, ◌≤◌, ◌<◌, ◌≡◌, refl, sym, ap, ◌∙◌, Bool, true, false,
  Option, List, [], ◌∷◌, ◌++◌, ltb, take, if◌then◌else◌, arith,
}
use myoj.Common.Bytes.{Bytes, bytes_eq}
use myoj.Common.Decimal.{to_string, c_string}
use myoj.Judge.{ExecConfig, JudgeResult}
use myoj.Judge.Verdict.{Report}

pub data Status : Type 0 where
  pj ce ac wa re tle mle se : Status

-- What `Init` reads from the JSON object. The numbers are those of a problem in the database: not
-- negative, and small enough for `int` and `long`.
pub record Submission : Type 0 where
  pub submit_id : Bytes
  pub problem_id : Bytes
  pub code : Bytes
  pub judge_num : ℕ
  pub time_limit : ℕ
  pub memory_limit : ℕ
  pub language : Bytes

-- One object of "TestInfo". A status that was never stored is JSON's null.
pub record TestInfo : Type 0 where
  pub run_time : Bytes
  pub run_memory : Bytes
  pub standard_input : Bytes
  pub standard_output : Bytes
  pub personal_output : Bytes
  pub status : Option Status

-- The members, less the command that is being built. `run_time` is the 32 bits of an `int`.
pub record Judger : Type 0 where
  pub tests : List TestInfo
  pub run_path : Bytes
  pub data_path : Bytes
  pub is_spj : Bool
  pub submit_id : Bytes
  pub problem_id : Bytes
  pub judge_num : ℕ
  pub code : Bytes
  pub result : Status
  pub reason : Bytes
  pub language : Bytes
  pub length : Bytes
  pub time_limit : ℕ
  pub memory_limit : ℕ
  pub max_time_limit : ℕ
  pub max_memory_limit : ℕ
  pub run_time : ℕ
  pub run_memory : ℕ

-- The system calls, on a state of the system. `system` gives none for -1; a file that cannot be
-- read is empty; `spawn` is what the sandbox's parent process is told.
pub record Os (W : Type 0) : Type 0 where
  pub system : Bytes → W → Option ℕ × W
  pub access : Bytes → W → Bool
  pub open_output : Bytes → W → Bool × W
  pub write : Bytes → Bytes → W → W
  pub file_size : Bytes → W → ℕ
  pub read_file : Bytes → W → Bytes
  pub spawn : ExecConfig → W → Report × W

-- `strcmp` gives 0.
unfoldable pub strcmp_equal : Bytes → Bytes → Bool
strcmp_equal s t = bytes_eq (c_string s) (c_string t)

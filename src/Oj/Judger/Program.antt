-- ===== src/Oj/Judger/Program.antt =====
-- Judger.cpp: `RunProgramC_Cpp`, the loop over the tests and `JudgmentResult`. What the sandbox does is
-- `run_judge` of the judge's model.
use myoj.Common.{
  ℕ, zero, suc, ◌*◌, ◌/◌, ◌%◌, ◌^◌, max, Bool, true, Option, none, some, [], ◌∷◌, ◌++◌, ltb, ◌==◌,
  if◌then◌else◌,
}
use myoj.Common.Bytes.{Bytes, codes}
use myoj.Judge.{
  ExecConfig, JudgeResult, RunningCondition, run_success, runtime_error, time_limit_exceed,
  memory_limit_exceed, segmentation_fault,
}
use myoj.Judge.Verdict.{run_judge, int_to_rlim}
use myoj.Oj.Judger.{Status, ac, wa, re, tle, mle, se, TestInfo, Judger, Os, strcmp_equal}
use myoj.Common.Decimal.{to_string}

-- What a test does to the judge: it passes, it sets a status, it sets one and a reason, or its
-- condition is none of those the code looks at.
pub data Outcome : Type 0 where
  passed : Outcome
  judged : Status → Outcome
  failed : Status → Bytes → Outcome
  ignored : Outcome

module _ {W : Type 0} (os : Os W) where
  -- The command of the checker of a problem that has one.
  unfoldable pub spj_command : Judger → Bytes → Bytes
  spj_command j index =
      j.data_path
      ++ codes "spj "
      ++ (j.data_path ++ index ++ codes ".in")
      ++ codes " "
      ++ (j.data_path ++ index ++ codes ".out")
      ++ codes " "
      ++ (j.run_path ++ index ++ codes ".out")

  -- 0 from the checker is an accepted answer; -1 and every other exit status is a wrong one.
  unfoldable pub check_answer : Option ℕ × W → Outcome × W
  check_answer (none, w) = (judged wa, w)
  check_answer (some n, w) = (if n == 0 then passed else judged wa, w)

  -- A program that ran to its end.
  unfoldable pub judge_success : Judger → TestInfo → JudgeResult → Bytes → W → Outcome × W
  judge_success j info res index w =
      if ltb j.time_limit res.cpu_time_cost
      then (judged tle, w)
      else (if ltb j.memory_limit res.memory_cost
          then (judged mle, w)
          else (if j.is_spj then check_answer (os.system (spj_command j index) w) else (
            if strcmp_equal info.standard_output info.personal_output then passed else judged wa,
            w,
          )))

  unfoldable pub outcome :
      RunningCondition → Judger → TestInfo → JudgeResult → Bytes → W → Outcome × W
  outcome run_success j info res index w = judge_success j info res index w
  outcome time_limit_exceed j info res index w = (judged tle, w)
  outcome memory_limit_exceed j info res index w = (judged mle, w)
  outcome runtime_error j info res index w =
      (failed re (os.read_file (j.run_path ++ codes "error.out") w), w)
  outcome segmentation_fault j info res index w =
      (failed se (os.read_file (j.run_path ++ codes "judger.log") w), w)
  outcome _ j info res index w = (ignored, w)

  unfoldable pub record_outcome : Judger → TestInfo → Outcome → Judger
  record_outcome j info passed = record j {
    tests = j.tests ++ record info { status = some ac } ∷ [];
  }
  record_outcome j info (judged s) = record j {
    result = s;
    tests = j.tests ++ record info { status = some s } ∷ [];
  }
  record_outcome j info (failed s reason) = record j {
    result = s;
    reason = reason;
    tests = j.tests ++ record info { status = some s } ∷ [];
  }
  record_outcome j info ignored = record j { tests = j.tests ++ info ∷ [] }

  -- The three files of the test, and what the run cost.
  unfoldable pub read_test : Judger → JudgeResult → Bytes → W → TestInfo
  read_test j res index w = record {
    run_time = to_string res.cpu_time_cost ++ codes "MS";
    run_memory = to_string (res.memory_cost / 1024 / 1024) ++ codes "MB";
    standard_input = os.read_file (j.data_path ++ index ++ codes ".in") w;
    standard_output = os.read_file (j.data_path ++ index ++ codes ".out") w;
    personal_output = os.read_file (j.run_path ++ index ++ codes ".out") w;
    status = none;
  }

  -- The running time goes from `int` to `rlim_t` and back.
  unfoldable pub count_costs : Judger → JudgeResult → Judger
  count_costs j res = record j {
    run_time = max (int_to_rlim j.run_time) res.cpu_time_cost % 2 ^ 32;
    run_memory = max j.run_memory res.memory_cost;
  }

  unfoldable pub judgment_result : JudgeResult → Bytes → Judger → W → Judger × W
  judgment_result res index j w =
      let counted = count_costs j res in
      let info = read_test counted res index w in
      let (o, w') = outcome res.condition counted info res index w in
      (record_outcome counted info o, w')

  -- One round of `RunProgram`.
  unfoldable pub run_test : ExecConfig → JudgeResult → ℕ → Judger → W → JudgeResult × Judger × W
  run_test conf res i j w =
      let index = to_string i in
      let conf' = record conf {
        stdin_path = j.data_path ++ index ++ codes ".in";
        stdout_path = j.run_path ++ index ++ codes ".out";
      } in
      let (report, w1) = os.spawn conf' w in
      let res' = run_judge conf' res report in
      let (j', w2) = judgment_result res' index j w1 in (res', j', w2)

  -- The rounds from `i` on, `left` of them.
  unfoldable pub run_tests : ExecConfig → JudgeResult → (left i : ℕ) → Judger → W → Judger × W
  run_tests conf res zero i j w = (j, w)
  run_tests conf res (suc left) i j w =
      let (res', j', w') = run_test conf res i j w in run_tests conf res' left (suc i) j' w'

  -- `judgeResult` is a variable that is not initialised.
  unfoldable pub run_program : JudgeResult → ExecConfig → Judger → W → Judger × W
  run_program raw conf j w = run_tests conf raw j.judge_num 1 j w

  -- The configuration is a variable that is not initialised either: its limits on the address
  -- space and on processes, its user and its input and output are whatever `raw` holds.
  unfoldable pub program_config : ExecConfig → Judger → ExecConfig
  program_config raw j = record raw {
    real_time_limit = j.max_time_limit;
    cpu_time_limit = j.time_limit;
    memory_limit = j.max_memory_limit;
    output_limit = 10 * 1024 * 1024;
    stderr_path = j.run_path ++ codes "error.out";
    exec_path = j.run_path ++ codes "main";
    logger_path = j.run_path ++ codes "judger.log";
    guard = 1;
  }

  -- The opening of the log file truncates it.
  unfoldable pub run_program_c_cpp : ExecConfig → JudgeResult → Judger → W → Bool × Judger × W
  run_program_c_cpp raw raw_result j w =
      let (opened, w') = os.open_output (j.run_path ++ codes "judger.log") w in
      let (j', w'') = run_program raw_result (program_config raw j) j w' in (true, j', w'')

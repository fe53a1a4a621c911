-- ===== src/Oj/Judger/Run.antt =====
-- Judger.cpp: `Run` and `Done`.
use myoj.Common.{ℕ, ◌-◌, ◌/◌, ◌%◌, ◌^◌, Bool, true, false, List, ◌∷◌, ◌++◌, ltb, if◌then◌else◌}
use myoj.Common.Bytes.{Bytes, codes, bytes_eq}
use myoj.Judge.{ExecConfig, JudgeResult}
use myoj.Oj.Judger.{Status, pj, ac, Submission, TestInfo, Judger, Os}
use myoj.Common.Decimal.{to_string}
use myoj.Oj.Judger.Prepare.{init, compile_c, compile_cpp}
use myoj.Oj.Judger.Program.{run_program_c_cpp}

-- The JSON object that is returned.
pub record Response : Type 0 where
  pub submit_id : Bytes
  pub status : Status
  pub compiler_info : Bytes
  pub run_time : Bytes
  pub run_memory : Bytes
  pub length : Bytes
  pub test_info : List TestInfo

-- `to_string` of an `int` given by its 32 bits.
unfoldable pub int_to_string : ℕ → Bytes
int_to_string n = if ltb n (2 ^ 31) then to_string n else b'-' ∷ to_string (2 ^ 32 - n)

unfoldable pub settle : Status → Status
settle pj = ac
settle s = s

module _ {W : Type 0} (os : Os W) where
  unfoldable pub done : Judger → W → Response × W
  done j w =
      let (removed, w') = os.system (codes "rm -rf " ++ j.run_path) w in
      (
        record {
          submit_id = j.submit_id;
          status = settle j.result;
          compiler_info = j.reason;
          run_time = int_to_string j.run_time ++ codes "MS";
          run_memory = int_to_string (j.run_memory / 1024 / 1024 % 2 ^ 32) ++ codes "MB";
          length = j.length;
          test_info = j.tests;
        },
        w',
      )

  module _ (raw : ExecConfig) (raw_result : JudgeResult) where
    -- A program that is compiled is run.
    unfoldable pub run_compiled : Bool × Judger × W → Judger × W
    run_compiled (false, j, w) = (j, w)
    run_compiled (true, j, w) =
        let (ok, j', w') = run_program_c_cpp os raw raw_result j w in (j', w')

    unfoldable pub compile_and_run : Bool × Judger × W → Judger × W
    compile_and_run (false, j, w) = (j, w)
    compile_and_run (true, j, w) =
        if bytes_eq j.language (codes "C")
        then run_compiled (compile_c os j w)
        else (if bytes_eq j.language (codes "C++")
            then run_compiled (compile_cpp os j w)
            else (j, w))

    -- `Run`: every path ends in `Done`.
    unfoldable pub run : Submission → Judger → W → Response × W
    run sub j w = let (j', w') = compile_and_run (init os sub j w) in done j' w'

-- ===== src/Oj/Judger/Tests.antt =====
-- Runs of the judge on small systems, and its theorems on them.
use myoj.Common.{
  ℕ, ◌≤◌, ◌≡◌, ◌↔◌, ◌⊎◌, refl, true, false, none, some, List, [], All, ◌∷◌, ◌++◌, length,
}
use myoj.Common.Bytes.{Bytes, codes, bytes_eq, find_index}
use myoj.Judge.{init_exec_config, init_judge_result, run_success}
use myoj.Judge.Verdict.{
  waited, exited, TimeVal, run_judge, measure, get_running_condition, exited_condition,
  get_time_millisecond_by_timeval, get_gap_millsecond,
}
use myoj.Oj.Judger.{pj, ac, wa, ce, se, Submission, TestInfo, Judger, Os, strcmp_equal}
use myoj.Common.Decimal.{to_string, decimal, c_string}
use myoj.Oj.Judger.Prepare.{
  source_name, find_spj, spj_compiled, compile_spj, get_compilation_failed, compiled, c_command,
  compile_c, cpp_command, compile_cpp, store_code, open_source, make_folder, load, init,
}
use myoj.Oj.Judger.Program.{
  spj_command, check_answer, judge_success, outcome, record_outcome, read_test, count_costs,
  judgment_result, run_test, run_tests, run_program, program_config, run_program_c_cpp,
}
use myoj.Oj.Judger.Run.{Response, int_to_string, settle, done, run_compiled, compile_and_run, run}
use myoj.Oj.Judger.Verdicts.{Adds, run_tests-Adds}
use myoj.Oj.Judger.Accepted.{IsPassed, run_accepted, unjudged_language, compile_error}
use myoj.Oj.Judger.Compilers.{Compiler, compilers, Reports, compilers-Reports}
use myoj.Oj.Judger.Answer.{IsCorrect, judgment_result-passed}

judger_code : Unit {0}
unfolding to_string decimal c_string strcmp_equal source_name find_spj spj_compiled compile_spj
    get_compilation_failed compiled c_command compile_c cpp_command compile_cpp store_code
    open_source make_folder load init spj_command check_answer judge_success outcome record_outcome
    read_test count_costs judgment_result run_test run_tests run_program program_config
    run_program_c_cpp int_to_string settle done run_compiled compile_and_run run run_judge measure
    get_running_condition exited_condition get_time_millisecond_by_timeval get_gap_millsecond
    find_index
judger_code = tt

abbrev at : ℕ → TimeVal
at n = record { tv_sec = n; tv_usec = 0 }

abbrev run_folder : Bytes
run_folder = codes "/home/thebs/mymuduo/oj/datadir/run/7/"

-- Programs compile and end at once; every file holds the same text, except for one output.
abbrev linux : Os (Unit {0})
linux = record {
  system = λ command w. (some 0, w);
  access = λ path w. bytes_eq path (run_folder ++ codes "main");
  open_output = λ path w. (true, w);
  write = λ path text w. w;
  file_size = λ path w. 12;
  read_file = λ path w. elim (bytes_eq path (run_folder ++ codes "1.out")) [
    | true ↦ codes "4"
    | false ↦ codes "3"
  ];
  spawn = λ conf w. (waited (exited 0) (at 0) (at 0) (at 0) 100, w);
}

-- Nothing compiles.
abbrev no_compiler : Os (Unit {0})
no_compiler = record linux { access = λ path w. false }

abbrev in_language : Bytes → Submission
in_language language = record {
  submit_id = codes "7";
  problem_id = codes "1";
  code = codes "int main(){}";
  judge_num = 2;
  time_limit = 1000;
  memory_limit = 64;
  language = language;
}

abbrev fresh_judger : Judger
fresh_judger = record {
  tests = [];
  run_path = [];
  data_path = [];
  is_spj = false;
  submit_id = [];
  problem_id = [];
  judge_num = 0;
  code = [];
  result = pj;
  reason = [];
  language = [];
  length = [];
  time_limit = 0;
  memory_limit = 0;
  max_time_limit = 0;
  max_memory_limit = 0;
  run_time = 0;
  run_memory = 0;
}

abbrev response : Os (Unit {0}) → Bytes → Response
response os language =
    (run os init_exec_config init_judge_result (in_language language) fresh_judger tt).0

-- The first of the two answers is wrong, the second is right.
one_wrong : (response linux (codes "C++")).status ≡ wa
unfolding judger_code
one_wrong = refl

one_wrong_tests : length (response linux (codes "C++")).test_info ≡ 2
unfolding judger_code
one_wrong_tests = refl

-- On a system where all files are the same.
abbrev agreeing : Os (Unit {0})
agreeing = record linux { read_file = λ path w. codes "3" }

all_right : (response agreeing (codes "C")).status ≡ ac
unfolding judger_code
all_right = refl

run_accepted_example :
    ((length (response agreeing (codes "C")).test_info ≡ 0)
      ⊎ (length (response agreeing (codes "C")).test_info ≡ 2))
    × All IsPassed (response agreeing (codes "C")).test_info
run_accepted_example =
    run_accepted agreeing init_exec_config init_judge_result (in_language (codes "C")) fresh_judger
      tt all_right

abbrev prepared : Os (Unit {0}) → Bytes → Judger
prepared os language = (init os (in_language language) fresh_judger tt).1

go_prepared :
    init linux (in_language (codes "Go")) fresh_judger tt ≡ (true, prepared linux (codes "Go"), tt)
unfolding judger_code
go_prepared = refl

go_result : (prepared linux (codes "Go")).result ≡ pj
unfolding judger_code
go_result = refl

go_not_c : bytes_eq (prepared linux (codes "Go")).language (codes "C") ≡ false
unfolding judger_code
go_not_c = refl

go_not_cpp : bytes_eq (prepared linux (codes "Go")).language (codes "C++") ≡ false
unfolding judger_code
go_not_cpp = refl

unjudged_language_example :
    ((response linux (codes "Go")).status ≡ ac) × ((response linux (codes "Go")).test_info ≡ [])
unjudged_language_example =
    unjudged_language linux init_exec_config init_judge_result (in_language (codes "Go"))
      fresh_judger (prepared linux (codes "Go")) tt tt go_prepared go_result go_not_c go_not_cpp

c_prepared :
    init no_compiler (in_language (codes "C")) fresh_judger tt
    ≡ (true, prepared no_compiler (codes "C"), tt)
unfolding judger_code
c_prepared = refl

c_is_c : bytes_eq (prepared no_compiler (codes "C")).language (codes "C") ≡ true
unfolding judger_code
c_is_c = refl

abbrev uncompiled : Judger
uncompiled = (compile_c no_compiler (prepared no_compiler (codes "C")) tt).1

c_uncompiled : compile_c no_compiler (prepared no_compiler (codes "C")) tt ≡ (false, uncompiled, tt)
unfolding judger_code
c_uncompiled = refl

compile_error_example :
    ((response no_compiler (codes "C")).test_info ≡ [])
    × (((code : ℕ) × ((no_compiler.system
              (c_command no_compiler (prepared no_compiler (codes "C")))
              tt).0
            ≡ some code)
          × ((response no_compiler (codes "C")).status ≡ ce)
          × ((response no_compiler (codes "C")).compiler_info
              ≡ no_compiler.read_file
                  ((prepared no_compiler (codes "C")).run_path ++ codes "compileinfo.txt")
                  tt))
        ⊎ (((no_compiler.system (c_command no_compiler (prepared no_compiler (codes "C"))) tt).0
              ≡ none)
            × ((response no_compiler (codes "C")).status ≡ se)))
compile_error_example =
    compile_error no_compiler init_exec_config init_judge_result (in_language (codes "C"))
      fresh_judger (prepared no_compiler (codes "C")) uncompiled tt tt tt c_prepared c_is_c
      c_uncompiled

judgment_result-passed_example :
    (t : TestInfo) × ((judgment_result linux init_judge_result (codes "1") fresh_judger tt).0.tests
      ≡ t ∷ [])
    × ((t.status ≡ some ac) ↔ (
        (run_success ≡ run_success)
        × (0 ≤ 0)
        × (0 ≤ 0)
        × IsCorrect linux fresh_judger
            (read_test linux fresh_judger init_judge_result (codes "1") tt)
            (codes "1")
            tt))
judgment_result-passed_example =
    judgment_result-passed linux init_judge_result (codes "1") fresh_judger tt

run_tests-Adds_example :
    (new : List TestInfo) × (length new ≡ 2)
    × Adds fresh_judger new
        (run_tests linux init_exec_config init_judge_result 2 1 fresh_judger tt).0
run_tests-Adds_example = run_tests-Adds linux init_exec_config init_judge_result 2 1 fresh_judger tt

compilers-Reports_example :
    All
      (λ (c : Compiler linux).
        Reports linux c.target fresh_judger
          (linux.system (c.command fresh_judger) tt)
          (c.compile fresh_judger tt))
      (compilers linux)
compilers-Reports_example = compilers-Reports linux fresh_judger tt

-- ===== src/Judge/Tests.antt =====
-- Runs of the sandbox, and its theorems at concrete configurations.
use myoj.Common.{ℕ, ◌-◌, ◌*◌, ◌≤◌, ◌≡◌, ◌↔◌, refl, true, false, some, none, [], ◌∷◌, arith}
use myoj.Common.Bytes.{codes}
use myoj.Judge.{
  ExecConfig, JudgeResult, init_exec_config, init_judge_result, run_success, unknown_error,
}
use myoj.Judge.Options.{
  atoi_digits, set_option, validate_for_exec_config, validate_for_exec_config_iff,
  negative_time_limit, rlim_mod,
}
use myoj.Judge.Child.{
  System, Sandbox, ready, exit, exits, becomes_program, redirect, set_limit, set_limitation,
  set_user, set_up_child, execute, run_child, fork, clone, vfork, add_seccomp_rules,
  set_seccomp_guard,
}
use myoj.Judge.Verdict.{TimeVal, exited, waited, get_running_condition, run_judge, run_success_iff}
use myoj.Judge.Sandboxed.{failed_set_up, missing_program}

child_code : Unit {0}
unfolding redirect set_limit set_limitation set_user set_up_child execute run_child
    add_seccomp_rules set_seccomp_guard
child_code = tt

abbrev config : ExecConfig
config = record init_exec_config { exec_path = codes "/main"; stdin_path = codes "1.in"; guard = 1 }

-- A system on which everything works, except that some programs do not exist.
abbrev healthy : System
healthy = record {
  opens = λ path. true;
  creates = λ path. true;
  allows = λ r n. true;
  becomes = λ uid. true;
  executes = λ path. true;
  inits_filter = true;
  adds_rule = λ c. true;
  loads_filter = true;
}

abbrev without_program : System
without_program = record healthy { executes = λ path. false }

abbrev without_input : System
without_input = record healthy { opens = λ path. false }

abbrev boxed : Sandbox
boxed = record {
  input = some (codes "1.in");
  output = none;
  errors = none;
  limits =
      (myoj.Judge.Child.address_space, 3221225472)
      ∷ (myoj.Judge.Child.cpu, 5)
      ∷ (myoj.Judge.Child.processes, 100)
      ∷ (myoj.Judge.Child.file_size, 20000)
      ∷ (myoj.Judge.Child.stack, rlim_mod - 1)
      ∷ [];
  user = some 3000;
  forbidden = fork ∷ clone ∷ vfork ∷ [];
  program = codes "/main";
}

boxed_ready : set_up_child without_program config ≡ ready boxed
unfolding child_code
boxed_ready = refl

no_input_exit : set_up_child without_input config ≡ exit 9
unfolding child_code
no_input_exit = refl

-- Where the filter cannot be loaded, the program runs without it.
unguarded_run :
    run_child (record healthy { loads_filter = false }) config
    ≡ becomes_program (record boxed { forbidden = [] })
unfolding child_code
unguarded_run = refl

abbrev at : ℕ → TimeVal
at n = record { tv_sec = n; tv_usec = 0 }

failed_set_up_example :
    (run_child without_input config ≡ exits 9)
    × ((run_judge config init_judge_result (waited (exited 9) (at 0) (at 1) (at 1) 100)).condition
        ≡ unknown_error)
failed_set_up_example =
    failed_set_up without_input config 9 init_judge_result (at 0) (at 1) (at 1) 100 no_input_exit

missing_program_example :
    (code : ℕ) × (run_child without_program config ≡ exits code)
    × (get_running_condition (exited code) config init_judge_result ≡ run_success)
missing_program_example =
    missing_program without_program config boxed init_judge_result boxed_ready refl (omega arith)
      (omega arith) (omega arith)

abbrev measured : JudgeResult
measured = record init_judge_result { cpu_time_cost = 4000; real_time_cost = 3999; memory_cost = 1 }

run_success_iff_example :
    (get_running_condition (exited 0) config measured ≡ run_success)
    ↔ ((exited 0 ≡ exited 0) × (1 ≤ 1024 * 64) × (4000 ≤ 4000) × (3999 ≤ 4000))
run_success_iff_example = run_success_iff (exited 0) config measured

digits_five : atoi_digits 0 (codes "5") ≡ 5
unfolding atoi_digits
digits_five = refl

config_valid : validate_for_exec_config config ≡ true
unfolding validate_for_exec_config
config_valid = refl

negative_time_limit_example :
    (c' : ExecConfig) × (set_option b't' (codes "-5") config ≡ (true, c'))
    × (c'.real_time_limit ≡ rlim_mod - atoi_digits 0 (codes "5"))
    × (validate_for_exec_config c' ≡ true)
negative_time_limit_example =
    negative_time_limit (codes "5") config (omega (arith, digits_five)) (omega (arith, digits_five))
      config_valid

validate_for_exec_config_iff_example :
    (validate_for_exec_config config ≡ true) ↔ ((1024 ≤ 1024 * 64) × (false ≡ false))
validate_for_exec_config_iff_example = validate_for_exec_config_iff config

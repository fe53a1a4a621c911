-- ===== src/Judge/Child.antt =====
-- child.c and guard.c: what the child process sets up before it becomes the submitted program. The
-- operating system's answers are a parameter.
use myoj.Common.{
  ℕ, ◌+◌, ◌-◌, ◌*◌, ◌/◌, ◌%◌, Bool, Option, none, some, List, [], ◌∷◌, ltb, ◌==◌, if◌then◌else◌,
}
use myoj.Common.Bytes.{Bytes}
use myoj.Judge.{
  ExecConfig, RunningCondition, condition_value, input_file_not_found, can_not_make_output,
  set_limit_error, runtime_error,
}
use myoj.Judge.Options.{rlim_mod}

pub data Resource : Type 0 where
  address_space cpu processes file_size stack : Resource

-- The system calls of `FORBIDDEN_LIST`.
pub data SystemCall : Type 0 where
  fork clone vfork : SystemCall

-- `RLIM_INFINITY`.
abbrev pub rlim_infinity : ℕ
rlim_infinity = rlim_mod - 1

-- What the system answers: whether `fopen`, `setrlimit` and `setuid` succeed, whether `execve` finds a
-- program to run, and whether `seccomp_init`, `seccomp_rule_add` and `seccomp_load` succeed.
pub record System : Type 0 where
  pub opens : Bytes → Bool
  pub creates : Bytes → Bool
  pub allows : Resource → ℕ → Bool
  pub becomes : ℕ → Bool
  pub executes : Bytes → Bool
  pub inits_filter : Bool
  pub adds_rule : SystemCall → Bool
  pub loads_filter : Bool

-- The process that `execve` turns into the program. `forbidden` are the system calls that kill it.
pub record Sandbox : Type 0 where
  pub input : Option Bytes
  pub output : Option Bytes
  pub errors : Option Bytes
  pub limits : List (Resource × ℕ)
  pub user : Option ℕ
  pub forbidden : List SystemCall
  pub program : Bytes

pub data ChildEnd : Type 0 where
  exits : ℕ → ChildEnd
  becomes_program : Sandbox → ChildEnd

pub data Setup {ℓ} (A : Type ℓ) : Type ℓ where
  ready : A → Setup A
  exit : ℕ → Setup A

infixl 5 ◌>>=◌
abbrev pub ◌>>=◌ {ℓ κ} : {A : Type ℓ} {B : Type κ} → Setup A → (A → Setup B) → Setup B
ready a >>= f = f a
exit n >>= f = exit n

module _ (sys : System) where
  -- Redirection of a standard stream to a path that is not empty.
  unfoldable pub redirect : (Bytes → Bool) → RunningCondition → Bytes → Setup (Option Bytes)
  redirect opened failure [] = ready none
  redirect opened failure (c ∷ path) =
      if opened (c ∷ path) then ready (some (c ∷ path)) else exit (condition_value failure)

  unfoldable pub set_limit : Resource → ℕ → Setup (Resource × ℕ)
  set_limit r n = if sys.allows r n then ready (r, n) else exit (condition_value set_limit_error)

  unfoldable pub set_limitation : ExecConfig → Setup (List (Resource × ℕ))
  set_limitation c = do
    memory ← set_limit address_space (c.wall_memory_limit * 1024 % rlim_mod)
    time ← set_limit cpu ((c.cpu_time_limit / 1000 + 1) % rlim_mod)
    process ← set_limit processes c.process_limit
    output ← set_limit file_size c.output_limit
    stacked ← set_limit stack rlim_infinity
    ready (memory ∷ time ∷ process ∷ output ∷ stacked ∷ [])

  unfoldable pub set_user : ℕ → Setup (Option ℕ)
  set_user uid =
      if ltb 0 uid
      then (if sys.becomes uid then ready (some uid) else exit (condition_value runtime_error))
      else ready none

  -- `addSeccompRules`: the rules up to the first that cannot be added.
  unfoldable pub add_seccomp_rules : List SystemCall → List SystemCall
  add_seccomp_rules [] = []
  add_seccomp_rules (c ∷ cs) =
      let rest = add_seccomp_rules cs in if sys.adds_rule c then c ∷ rest else []

  abbrev pub forbidden_list : List SystemCall
  forbidden_list = fork ∷ clone ∷ vfork ∷ []

  -- `setSeccompGuard`: nobody looks at its failures. Without a context no rule is added, and nothing is
  -- loaded.
  unfoldable pub set_seccomp_guard : List SystemCall
  set_seccomp_guard =
      if sys.inits_filter
      then (if sys.loads_filter then add_seccomp_rules forbidden_list else [])
      else []

  -- `runChild` up to the call of `execve`.
  unfoldable pub set_up_child : ExecConfig → Setup Sandbox
  set_up_child c = do
    input ← redirect sys.opens input_file_not_found c.stdin_path
    output ← redirect sys.creates can_not_make_output c.stdout_path
    errors ← redirect sys.creates can_not_make_output c.stderr_path
    limits ← set_limitation c
    user ← set_user c.uid
    ready (record {
      input = input;
      output = output;
      errors = errors;
      limits = limits;
      user = user;
      forbidden = if c.guard == 0 then [] else set_seccomp_guard;
      program = c.exec_path;
    })

  -- `execve`. When it returns, the child exits with EXIT_SUCCESS.
  unfoldable pub execute : Setup Sandbox → ChildEnd
  execute (exit code) = exits code
  execute (ready box) = if sys.executes box.program then becomes_program box else exits 0

  unfoldable pub run_child : ExecConfig → ChildEnd
  run_child c = execute (set_up_child c)

-- ===== src/Judge/Sandboxed.antt =====
-- child.c together with judge.c: what a program that runs was given, and what becomes of a set-up
-- that fails.
use myoj.Common.{
  ℕ, ◌+◌, ◌*◌, ◌/◌, ◌%◌, ◌≤◌, ◌≡◌, ◌≢◌, refl, sym, subst, inl, inr, Bool, true, false, Bool-cases,
  Option, none, some, List, [], ◌∷◌, ◌==◌, ltb, ◌⊎◌, if◌then◌else◌, arith,
}
use myoj.Common.Bytes.{Bytes}
use myoj.Judge.{
  ExecConfig, JudgeResult, RunningCondition, condition_value, unknown_error, input_file_not_found,
  can_not_make_output, run_success,
}
use myoj.Judge.Options.{rlim_mod}
use myoj.Judge.Child.{
  System, Sandbox, Setup, ready, exit, ◌>>=◌, exits, redirect, set_limit, set_limitation, set_user,
  set_up_child, execute, run_child, Resource, address_space, cpu, processes, file_size, stack,
  rlim_infinity, SystemCall, fork, clone, vfork, set_seccomp_guard, add_seccomp_rules,
}
use myoj.Judge.Verdict.{
  TimeVal, waited, exited, get_running_condition, exited_condition, run_judge, run_success_iff,
}

-- A set-up either hands on a value with `P`, or exits with a code that is not 0.
abbrev Yields {ℓ} : {A : Type ℓ} → (A → Type 0) → Setup A → Type 0
Yields P (ready a) = P a
Yields P (exit n) = n ≢ 0

Yields-bind {ℓ κ} :
    {A : Type ℓ} {B : Type κ} (P : A → Type 0) (Q : B → Type 0) (m : Setup A) (f : A → Setup B)
    → Yields P m
    → ((a : A) → P a → Yields Q (f a))
    → Yields Q (m >>= f)
Yields-bind P Q (ready a) f h k = k a h
Yields-bind P Q (exit n) f h k = h

Yields-bind_to {κ} :
    {A : Type 0} {B : Type κ} (Q : B → Type 0) (m : Setup A) (f : A → Setup B) (v : A)
    → Yields (λ a. a ≡ v) m
    → Yields Q (f v)
    → Yields Q (m >>= f)
Yields-bind_to Q m f v h k =
    Yields-bind (λ a. a ≡ v) Q m f h (λ a e. subst (λ x. Yields Q (f x)) (sym e) k)

-- A stream that is redirected is the file named, and that one could be opened.
abbrev Redirected : (Bytes → Bool) → Bytes → Option Bytes → Type 0
Redirected opened path none = path ≡ []
Redirected opened path (some file) = (file ≡ path) × (opened path ≡ true)

redirect-Yields :
    (opened : Bytes → Bool) (failure : RunningCondition) (path : Bytes)
    → condition_value failure ≢ 0
    → (sys : System) → Yields (Redirected opened path) (redirect sys opened failure path)
unfolding redirect
redirect-Yields opened failure [] h sys = refl
redirect-Yields opened failure (c ∷ path) h sys = elim (Bool-cases (opened (c ∷ path))) [
  | inl e ↦ rw e (refl, e)
  | inr e ↦ rw e h
]

abbrev Limits : ExecConfig → List (Resource × ℕ) → Type 0
Limits c limits = limits ≡ (
    (address_space, c.wall_memory_limit * 1024 % rlim_mod)
    ∷ (cpu, (c.cpu_time_limit / 1000 + 1) % rlim_mod)
    ∷ (processes, c.process_limit)
    ∷ (file_size, c.output_limit)
    ∷ (stack, rlim_infinity)
    ∷ [])

module _ (sys : System) where
  set_limit-Yields : (r : Resource) (n : ℕ) → Yields (λ l. l ≡ (r, n)) (set_limit sys r n)
  unfolding set_limit
  set_limit-Yields r n = elim (Bool-cases (sys.allows r n)) [
    | inl e ↦ rw e refl
    | inr e ↦ rw e (λ z. omega arith)
  ]

  set_limitation-Yields : (c : ExecConfig) → Yields (Limits c) (set_limitation sys c)
  unfolding set_limitation
  set_limitation-Yields c = Yields-bind_to (Limits c) _ _ _ (set_limit-Yields address_space _) (
      Yields-bind_to (Limits c) _ _ _ (set_limit-Yields cpu _) (
        Yields-bind_to (Limits c) _ _ _ (set_limit-Yields processes _) (
          Yields-bind_to (Limits c) _ _ _ (set_limit-Yields file_size _)
            (Yields-bind_to (Limits c) _ _ _ (set_limit-Yields stack _) refl))))

  -- The user the program runs as: that of the configuration, unless it is 0.
  abbrev RunsAs : ℕ → Option ℕ → Type 0
  RunsAs uid none = uid ≡ 0
  RunsAs uid (some user) = (user ≡ uid) × (sys.becomes uid ≡ true)

  set_user-Yields : (uid : ℕ) → Yields (RunsAs uid) (set_user sys uid)
  unfolding set_user
  set_user-Yields uid = elim (Bool-cases (ltb 0 uid)) [
    | inr e ↦ rw e (ground arith)
    | inl e ↦ elim (Bool-cases (sys.becomes uid)) [
      | inl b ↦ rw (e, b) (refl, b)
      | inr b ↦ rw (e, b) (λ z. omega arith)
    ]
  ]

  -- All calls of libseccomp succeed.
  abbrev pub InstallsFilter : Type 0
  InstallsFilter =
      (sys.inits_filter ≡ true)
      × (sys.adds_rule fork ≡ true)
      × (sys.adds_rule clone ≡ true)
      × (sys.adds_rule vfork ≡ true)
      × (sys.loads_filter ≡ true)

  -- What the filter forbids: nothing without the guard, all three system calls with it where libseccomp
  -- does its work, and nothing again where the filter is not made or not loaded.
  abbrev pub Forbids : ℕ → List SystemCall → Type 0
  Forbids guard forbidden =
      (guard ≡ 0 → forbidden ≡ [])
      × (guard ≢ 0 → InstallsFilter → forbidden ≡ fork ∷ clone ∷ vfork ∷ [])
      × ((sys.inits_filter ≡ false) ⊎ (sys.loads_filter ≡ false) → forbidden ≡ [])

  no_filter : (sys.inits_filter ≡ false) ⊎ (sys.loads_filter ≡ false) → set_seccomp_guard sys ≡ []
  unfolding set_seccomp_guard
  no_filter f = elim (Bool-cases sys.inits_filter) [
    | inr out ↦ rw out refl
    | inl made ↦ elim f [
      | inl out ↦ absurd (ground (arith, made, out))
      | inr out ↦ rw (made, out) refl
    ]
  ]

  full_filter : InstallsFilter → set_seccomp_guard sys ≡ fork ∷ clone ∷ vfork ∷ []
  unfolding set_seccomp_guard add_seccomp_rules
  full_filter i = rw (i.0, i.4, i.1, i.2, i.3) refl

  guard-Forbids : (guard : ℕ) → Forbids guard (if guard == 0 then [] else set_seccomp_guard sys)
  guard-Forbids guard =
      (λ e. rw e refl, λ e i. ground (arith, e, full_filter i), λ f. ground (arith, no_filter f))

  abbrev pub IsConfined : ExecConfig → Sandbox → Type 0
  IsConfined c box =
      Redirected sys.opens c.stdin_path box.input
      × Redirected sys.creates c.stdout_path box.output
      × Redirected sys.creates c.stderr_path box.errors
      × Limits c box.limits
      × RunsAs c.uid box.user
      × Forbids c.guard box.forbidden
      × (box.program ≡ c.exec_path)

  set_up_child-Yields : (c : ExecConfig) → Yields (IsConfined c) (set_up_child sys c)
  unfolding set_up_child
  set_up_child-Yields c =
      Yields-bind (Redirected sys.opens c.stdin_path) (IsConfined c) _ _
        (redirect-Yields sys.opens input_file_not_found c.stdin_path (λ z. omega arith) sys)
        (λ a ha.
          Yields-bind (Redirected sys.creates c.stdout_path) (IsConfined c) _ _
            (redirect-Yields sys.creates can_not_make_output c.stdout_path (λ z. omega arith) sys)
            (λ b hb.
              Yields-bind (Redirected sys.creates c.stderr_path) (IsConfined c) _ _
                (redirect-Yields sys.creates can_not_make_output c.stderr_path (λ z. omega arith)
                  sys)
                (λ d hd.
                  Yields-bind (Limits c) (IsConfined c) _ _ (set_limitation-Yields c) (λ l hl.
                    Yields-bind (RunsAs c.uid) (IsConfined c) _ _ (set_user-Yields c.uid)
                      (λ u hu. (ha, hb, hd, hl, hu, guard-Forbids c.guard, refl))))))

  -- However the set-up fails, the parent's verdict is the unknown error: the code the child exits
  -- with, which is the value of a more specific condition, does not reach the judge.
  pub failed_set_up :
      (c : ExecConfig) (code : ℕ) (r : JudgeResult) (user_time start end : TimeVal) (max_rss : ℕ)
      → set_up_child sys c ≡ exit code
      → (run_child sys c ≡ exits code)
        × ((run_judge c r (waited (exited code) user_time start end max_rss)).condition
            ≡ unknown_error)
  unfolding run_child execute run_judge get_running_condition exited_condition
  failed_set_up c code r user_time start end max_rss h =
      let nonzero : code ≢ 0 = subst (Yields (IsConfined c)) h (set_up_child-Yields c) in
      (rw h refl, ground (arith, nonzero))

  -- A program that cannot be executed is taken for one that ran: when the set-up is complete and
  -- `execve` fails, the child exits with 0, and a child that used no more than the limits then
  -- counts as a success.
  pub missing_program :
      (c : ExecConfig) (box : Sandbox) (r : JudgeResult)
      → set_up_child sys c ≡ ready box
      → sys.executes c.exec_path ≡ false
      → r.memory_cost ≤ c.memory_limit
      → r.cpu_time_cost ≤ c.cpu_time_limit
      → r.real_time_cost ≤ c.real_time_limit
      → (code : ℕ) × (run_child sys c ≡ exits code)
        × (get_running_condition (exited code) c r ≡ run_success)
  unfolding run_child execute
  missing_program c box r h k m t u =
      let confined : IsConfined c box = subst (Yields (IsConfined c)) h (set_up_child-Yields c) in
      (0, rw (h, confined.6, k) refl, (run_success_iff (exited 0) c r).1 (refl, m, t, u))

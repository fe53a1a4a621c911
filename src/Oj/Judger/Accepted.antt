-- ===== src/Oj/Judger/Accepted.antt =====
-- Judger.cpp: what the status of a whole response means.
use myoj.Common.{
  ℕ, ◌≡◌, ◌≢◌, ◌∷◌, refl, ap, ◌∙◌, subst, ◌⊎◌, inl, inr, Bool, true, false, Bool-cases, Option,
  none, some, List, [], ◌++◌, length, All, arith,
}
use myoj.Common.Bytes.{Bytes, codes, bytes_eq}
use myoj.Judge.{ExecConfig, JudgeResult}
use myoj.Oj.Judger.{Status, pj, ce, ac, se, Submission, TestInfo, Judger, Os}
use myoj.Oj.Judger.Prepare.{
  source_name, find_spj, spj_compiled, compile_spj, get_compilation_failed, compiled, compile_c,
  c_command, compile_cpp, store_code, open_source, make_folder, load, init,
}
use myoj.Oj.Judger.Program.{run_tests, run_program, run_program_c_cpp, program_config}
use myoj.Oj.Judger.Run.{settle, done, run_compiled, compile_and_run, run}
use myoj.Oj.Judger.Verdicts.{objects, Adds, run_tests-Adds}

-- Before the tests: none has been run, and their number is the submission's.
abbrev Untested : ℕ → Judger → Type 0
Untested n j = (j.tests ≡ []) × (j.judge_num ≡ n)

-- A test whose status is "accepted", or that has none.
abbrev pub IsPassed : TestInfo → Type 0
IsPassed t = (t.status ≡ some ac) ⊎ (t.status ≡ none)

status_passed : (o : Option Status) → objects o ≡ false → o ≢ some pj → (o ≡ some ac) ⊎ (o ≡ none)
status_passed none h k = inr refl
status_passed (some ac) h k = inl refl
status_passed (some pj) h k = absurd (k refl)
status_passed (some _) h k = absurd cc

all-IsPassed :
    (ts : List TestInfo)
    → All (λ (t : TestInfo). objects t.status ≡ false) ts
    → All (λ (t : TestInfo). t.status ≢ some pj) ts
    → All IsPassed ts
all-IsPassed [] h k = tt
all-IsPassed (t ∷ ts) h k = (status_passed t.status h.0 k.0, all-IsPassed ts h.1 k.1)

-- What holds when the tests have been run, or not.
abbrev Accounted : ℕ → Status → List TestInfo → Type 0
Accounted n status tests =
    ((length tests ≡ 0) ⊎ (length tests ≡ n)) × (status ≡ ac → All IsPassed tests)

module _ {W : Type 0} (os : Os W) where
  compiled-Untested :
      (n : ℕ) (target : Bytes) (j : Judger) (o : Option ℕ × W)
      → Untested n j
      → Untested n (compiled os target j o).1
  unfolding compiled get_compilation_failed
  compiled-Untested n target j (none, w) h = h
  compiled-Untested n target j (some k, w) h =
      elim (Bool-cases (os.access (j.run_path ++ target) w)) [ inl e ↦ rw e h | inr e ↦ rw e h ]

  find_spj-Untested : (n : ℕ) (j : Judger) (w : W) → Untested n j → Untested n (find_spj os j w).1
  unfolding find_spj
  find_spj-Untested n j w h = elim (Bool-cases (os.access (j.data_path ++ codes "spj") w)) [
    | inl e ↦ rw e h
    | inr e ↦ rw e h
  ]

  spj_compiled-Untested :
      (n : ℕ) (j : Judger) (o : Option ℕ × W) → Untested n j → Untested n (spj_compiled os j o).1
  unfolding spj_compiled
  spj_compiled-Untested n j (none, w) h = h
  spj_compiled-Untested n j (some k, w) h = find_spj-Untested n j w h

  compile_spj-Untested :
      (n : ℕ) (j : Judger) (w : W) → Untested n j → Untested n (compile_spj os j w).1
  unfolding compile_spj
  compile_spj-Untested n j w h = elim (Bool-cases (os.access (j.data_path ++ codes "spj") w)) [
    | inl e ↦ rw e h
    | inr e ↦ elim (Bool-cases (os.access (j.data_path ++ codes "spj.cpp") w)) [
      | inl f ↦ rw (e, f) (spj_compiled-Untested n j _ h)
      | inr f ↦ rw (e, f) h
    ]
  ]

  store_code-Untested :
      (n : ℕ) (file : Bytes) (j : Judger) (o : Bool × W)
      → Untested n j
      → Untested n (store_code os file j o).1
  unfolding store_code
  store_code-Untested n file j (false, w) h = h
  store_code-Untested n file j (true, w) h = compile_spj-Untested n _ _ h

  open_source-Untested :
      (n : ℕ) (name : Option Bytes) (j : Judger) (w : W)
      → Untested n j
      → Untested n (open_source os name j w).1
  unfolding open_source
  open_source-Untested n none j w h = h
  open_source-Untested n (some name) j w h = store_code-Untested n _ j _ h

  make_folder-Untested :
      (n : ℕ) (j : Judger) (o : Option ℕ × W) → Untested n j → Untested n (make_folder os j o).1
  unfolding make_folder
  make_folder-Untested n j (none, w) h = h
  make_folder-Untested n j (some k, w) h = open_source-Untested n (source_name j.language) j w h

  init-Untested :
      (sub : Submission) (j : Judger) (w : W) → Untested sub.judge_num (init os sub j w).1
  unfolding init load
  init-Untested sub j w = make_folder-Untested sub.judge_num _ _ (refl, refl)

  Untested-Accounted : (n : ℕ) (j : Judger) → Untested n j → Accounted n (settle j.result) j.tests
  Untested-Accounted n j (e, h) = rw e (inl refl, λ a. tt)

  Adds-Accounted :
      (n : ℕ) (j j' : Judger) (new : List TestInfo)
      → j.tests ≡ []
      → length new ≡ n
      → Adds j new j'
      → Accounted n (settle j'.result) j'.tests
  Adds-Accounted n j j' new e l (t, h, p) =
      let same : j'.tests ≡ new = t ∙ ap (λ ts. ts ++ new) e in
      rw same (inr l, λ a. all-IsPassed new (h.0 a).1 p)

  run_program_c_cpp-Accounted :
      (raw : ExecConfig) (raw_result : JudgeResult) (n : ℕ) (j : Judger) (w : W)
      → Untested n j
      → Accounted n
          (settle (run_program_c_cpp os raw raw_result j w).1.result)
          (run_program_c_cpp os raw raw_result j w).1.tests
  unfolding run_program_c_cpp run_program
  run_program_c_cpp-Accounted raw raw_result n j w (e, k) =
      let opened : Bool × W = os.open_output (j.run_path ++ codes "judger.log") w in
      let conf : ExecConfig = program_config os raw j in
      let (new, l, added) = run_tests-Adds os conf raw_result j.judge_num 1 j opened.1 in
      Adds-Accounted n j (run_tests os conf raw_result j.judge_num 1 j opened.1).0 new e (l ∙ k)
        added

  -- What a response says when the compiler, which got the judge `j`, did not succeed.
  abbrev pub Refused : Judger → Option ℕ × W → Judger → W → Type 0
  Refused j o j' w =
      (j'.tests ≡ [])
      × (((code : ℕ) × (o.0 ≡ some code)
            × (settle j'.result ≡ ce)
            × (j'.reason ≡ os.read_file (j.run_path ++ codes "compileinfo.txt") w))
          ⊎ ((o.0 ≡ none) × (settle j'.result ≡ se)))

  compiled-Refused :
      (n : ℕ) (target : Bytes) (j : Judger) (o : Option ℕ × W)
      → Untested n j
      → ((compiled os target j o).0 ≡ true)
        ⊎ Refused j o (compiled os target j o).1 (compiled os target j o).2
  unfolding compiled get_compilation_failed settle
  compiled-Refused n target j (none, w) h = inr (h.0, inr (refl, refl))
  compiled-Refused n target j (some k, w) h =
      elim (Bool-cases (os.access (j.run_path ++ target) w)) [
        | inl e ↦ rw e (inl refl)
        | inr e ↦ rw e (inr (h.0, inl (k, refl, refl, refl)))
      ]

  module _ (raw : ExecConfig) (raw_result : JudgeResult) where
    run_compiled-Accounted :
        (n : ℕ) (c : Bool × Judger × W)
        → Untested n c.1
        → Accounted n
            (settle (run_compiled os raw raw_result c).0.result)
            (run_compiled os raw raw_result c).0.tests
    unfolding run_compiled
    run_compiled-Accounted n (false, j, w) h = Untested-Accounted n j h
    run_compiled-Accounted n (true, j, w) h = run_program_c_cpp-Accounted raw raw_result n j w h

    compile_and_run-Accounted :
        (n : ℕ) (c : Bool × Judger × W)
        → Untested n c.1
        → Accounted n
            (settle (compile_and_run os raw raw_result c).0.result)
            (compile_and_run os raw raw_result c).0.tests
    unfolding compile_and_run compile_c compile_cpp
    compile_and_run-Accounted n (false, j, w) h = Untested-Accounted n j h
    compile_and_run-Accounted n (true, j, w) h =
        elim (Bool-cases (bytes_eq j.language (codes "C"))) [
          | inl e ↦ rw e (run_compiled-Accounted n _ (compiled-Untested n _ j _ h))
          | inr e ↦ elim (Bool-cases (bytes_eq j.language (codes "C++"))) [
            | inl f ↦ rw (e, f) (run_compiled-Accounted n _ (compiled-Untested n _ j _ h))
            | inr f ↦ rw (e, f) (Untested-Accounted n j h)
          ]
        ]

    run-Accounted :
        (sub : Submission) (j : Judger) (w : W)
        → Accounted sub.judge_num
            (run os raw raw_result sub j w).0.status
            (run os raw raw_result sub j w).0.test_info
    unfolding run done
    run-Accounted sub j w = compile_and_run-Accounted sub.judge_num _ (init-Untested sub j w)

    -- Whatever the system does, an accepted response lists no test or all tests of the problem, and
    -- the status of each is "accepted" or missing: a wrong answer on one test is not forgotten
    -- because of the others, and no test is left pending.
    pub run_accepted :
        (sub : Submission) (j : Judger) (w : W)
        → (run os raw raw_result sub j w).0.status ≡ ac
        → ((length (run os raw raw_result sub j w).0.test_info ≡ 0)
            ⊎ (length (run os raw raw_result sub j w).0.test_info ≡ sub.judge_num))
          × All IsPassed (run os raw raw_result sub j w).0.test_info
    run_accepted sub j w h = ((run-Accounted sub j w).0, (run-Accounted sub j w).1 h)

    -- A submission in a language other than C and C++ that is prepared without an error is accepted,
    -- and no test is run.
    pub unjudged_language :
        (sub : Submission) (j j' : Judger) (w w' : W)
        → init os sub j w ≡ (true, j', w')
        → j'.result ≡ pj
        → bytes_eq j'.language (codes "C") ≡ false
        → bytes_eq j'.language (codes "C++") ≡ false
        → ((run os raw raw_result sub j w).0.status ≡ ac)
          × ((run os raw raw_result sub j w).0.test_info ≡ [])
    unfolding run done compile_and_run settle
    unjudged_language sub j j' w w' e p c d =
        let unused : Untested sub.judge_num j' =
          subst (λ (r : Bool × Judger × W). Untested sub.judge_num r.1) e (init-Untested sub j w) in
        rw (e, c, d) (ap settle p, unused.0)

    -- A C program that does not compile is not run: where the compiler was started, the status is
    -- "compile error", with what the compiler wrote, and where it was not, "system error".
    pub compile_error :
        (sub : Submission) (j j' j'' : Judger) (w w' w'' : W)
        → init os sub j w ≡ (true, j', w')
        → bytes_eq j'.language (codes "C") ≡ true
        → compile_c os j' w' ≡ (false, j'', w'')
        → ((run os raw raw_result sub j w).0.test_info ≡ [])
          × (((code : ℕ) × ((os.system (c_command os j') w').0 ≡ some code)
                × ((run os raw raw_result sub j w).0.status ≡ ce)
                × ((run os raw raw_result sub j w).0.compiler_info
                    ≡ os.read_file (j'.run_path ++ codes "compileinfo.txt") w''))
              ⊎ (((os.system (c_command os j') w').0 ≡ none)
                  × ((run os raw raw_result sub j w).0.status ≡ se)))
    unfolding run done compile_and_run run_compiled compile_c
    compile_error sub j j' j'' w w' w'' e l c =
        let unused : Untested sub.judge_num j' =
          subst (λ (r : Bool × Judger × W). Untested sub.judge_num r.1) e (init-Untested sub j w) in
        elim (compiled-Refused sub.judge_num (codes "main") j' (os.system (c_command os j') w')
          unused) [
            | inl k ↦ absurd (ground (arith, k, ap (λ (r : Bool × Judger × W). r.0) c))
            | inr k ↦
                rw (e, l, c)
                  (subst
                    (λ (r : Bool × Judger × W). Refused j' (os.system (c_command os j') w') r.1 r.2)
                    c k)
          ]

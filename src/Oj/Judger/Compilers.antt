-- ===== src/Oj/Judger/Compilers.antt =====
-- Judger.cpp: the compilers of the languages that `Run` does not reach, and what all seven share.
use myoj.Common.{
  ℕ, ◌≡◌, refl, ◌⊎◌, inl, inr, Bool, true, false, Bool-cases, Option, none, some, List, [], ◌∷◌,
  ◌++◌, All,
}
use myoj.Common.Bytes.{Bytes, codes}
use myoj.Oj.Judger.{ce, se, Judger, Os}
use myoj.Oj.Judger.Prepare.{
  compiled, get_compilation_failed, compile_c, compile_cpp, c_command, cpp_command,
}

module _ {W : Type 0} (os : Os W) where
  abbrev pub go_command : Judger → Bytes
  go_command j =
      codes "go build -o "
      ++ j.run_path
      ++ codes "main "
      ++ j.run_path
      ++ codes "main.go 2>"
      ++ j.run_path
      ++ codes "compileinfo.txt"

  unfoldable pub compile_go : Judger → W → Bool × Judger × W
  compile_go j w = compiled os (codes "main") j (os.system (go_command j) w)

  abbrev pub java_command : Judger → Bytes
  java_command j =
      codes "javac "
      ++ j.run_path
      ++ codes "Main.java -d "
      ++ j.run_path
      ++ codes "Main 2>"
      ++ j.run_path
      ++ codes "compileinfo.txt"

  unfoldable pub compile_java : Judger → W → Bool × Judger × W
  compile_java j w = compiled os (codes "Main") j (os.system (java_command j) w)

  abbrev pub python2_command : Judger → Bytes
  python2_command j =
      codes "python2 -m py_compile "
      ++ j.run_path
      ++ codes "main.py 2>"
      ++ j.run_path
      ++ codes "compileinfo.txt"

  unfoldable pub compile_python2 : Judger → W → Bool × Judger × W
  compile_python2 j w = compiled os (codes "main.pyc") j (os.system (python2_command j) w)

  abbrev pub python3_command : Judger → Bytes
  python3_command j =
      codes "python3 -m py_compile "
      ++ j.run_path
      ++ codes "main.py 2>"
      ++ j.run_path
      ++ codes "compileinfo.txt"

  unfoldable pub compile_python3 : Judger → W → Bool × Judger × W
  compile_python3 j w =
      compiled os (codes "__pycache__/main.cpython-36.pyc") j (os.system (python3_command j) w)

  abbrev pub java_script_command : Judger → Bytes
  java_script_command j =
      codes "/usr/bin/node --check "
      ++ j.run_path
      ++ codes "main.js 2>"
      ++ j.run_path
      ++ codes "compileinfo.txt"

  unfoldable pub compile_java_script : Judger → W → Bool × Judger × W
  compile_java_script j w = compiled os (codes "main.js") j (os.system (java_script_command j) w)

  -- A compiler: what `Run` calls, the command it gives the shell, and the file that tells whether the
  -- command did its work.
  pub record Compiler : Type 0 where
    pub compile : Judger → W → Bool × Judger × W
    pub command : Judger → Bytes
    pub target : Bytes

  abbrev compiler : (Judger → W → Bool × Judger × W) → (Judger → Bytes) → Bytes → Compiler
  compiler compile command target = record { compile = compile; command = command; target = target }

  abbrev pub compilers : List Compiler
  compilers =
      compiler (compile_c os) (c_command os) (codes "main")
      ∷ compiler (compile_cpp os) (cpp_command os) (codes "main")
      ∷ compiler compile_go go_command (codes "main")
      ∷ compiler compile_java java_command (codes "Main")
      ∷ compiler compile_python2 python2_command (codes "main.pyc")
      ∷ compiler compile_python3 python3_command (codes "__pycache__/main.cpython-36.pyc")
      ∷ compiler compile_java_script java_script_command (codes "main.js")
      ∷ []

  -- What a compiler reports, given the shell's answer and the system behind it: a command that could
  -- not be started is a "system error"; otherwise a program that is there is a success, which changes
  -- no member, and one that is not there a "compile error" with the text of the information file.
  abbrev pub Reports : Bytes → Judger → Option ℕ × W → Bool × Judger × W → Type 0
  Reports target j shell answer =
      ((shell.0 ≡ none) × (answer ≡ (false, record j { result = se }, shell.1)))
      ⊎ ((code : ℕ) × (shell.0 ≡ some code)
          × (os.access (j.run_path ++ target) shell.1 ≡ true)
          × (answer ≡ (true, j, shell.1)))
      ⊎ ((code : ℕ) × (shell.0 ≡ some code)
          × (os.access (j.run_path ++ target) shell.1 ≡ false)
          × (answer ≡ (
            false,
            record j {
              reason = os.read_file (j.run_path ++ codes "compileinfo.txt") shell.1;
              result = ce;
            },
            shell.1,
          )))

  compiled-Reports :
      (target : Bytes) (j : Judger) (o : Option ℕ × W) → Reports target j o (compiled os target j o)
  unfolding compiled get_compilation_failed
  compiled-Reports target j (none, w) = inl (refl, refl)
  compiled-Reports target j (some k, w) = elim (Bool-cases (os.access (j.run_path ++ target) w)) [
    | inl e ↦ inr (inl (k, refl, e, rw e refl))
    | inr e ↦ inr (inr (k, refl, e, rw e refl))
  ]

  -- Each of the seven compilers gives the shell its command, and reports to the judge in one of three
  -- ways: "system error" exactly when the command could not be started; otherwise a success when the
  -- program is there afterwards, and "compile error" with the text of the information file when it is
  -- not. No other member changes.
  pub compilers-Reports :
      (j : Judger) (w : W)
      → All
          (λ (c : Compiler). Reports c.target j (os.system (c.command j) w) (c.compile j w))
          compilers
  unfolding compile_c compile_cpp compile_go compile_java compile_python2 compile_python3
      compile_java_script
  compilers-Reports j w = (
    compiled-Reports _ j _,
    (
      compiled-Reports _ j _,
      (
        compiled-Reports _ j _,
        (
          compiled-Reports _ j _,
          (compiled-Reports _ j _, (compiled-Reports _ j _, (compiled-Reports _ j _, tt))),
        ),
      ),
    ),
  )

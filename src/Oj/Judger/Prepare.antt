-- ===== src/Oj/Judger/Prepare.antt =====
-- Judger.cpp: `Init`, `CompileSPJ` and the compilers.
use myoj.Common.{ℕ, ◌*◌, Bool, true, false, Option, none, some, [], ◌++◌, if◌then◌else◌}
use myoj.Common.Bytes.{Bytes, codes, bytes_eq}
use myoj.Oj.Judger.{pj, ce, se, Submission, Judger, Os}
use myoj.Common.Decimal.{to_string, c_string}

abbrev pub run_root : Bytes
run_root = codes "/home/thebs/mymuduo/oj/datadir/run/"

abbrev pub data_root : Bytes
data_root = codes "/home/thebs/mymuduo/oj/datadir/data/"

-- The file the code is written to, by the language.
unfoldable pub source_name : Bytes → Option Bytes
source_name language =
    if bytes_eq language (codes "C")
    then some (codes "main.c")
    else (if bytes_eq language (codes "C++")
        then some (codes "main.cpp")
        else (if bytes_eq language (codes "Go")
            then some (codes "main.go")
            else (if bytes_eq language (codes "Java")
                then some (codes "Main.java")
                else (if bytes_eq language (codes "Python2")
                    then some (codes "main.py")
                    else (if bytes_eq language (codes "Python3")
                        then some (codes "main.py")
                        else (if bytes_eq language (codes "JavaScript")
                            then some (codes "main.js")
                            else none))))))

module _ {W : Type 0} (os : Os W) where
  -- After the compilation of the checker: whether it is there now.
  unfoldable pub find_spj : Judger → W → Bool × Judger × W
  find_spj j w =
      if os.access (j.data_path ++ codes "spj") w
      then (true, record j { is_spj = true }, w)
      else (true, j, w)

  unfoldable pub spj_compiled : Judger → Option ℕ × W → Bool × Judger × W
  spj_compiled j (none, w) = (false, record j { result = se }, w)
  spj_compiled j (some n, w) = find_spj j w

  unfoldable pub compile_spj : Judger → W → Bool × Judger × W
  compile_spj j w =
      if os.access (j.data_path ++ codes "spj") w
      then (true, record j { is_spj = true }, w)
      else (if os.access (j.data_path ++ codes "spj.cpp") w
          then spj_compiled j (
              os.system
                (codes "timeout 10 g++ "
                  ++ j.data_path
                  ++ codes "spj.cpp -o "
                  ++ j.data_path
                  ++ codes "spj -O2 -std=c++14")
                w)
          else (true, j, w))

  unfoldable pub get_compilation_failed : Judger → W → Judger
  get_compilation_failed j w = record j {
    reason = os.read_file (j.run_path ++ codes "compileinfo.txt") w;
    result = ce;
  }

  -- What follows the compiler's run: the file `target` tells whether it did its work.
  unfoldable pub compiled : Bytes → Judger → Option ℕ × W → Bool × Judger × W
  compiled target j (none, w) = (false, record j { result = se }, w)
  compiled target j (some n, w) =
      if os.access (j.run_path ++ target) w
      then (true, j, w)
      else (false, get_compilation_failed j w, w)

  unfoldable pub c_command : Judger → Bytes
  c_command j =
      codes "timeout 10 gcc "
      ++ j.run_path
      ++ codes "main.c -fmax-errors=3 -o "
      ++ j.run_path
      ++ codes "main -O2 -std=c11 2>"
      ++ j.run_path
      ++ codes "compileinfo.txt"

  unfoldable pub compile_c : Judger → W → Bool × Judger × W
  compile_c j w = compiled (codes "main") j (os.system (c_command j) w)

  unfoldable pub cpp_command : Judger → Bytes
  cpp_command j =
      codes "timeout 10 g++ "
      ++ j.run_path
      ++ codes "main.cpp -fmax-errors=3 -o "
      ++ j.run_path
      ++ codes "main -O2 -std=c++11 2>"
      ++ j.run_path
      ++ codes "compileinfo.txt"

  unfoldable pub compile_cpp : Judger → W → Bool × Judger × W
  compile_cpp j w = compiled (codes "main") j (os.system (cpp_command j) w)

  -- `Init` behind the opening of the source file.
  unfoldable pub store_code : Bytes → Judger → Bool × W → Bool × Judger × W
  store_code file j (false, w) = (false, record j { result = se }, w)
  store_code file j (true, w) =
      let stored = os.write file (c_string j.code) w in
      let (ok, j', w') =
        compile_spj (record j { length = to_string (os.file_size file stored) ++ codes "B" })
          stored in
      (true, j', w')

  unfoldable pub open_source : Option Bytes → Judger → W → Bool × Judger × W
  open_source none j w = (false, record j { result = se }, w)
  open_source (some name) j w =
      store_code (j.run_path ++ name) j (os.open_output (j.run_path ++ name) w)

  unfoldable pub make_folder : Judger → Option ℕ × W → Bool × Judger × W
  make_folder j (none, w) = (false, record j { result = se }, w)
  make_folder j (some n, w) = open_source (source_name j.language) j w

  -- The members that `Init` sets from the submission; only the length is left as it was.
  unfoldable pub load : Submission → Judger → Judger
  load sub j = record {
    tests = [];
    run_path = run_root ++ sub.submit_id ++ codes "/";
    data_path = data_root ++ sub.problem_id ++ codes "/";
    is_spj = false;
    submit_id = sub.submit_id;
    problem_id = sub.problem_id;
    judge_num = sub.judge_num;
    code = sub.code;
    result = pj;
    reason = [];
    language = sub.language;
    length = j.length;
    time_limit = sub.time_limit;
    memory_limit = sub.memory_limit * 1024 * 1024;
    max_time_limit = sub.time_limit * 2;
    max_memory_limit = sub.memory_limit * 1024 * 1024 * 2;
    run_time = 0;
    run_memory = 0;
  }

  unfoldable pub init : Submission → Judger → W → Bool × Judger × W
  init sub j w =
      let loaded = load sub j in
      make_folder loaded (os.system (codes "mkdir " ++ loaded.run_path) w)

-- ===== src/Oj/ProblemList.antt =====
-- oj/src/ProblemList.cpp, and the cache of problems in oj/src/RedisDataBase.cpp: problems come from MongoDB,
-- and a problem that was found is kept in Redis for a day; the counts of submissions go to MySQL. These
-- and the JSON library are parameters. What the shell and the files are asked is kept in order. An
-- exception is none, with the state it leaves.
pub mod Cache
pub mod Services
pub mod Tests
use myoj.Common.{
  ℕ, zero, suc, ◌+◌, Bool, true, false, if◌then◌else◌, Option, none, some, List, [], ◌∷◌, ◌++◌,
}
use myoj.Common.Bytes.{Bytes, codes, bytes_eq}
use myoj.Common.Decimal.{to_string}

pub data FileCall : Type 0 where
  system_call : Bytes → FileCall
  write_file : Bytes → Bytes → FileCall

-- The input and the output of a test, none where there is no text.
pub record TestData : Type 0 where
  pub in_ : Option Bytes
  pub out : Option Bytes

-- The members that the code reads, of a JSON object `J`; none where reading throws. The databases' answers
-- always have a result.
pub record ProblemJson (J : Type 0) : Type 0 where
  pub result : J → Bytes
  pub problem_id : J → Option Bytes
  pub test_info : J → List TestData
  pub is_spj : J → Option Bool
  pub spj : J → Option Bytes
  pub set_problem_id : Option Bytes → J → J
  pub dump : J → Bytes
  pub parse : Bytes → Option J

-- MongoDB, and the counts in MySQL, which are of a database of their own.
pub record ProblemDatabase (D M J : Type 0) : Type 0 where
  pub select : Bytes → D → J
  pub insert : J → D → J × D
  pub update : J → D → J × D
  pub delete : J → D → J × D
  pub count : J → M → Bool × M

-- An exception of `get` is none, and false of the others.
pub record Redis (R : Type 0) : Type 0 where
  pub get : Bytes → R → Option (Option Bytes)
  pub setex : Bytes → ℕ → Bytes → R → Bool × R
  pub del : Bytes → R → Bool × R

pub record World (D M R : Type 0) : Type 0 where
  pub database : D
  pub counts : M
  pub cache : R
  pub file_calls : List FileCall

abbrev pub problem_data_path : Bytes
problem_data_path = codes "../../problemdata/"

abbrev pub cache_key : Bytes → Bytes
cache_key problem_id = codes "Cache:Problem:" ++ problem_id

abbrev pub text_or_empty : Option (Option Bytes) → Bytes
text_or_empty none = []
text_or_empty (some none) = []
text_or_empty (some (some text)) = text

-- A file is opened, which empties it, and the text is written; false is an exception.
abbrev pub written : Bytes → Option Bytes → Bool × List FileCall → Bool × List FileCall
written path none then_ = (false, write_file path [] ∷ [])
written path (some text) then_ = (then_.0, write_file path text ∷ then_.1)

unfoldable pub test_files : Bytes → ℕ → List TestData → Bool × List FileCall → Bool × List FileCall
test_files path i [] then_ = then_
test_files path i (t ∷ ts) then_ = written (path ++ codes "/" ++ to_string i ++ codes ".in") t.in_ (
    written (path ++ codes "/" ++ to_string i ++ codes ".out") t.out
      (test_files path (suc i) ts then_))

abbrev pub spj_file : Bytes → Option Bool → Option Bytes → Bool × List FileCall
spj_file path none spj = (false, [])
spj_file path (some false) spj = (true, [])
spj_file path (some true) spj = written (path ++ codes "/spj.cpp") spj (true, [])

module _ {D M R J : Type 0} (json : ProblemJson J) (db : ProblemDatabase D M J)
    (redis : Redis R) where
  -- `GetProblemCache`, `AddProblemCache` and `DeleteProblemCache`.
  unfoldable pub get_problem_cache : Bytes → R → Bytes
  get_problem_cache id r = text_or_empty (redis.get (cache_key id) r)

  unfoldable pub add_problem_cache : Bytes → Bytes → R → R
  add_problem_cache id info r = (redis.setex (cache_key id) 86400 info r).1

  unfoldable pub delete_problem_cache : Bytes → R → R
  delete_problem_cache id r = (redis.del (cache_key id) r).1

  unfoldable pub select_uncached : Bytes → World D M R → Option J × World D M R
  select_uncached id w =
      let res = db.select id w.database in
      (
        some res,
        if bytes_eq (json.result res) (codes "Success")
            then record w { cache = add_problem_cache id (json.dump res) w.cache }
            else w,
      )

  -- An exception of `Json::parse` is none.
  unfoldable pub select_problem : Bytes → World D M R → Option J × World D M R
  select_problem id w =
      let text = get_problem_cache id w.cache in
      if bytes_eq text [] then select_uncached id w else (json.parse text, w)

  abbrev pub remember_calls : Bool × List FileCall → World D M R → Bool × World D M R
  remember_calls calls w = (calls.0, record w { file_calls = w.file_calls ++ calls.1 })

  unfoldable pub insert_data_at : Option Bytes → J → World D M R → Bool × World D M R
  insert_data_at none insert_json w = (false, w)
  insert_data_at (some id) insert_json w =
      let path = problem_data_path ++ id in
      let files =
        test_files path 1 (json.test_info insert_json)
          (spj_file path (json.is_spj insert_json) (json.spj insert_json)) in
      remember_calls (files.0, system_call (codes "mkdir " ++ path) ∷ files.1) w

  -- `InsertProblemDataInfo`, and whether it came to its end.
  unfoldable pub insert_problem_data_info : J → World D M R → Bool × World D M R
  insert_problem_data_info insert_json w =
      insert_data_at (json.problem_id insert_json) insert_json w

  abbrev pub answer_if : J → Bool → Option J
  answer_if answer true = some answer
  answer_if answer false = none

  unfoldable pub insert_problem : J → World D M R → Option J × World D M R
  insert_problem insert_json w =
      let done = db.insert insert_json w.database in
      let w' = record w { database = done.1 } in
      let stored =
        insert_problem_data_info (json.set_problem_id (json.problem_id done.0) insert_json) w' in
      if bytes_eq (json.result done.0) (codes "Fail")
      then (some done.0, w')
      else (answer_if done.0 stored.0, stored.1)

  abbrev pub remove_folder : Bytes → World D M R → World D M R
  remove_folder id w = record w {
    file_calls = w.file_calls ++ system_call (codes "rm -rf " ++ problem_data_path ++ id) ∷ [];
  }

  abbrev pub forget : Bytes → World D M R → World D M R
  forget id w = record w { cache = delete_problem_cache id w.cache }

  -- Behind the change of the database. The cache is deleted last, so that it stays when an exception
  -- comes before.
  unfoldable pub update_files : Option Bytes → J → J → World D M R → Option J × World D M R
  update_files none update_json answer w = (none, w)
  update_files (some id) update_json answer w =
      let stored = insert_problem_data_info update_json (remove_folder id w) in
      if stored.0 then (some answer, forget id stored.1) else (none, stored.1)

  unfoldable pub update_problem : J → World D M R → Option J × World D M R
  update_problem update_json w =
      let done = db.update update_json w.database in
      let w' = record w { database = done.1 } in
      if bytes_eq (json.result done.0) (codes "Fail")
      then (some done.0, w')
      else update_files (json.problem_id update_json) update_json done.0 w'

  unfoldable pub delete_files : Option Bytes → J → World D M R → Option J × World D M R
  delete_files none answer w = (none, w)
  delete_files (some id) answer w = (some answer, forget id (remove_folder id w))

  unfoldable pub delete_problem : J → World D M R → Option J × World D M R
  delete_problem delete_json w =
      let done = db.delete delete_json w.database in
      let w' = record w { database = done.1 } in
      if bytes_eq (json.result done.0) (codes "Fail")
      then (some done.0, w')
      else delete_files (json.problem_id delete_json) done.0 w'

  unfoldable pub update_problem_status_num : J → World D M R → Bool × World D M R
  update_problem_status_num update_json w =
      let done = db.count update_json w.counts in (done.0, record w { counts = done.1 })

-- ===== src/Oj/ProblemList/Tests.antt =====
-- A database of texts, a Redis that keeps what it is given, and the theorem on them. An object is its text,
-- the empty one is a failure, and the first character is the identifier.
use myoj.Common.{ℕ, suc, false, true, ◌≡◌, refl, Option, none, some, [], ◌∷◌, if◌then◌else◌}
use myoj.Common.Bytes.{Bytes, codes, bytes_eq}
use myoj.Oj.ProblemList.{
  ProblemJson, ProblemDatabase, Redis, World, get_problem_cache, add_problem_cache,
  delete_problem_cache, select_uncached, select_problem, test_files, insert_problem_data_info,
  insert_data_at, update_files, update_problem,
}
use myoj.Oj.ProblemList.Services.{success, failed}

problem_code : Unit {0}
unfolding get_problem_cache add_problem_cache delete_problem_cache select_uncached select_problem
    insert_problem_data_info insert_data_at update_files test_files update_problem
problem_code = tt

abbrev result_of : Bytes → Bytes
result_of [] = failed
result_of (c ∷ text) = success

abbrev first_of : Bytes → Option Bytes
first_of [] = none
first_of (c ∷ text) = some (c ∷ [])

abbrev text_json : ProblemJson Bytes
text_json = record {
  result = result_of;
  problem_id = first_of;
  test_info = λ j. [];
  is_spj = λ j. some false;
  spj = λ j. none;
  set_problem_id = λ id j. j;
  dump = λ j. j;
  parse = some;
}

abbrev put_at {ℓ} : {A : Type ℓ} → Bytes → A → (Bytes → A) → Bytes → A
put_at k a f j = if bytes_eq j k then a else f j

abbrev Texts : Type 0
Texts = Bytes → Bytes

abbrev update_text : Bytes → Texts → Bytes × Texts
update_text [] d = ([], d)
update_text (c ∷ text) d = (c ∷ text, put_at (c ∷ []) (c ∷ text) d)

abbrev delete_text : Bytes → Texts → Bytes × Texts
delete_text [] d = ([], d)
delete_text (c ∷ text) d = (c ∷ text, put_at (c ∷ []) [] d)

abbrev text_database : ProblemDatabase Texts ℕ Bytes
text_database = record {
  select = λ q d. d q;
  insert = λ j d. ([], d);
  update = update_text;
  delete = delete_text;
  count = λ j n. (true, suc n);
}

abbrev text_redis : Redis (Bytes → Option Bytes)
text_redis = record {
  get = λ k r. some (r k);
  setex = λ k n v r. (true, put_at k (some v) r);
  del = λ k r. (true, put_at k none r);
}

abbrev AnyId : Bytes → Type 0
AnyId q = Unit {0}

abbrev first_world : World Texts ℕ (Bytes → Option Bytes)
first_world = record {
  database = put_at (codes "1") (codes "1 sum") (λ q. []);
  counts = 0;
  cache = λ k. none;
  file_calls = [];
}

-- Read, changed and read again.
abbrev read_once : World Texts ℕ (Bytes → Option Bytes)
read_once = (select_problem text_json text_database text_redis (codes "1") first_world).1

abbrev changed : World Texts ℕ (Bytes → Option Bytes)
changed = (update_problem text_json text_database text_redis (codes "1 product") read_once).1

from_cache :
    get_problem_cache text_json text_database text_redis (codes "1") read_once.cache ≡ codes "1 sum"
unfolding problem_code
from_cache = refl

read_again :
    (select_problem text_json text_database text_redis (codes "1") changed).0
    ≡ some (codes "1 product")
unfolding problem_code
read_again = refl

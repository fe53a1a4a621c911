-- ===== src/Oj/ProblemList/Cache.antt =====
-- ProblemList.cpp: reading a problem through the cache, against reading it from the database.
use myoj.Common.{true, ◌≡◌, ◌≢◌, Option, some}
use myoj.Common.Bytes.{Bytes}
use myoj.Oj.ProblemList.{
  ProblemJson, ProblemDatabase, Redis, World, cache_key, select_problem, update_problem_status_num,
  insert_problem, update_problem, delete_problem,
}
use myoj.Oj.ProblemList.Services.{success, IsJson, IsProblemDatabase, IsRedis, Fades}

module _ {D M R J : Type 0} (json : ProblemJson J) (db : ProblemDatabase D M J) (redis : Redis R)
    (IsId : Bytes → Type 0) where
  -- Requests on problems whose identifiers are written as the database writes them, where Redis carries
  -- Redis carries out the deletion of the problem that a request names.
  abbrev pub Deletes : J → World D M R → Type 0
  Deletes j w =
      (p : Bytes) → json.problem_id j ≡ some p → (redis.del (cache_key p) w.cache).0 ≡ true

  -- Requests on problems whose identifiers are written as the database writes them, where Redis carries
  -- out the deletions and no update ends in an exception, and the passing of time.
  pub data Reachable : World D M R → Type 0 where
    empty : (w : World D M R) → ((j v : Bytes) → redis.get j w.cache ≢ some (some v)) → Reachable w
    selects :
        {w : World D M R} (id : Bytes)
        → Reachable w
        → IsId id
        → Reachable (select_problem json db redis id w).1
    inserts :
        {w : World D M R} (j : J) → Reachable w → Reachable (insert_problem json db redis j w).1
    updates :
        {w : World D M R} (j : J)
        → Reachable w
        → Deletes j w
        → (answer : J) → (update_problem json db redis j w).0 ≡ some answer
        → Reachable (update_problem json db redis j w).1
    deletes :
        {w : World D M R} (j : J)
        → Reachable w
        → Deletes j w
        → Reachable (delete_problem json db redis j w).1
    counts :
        {w : World D M R} (j : J)
        → Reachable w
        → Reachable (update_problem_status_num json db redis j w).1
    fades :
        {w : World D M R} (r : R)
        → Reachable w
        → Fades redis w.cache r
        → Reachable (record w { cache = r })

  -- What is cached is what the database has.
  abbrev IsFresh : D → R → Type 0
  IsFresh d r =
      (q v : Bytes)
      → IsId q
      → redis.get (cache_key q) r ≡ some (some v)
      → (json.dump (db.select q d) ≡ v) × (json.result (db.select q d) ≡ success)

  module _ (is_json : IsJson json) (is_database : IsProblemDatabase json IsId db)
      (is_redis : IsRedis redis) where
    abbrev IsFreshWorld : World D M R → Type 0
    IsFreshWorld w = IsFresh w.database w.cache

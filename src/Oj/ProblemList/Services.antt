-- ===== src/Oj/ProblemList/Services.antt =====
-- What ProblemList.cpp relies on of MongoDB, Redis and the JSON library, as they document it.
use myoj.Common.{ℕ, true, ◌≡◌, ◌≢◌, ◌⊎◌, some}
use myoj.Common.Bytes.{Bytes, codes}
use myoj.Oj.ProblemList.{ProblemJson, ProblemDatabase, Redis}

abbrev pub success : Bytes
success = codes "Success"

abbrev pub failed : Bytes
failed = codes "Fail"

-- What is written as text is read back.
pub record IsJson {J : Type 0} (json : ProblemJson J) : Type 0 where
  pub parse-dump : (j : J) → json.parse (json.dump j) ≡ some j

-- A change of one problem leaves the others, a failed one leaves all, and an insertion leaves those that
-- are there. `IsId` are the texts of identifiers as the database writes them.
pub record IsProblemDatabase {D M J : Type 0} (json : ProblemJson J) (IsId : Bytes → Type 0)
    (db : ProblemDatabase D M J) : Type 0 where
  pub inserted :
      (j : J) (d : D) (q : Bytes)
      → json.result (db.select q d) ≡ success
      → db.select q (db.insert j d).1 ≡ db.select q d
  pub updated :
      (j : J) (d : D) (q : Bytes)
      → IsId q
      → some q ≢ json.problem_id j
      → db.select q (db.update j d).1 ≡ db.select q d
  pub update_failed :
      (j : J) (d : D) (q : Bytes)
      → json.result (db.update j d).0 ≡ failed
      → db.select q (db.update j d).1 ≡ db.select q d
  pub deleted :
      (j : J) (d : D) (q : Bytes)
      → IsId q
      → some q ≢ json.problem_id j
      → db.select q (db.delete j d).1 ≡ db.select q d
  pub delete_failed :
      (j : J) (d : D) (q : Bytes)
      → json.result (db.delete j d).0 ≡ failed
      → db.select q (db.delete j d).1 ≡ db.select q d

-- A value is there only if it was put there, by a call that may have failed on the way back; it may go
-- at any time, and is gone after a deletion that did not fail.
pub record IsRedis {R : Type 0} (redis : Redis R) : Type 0 where
  pub put :
      (k : Bytes) (n : ℕ) (v : Bytes) (r : R) (j w : Bytes)
      → redis.get j (redis.setex k n v r).1 ≡ some (some w)
      → ((j ≡ k) × (w ≡ v)) ⊎ (redis.get j r ≡ some (some w))
  pub removed :
      (k : Bytes) (r : R) (j w : Bytes)
      → (redis.del k r).0 ≡ true
      → redis.get j (redis.del k r).1 ≡ some (some w)
      → (j ≢ k) × (redis.get j r ≡ some (some w))

abbrev pub Fades : {R : Type 0} → Redis R → R → R → Type 0
Fades redis r r' = (j w : Bytes) → redis.get j r' ≡ some (some w) → redis.get j r ≡ some (some w)

-- ===== src/Oj/Judger/Answer.antt =====
-- Judger.cpp: what a passed test says of the run and of its output.
use myoj.Common.{
  ℕ, ◌≤◌, ◌≡◌, ◌≢◌, refl, ◌↔◌, ◌⊎◌, inl, inr, true, false, Bool-cases, Option, none, some, [], ◌∷◌,
  ◌++◌, ltb, arith,
}
use myoj.Common.Bytes.{Bytes, bytes_eq_iff}
use myoj.Judge.{JudgeResult, RunningCondition, run_success}
use myoj.Oj.Judger.{Status, ac, TestInfo, Judger, Os, strcmp_equal}
use myoj.Common.Decimal.{c_string}
use myoj.Oj.Judger.Program.{
  Outcome, passed, judged, failed, ignored, spj_command, check_answer, judge_success, outcome,
  record_outcome, read_test, count_costs, judgment_result,
}
use myoj.Oj.Judger.Verdicts.{objects, IsObjection, outcome-IsObjection}

module _ {W : Type 0} (os : Os W) where
  -- The checker of the problem says yes, or there is none and the texts are the same up to the
  -- first NUL.
  abbrev pub IsCorrect : Judger → TestInfo → Bytes → W → Type 0
  IsCorrect j info index w =
      ((j.is_spj ≡ true) × ((os.system (spj_command os j index) w).0 ≡ some 0))
      ⊎ ((j.is_spj ≡ false) × (c_string info.standard_output ≡ c_string info.personal_output))

  check_answer-passed : (o : Option ℕ × W) → ((check_answer os o).0 ≡ passed) ↔ (o.0 ≡ some 0)
  unfolding check_answer
  check_answer-passed (none, w) = ground arith
  check_answer-passed (some n, w) = ground arith

  judge_success-passed :
      (j : Judger) (info : TestInfo) (res : JudgeResult) (index : Bytes) (w : W)
      → ((judge_success os j info res index w).0 ≡ passed) ↔ (
          (res.cpu_time_cost ≤ j.time_limit)
          × (res.memory_cost ≤ j.memory_limit)
          × IsCorrect j info index w)
  unfolding judge_success strcmp_equal
  judge_success-passed j info res index w = elim (Bool-cases (ltb j.time_limit res.cpu_time_cost)) [
    | inl e ↦ rw e (ground arith)
    | inr e ↦ elim (Bool-cases (ltb j.memory_limit res.memory_cost)) [
      | inl f ↦ rw (e, f) (ground arith)
      | inr f ↦ elim (Bool-cases j.is_spj) [
        | inl g ↦
            rw (e, f, g)
              (ground (arith, check_answer-passed (os.system (spj_command os j index) w)))
        | inr g ↦
            rw (e, f, g)
              (ground (
                arith,
                bytes_eq_iff (c_string info.standard_output) (c_string info.personal_output),
              ))
      ]
    ]
  ]

  outcome-passed :
      (c : RunningCondition) (j : Judger) (info : TestInfo) (res : JudgeResult) (index : Bytes)
      (w : W)
      → ((outcome os c j info res index w).0 ≡ passed)
        ↔ ((c ≡ run_success) × ((judge_success os j info res index w).0 ≡ passed))
  unfolding outcome
  outcome-passed run_success j info res index w = ground arith
  outcome-passed _ j info res index w = ground arith

  objects-ne_ac : (s : Status) → objects (some s) ≡ true → some s ≢ some ac
  objects-ne_ac ac h e = absurd cc
  objects-ne_ac _ h e = absurd cc

  record_outcome-passed :
      (j : Judger) (info : TestInfo) (o : Outcome)
      → IsObjection o
      → info.status ≡ none
      → (t : TestInfo) × ((record_outcome os j info o).tests ≡ j.tests ++ t ∷ [])
        × ((t.status ≡ some ac) ↔ (o ≡ passed))
  unfolding record_outcome
  record_outcome-passed j info passed h k = (record info { status = some ac }, refl, ground arith)
  record_outcome-passed j info (judged s) h k =
      (record info { status = some s }, refl, ground (arith, objects-ne_ac s h))
  record_outcome-passed j info (failed s reason) h k =
      (record info { status = some s }, refl, ground (arith, objects-ne_ac s h))
  record_outcome-passed j info ignored h k = (info, refl, ground (arith, k))

  -- A test counts as passed exactly when the program ran to its end, within the time limit and
  -- with no more memory than the limit's number, and its answer is right.
  pub judgment_result-passed :
      (res : JudgeResult) (index : Bytes) (j : Judger) (w : W)
      → (t : TestInfo) × ((judgment_result os res index j w).0.tests ≡ j.tests ++ t ∷ [])
        × ((t.status ≡ some ac) ↔ (
            (res.condition ≡ run_success)
            × (res.cpu_time_cost ≤ j.time_limit)
            × (res.memory_cost ≤ j.memory_limit)
            × IsCorrect j (read_test os j res index w) index w))
  unfolding judgment_result count_costs read_test spj_command
  judgment_result-passed res index j w =
      let counted : Judger = count_costs os j res in
      let info : TestInfo = read_test os counted res index w in
      let (t, e, h) =
        record_outcome-passed counted info (outcome os res.condition counted info res index w).0
          (outcome-IsObjection os res.condition counted info res index w) refl in
      (
        t,
        e,
        ground (
          arith,
          h,
          outcome-passed res.condition counted info res index w,
          judge_success-passed counted info res index w,
        ),
      )

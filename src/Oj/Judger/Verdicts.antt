-- ===== src/Oj/Judger/Verdicts.antt =====
-- Judger.cpp: which tests a status of a submission stands for.
use myoj.Common.{
  ℕ, zero, suc, ◌≡◌, ◌≢◌, refl, sym, ap, ◌↔◌, inl, inr, Bool, true, false, Bool-cases, Option, none,
  some, List, [], ◌∷◌, ◌++◌, append-nil, append_assoc, length, All, ltb, ◌==◌, arith,
}
use myoj.Common.Bytes.{Bytes}
use myoj.Judge.{
  ExecConfig, JudgeResult, RunningCondition, run_success, runtime_error, time_limit_exceed,
  memory_limit_exceed, segmentation_fault,
}
use myoj.Oj.Judger.{Status, pj, ac, TestInfo, Judger, Os, strcmp_equal}
use myoj.Oj.Judger.Program.{
  Outcome, passed, judged, failed, ignored, check_answer, judge_success, outcome, record_outcome,
  read_test, count_costs, judgment_result, run_test, run_tests,
}
use myoj.Oj.Judger.Run.{settle}

-- A status that keeps the submission from being accepted.
abbrev pub objects : Option Status → Bool
objects none = false
objects (some ac) = false
objects (some pj) = false
objects (some s) = true

-- The tests that a step adds, and what they do to acceptance.
abbrev pub Adds : Judger → List TestInfo → Judger → Type 0
Adds j new j' =
    (j'.tests ≡ j.tests ++ new)
    × ((settle j'.result ≡ ac)
        ↔ ((settle j.result ≡ ac) × All (λ (t : TestInfo). objects t.status ≡ false) new))
    × All (λ (t : TestInfo). t.status ≢ some pj) new

-- What an outcome sets is never a status that counts as accepted.
abbrev pub IsObjection : Outcome → Type 0
IsObjection passed = Unit
IsObjection (judged s) = objects (some s) ≡ true
IsObjection (failed s reason) = objects (some s) ≡ true
IsObjection ignored = Unit

module _ {W : Type 0} (os : Os W) where
  check_answer-IsObjection : (o : Option ℕ × W) → IsObjection (check_answer os o).0
  unfolding check_answer settle
  check_answer-IsObjection (none, w) = refl
  check_answer-IsObjection (some n, w) = elim (Bool-cases (n == 0)) [
    | inl e ↦ rw e tt
    | inr e ↦ rw e refl
  ]

  judge_success-IsObjection :
      (j : Judger) (info : TestInfo) (res : JudgeResult) (index : Bytes) (w : W)
      → IsObjection (judge_success os j info res index w).0
  unfolding judge_success settle
  judge_success-IsObjection j info res index w =
      elim (Bool-cases (ltb j.time_limit res.cpu_time_cost)) [
        | inl e ↦ rw e refl
        | inr e ↦ elim (Bool-cases (ltb j.memory_limit res.memory_cost)) [
          | inl f ↦ rw (e, f) refl
          | inr f ↦ elim (Bool-cases j.is_spj) [
            | inl g ↦ rw (e, f, g) (check_answer-IsObjection _)
            | inr g ↦ elim (Bool-cases (strcmp_equal info.standard_output info.personal_output)) [
              | inl h ↦ rw (e, f, g, h) tt
              | inr h ↦ rw (e, f, g, h) refl
            ]
          ]
        ]
      ]

  -- The conditions that are not looked at object to nothing.
  pub outcome-IsObjection :
      (c : RunningCondition) (j : Judger) (info : TestInfo) (res : JudgeResult) (index : Bytes)
      (w : W)
      → IsObjection (outcome os c j info res index w).0
  unfolding outcome settle
  outcome-IsObjection run_success j info res index w = judge_success-IsObjection j info res index w
  outcome-IsObjection runtime_error j info res index w = refl
  outcome-IsObjection time_limit_exceed j info res index w = refl
  outcome-IsObjection memory_limit_exceed j info res index w = refl
  outcome-IsObjection segmentation_fault j info res index w = refl
  outcome-IsObjection _ j info res index w = tt

  settle-objects : (s : Status) → objects (some s) ≡ true → settle s ≢ ac
  unfolding settle
  settle-objects pj h e = absurd cc
  settle-objects ac h e = absurd cc
  settle-objects _ h e = absurd cc

  objects-ne_pj : (s : Status) → objects (some s) ≡ true → some s ≢ some pj
  objects-ne_pj pj h e = absurd cc
  objects-ne_pj _ h e = absurd cc

  record_outcome-Adds :
      (j : Judger) (info : TestInfo) (o : Outcome)
      → IsObjection o
      → info.status ≡ none
      → (t : TestInfo) × Adds j (t ∷ []) (record_outcome os j info o)
  unfolding record_outcome
  record_outcome-Adds j info passed h k =
      (record info { status = some ac }, (refl, ground arith, (λ e. absurd cc, tt)))
  record_outcome-Adds j info (judged s) h k = (
    record info { status = some s },
    (refl, ground (arith, settle-objects s h), (objects-ne_pj s h, tt)),
  )
  record_outcome-Adds j info (failed s reason) h k = (
    record info { status = some s },
    (refl, ground (arith, settle-objects s h), (objects-ne_pj s h, tt)),
  )
  record_outcome-Adds j info ignored h k = (info, (refl, ground arith, (λ e. absurd cc, tt)))

  judgment_result-Adds :
      (res : JudgeResult) (index : Bytes) (j : Judger) (w : W)
      → (t : TestInfo) × Adds j (t ∷ []) (judgment_result os res index j w).0
  unfolding judgment_result count_costs read_test
  judgment_result-Adds res index j w =
      record_outcome-Adds (count_costs os j res) (read_test os (count_costs os j res) res index w) _
        (outcome-IsObjection res.condition _ _ res index w) refl

  run_test-Adds :
      (conf : ExecConfig) (res : JudgeResult) (i : ℕ) (j : Judger) (w : W)
      → (t : TestInfo) × Adds j (t ∷ []) (run_test os conf res i j w).1
  unfolding run_test
  run_test-Adds conf res i j w = judgment_result-Adds _ _ j _

  Adds-∷ :
      (j j' j'' : Judger) (t : TestInfo) (new : List TestInfo)
      → Adds j (t ∷ []) j'
      → Adds j' new j''
      → Adds j (t ∷ new) j''
  Adds-∷ j j' j'' t new (e, h, p) (f, k, q) =
      (rw (f, e) (append_assoc j.tests (t ∷ []) new), ground (arith, h, k), (p.0, q))

  -- The rounds add one test each. The status they leave is one that becomes "accepted" exactly when
  -- it was one before and no test objects; whichever test comes last does not matter. No test is left
  -- pending.
  pub run_tests-Adds :
      (conf : ExecConfig) (res : JudgeResult) (left i : ℕ) (j : Judger) (w : W)
      → (new : List TestInfo) × (length new ≡ left)
        × Adds j new (run_tests os conf res left i j w).0
  unfolding run_tests
  run_tests-Adds conf res zero i j w = ([], refl, (sym (append-nil _), ground arith, tt))
  run_tests-Adds conf res (suc left) i j w =
      let step : JudgeResult × Judger × W = run_test os conf res i j w in
      let (t, first) = run_test-Adds conf res i j w in
      let (new, e, rest) = run_tests-Adds conf step.0 left (suc i) step.1 step.2 in
      (
        t ∷ new,
        ap suc e,
        Adds-∷ j step.1 (run_tests os conf step.0 left (suc i) step.1 step.2).0 t new first rest,
      )

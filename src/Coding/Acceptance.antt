-- ===== src/Coding/Acceptance.antt =====
-- Which submissions pass.
use ai_interviewer.Prelude.{
  ℕ, suc, ◌≡◌, refl, sym, ap, ◌∙◌, ◌↔◌, inl, inr, Bool, true, false, not, ◌&&◌, Option, none, some,
  List, [], ◌∷◌, map, arith, ◌==◌, Bool-cases, is_some, length, any, all,
}
use ai_interviewer.Prelude.Result.{Result, ok, err}
use ai_interviewer.Coding.Comparator.{Text, is_empty, compare_outputs}
use ai_interviewer.Coding.Status.{
  pending, passed, running, SubmissionData, TestCase, TestCaseExecutionResult, ExecutionResult,
}
use ai_interviewer.Coding.Store.{
  CodeSubmission, CodeExecutionResult, Store, no_update, update_status, create,
}
use ai_interviewer.Coding.Execution.{
  ExecuteSubmissionCommand, Setting, Run, SandboxExecutionResult, execute_all_test_cases,
  determine_final_status, succeeded, with_result, judged, request_ok, request_of, exits_zero,
  classify_test_case_result,
}
use ai_interviewer.Coding.Service.{execute, concluded, scored, weights_of, result_of}
use ai_interviewer.Coding.Settlement.{calculate_score_answers}
use ai_interviewer.Coding.Completion.{started, length-weights, length-succeeded}

-- The program ran to its end, within the limits, and printed what was expected.
abbrev pub ran_well : TestCase → Result Text SandboxExecutionResult → Bool
ran_well tc (err e) = false
ran_well tc (ok r) =
    is_empty r.compilation_output
    && (not r.timed_out
        && (not r.memory_exceeded
            && (exits_zero r.exit_code && compare_outputs tc.expected_output r.stdout)))

abbrev pub accepted : Setting → SubmissionData → TestCase → Bool
accepted s code tc = ran_well tc (s.run (request_of code tc))

judged_lem :
    (tc : TestCase) (x : Result Text SandboxExecutionResult)
    → succeeded (judged tc x) ≡ ran_well tc x
unfolding judged classify_test_case_result
judged_lem tc (err e) = refl
judged_lem tc (ok r) = ground arith

abbrev pub has_case : ℕ → TestCase → Bool
has_case t tc = tc.test_case_id == t

-- Each test case has an id of its own.
unfoldable pub distinct : List TestCase → Bool
distinct [] = true
distinct (tc ∷ tcs) = not (any (has_case tc.test_case_id) tcs) && distinct tcs

-- No result is stored for any.
abbrev pub unstored : Store → ℕ → TestCase → Bool
unstored db id tc = not (is_some (db.results id tc.test_case_id))

abbrev results_of : Setting → SubmissionData → List TestCase → List TestCaseExecutionResult
results_of s code tcs = map (λ (tc : TestCase). judged tc (s.run (request_of code tc))) tcs

judged_id :
    (tc : TestCase) (x : Result Text SandboxExecutionResult)
    → (judged tc x).test_case_id ≡ tc.test_case_id
unfolding judged
judged_id tc (err e) = refl
judged_id tc (ok r) = elim (Bool-cases (is_empty r.compilation_output)) [
  | inl none_there ↦ rw none_there refl
  | inr some_there ↦ rw some_there refl
]

still_unstored :
    (id : ℕ) (r : TestCaseExecutionResult) (db : Store) (tcs : List TestCase)
    → any (has_case r.test_case_id) tcs ≡ false
    → all (unstored db id) tcs ≡ true
    → all (unstored (create id r db) id) tcs ≡ true
unfolding create
still_unstored id r db [] apart free = refl
still_unstored id r db (tc ∷ tcs) apart free =
    let other : (tc.test_case_id == r.test_case_id) ≡ false = ground (arith, apart) in
    let self : (id == id) ≡ true = ground arith in
    rw (self, other) (ground (arith, free, apart, still_unstored id r db tcs))

unstored_none : (o : Option CodeExecutionResult) → not (is_some o) ≡ true → o ≡ none
unstored_none none e = refl
unstored_none (some row) e = cc

with_result_ok :
    (r : TestCaseExecutionResult) (run : Run) (rs : List TestCaseExecutionResult)
    → run.0 ≡ ok rs
    → (with_result r run).0 ≡ ok (r ∷ rs)
with_result_ok r (err e, db) rs h = cc
with_result_ok r (ok xs, db) rs h = ap ok (ap (λ l. r ∷ l) (cc h))

execute_all_lem :
    (s : Setting) (id : ℕ) (code : SubmissionData) (tcs : List TestCase) (db : Store)
    → distinct tcs ≡ true
    → all (unstored db id) tcs ≡ true
    → all (λ tc. request_ok (request_of code tc)) tcs ≡ true
    → (execute_all_test_cases s id code tcs db).0 ≡ ok (results_of s code tcs)
unfolding execute_all_test_cases distinct
execute_all_lem s id code [] db apart free good = refl
execute_all_lem s id code (tc ∷ tcs) db apart free good =
    let fresh : db.results id tc.test_case_id ≡ none =
      unstored_none (db.results id tc.test_case_id) (ground (arith, free)) in
    let fine : request_ok (request_of code tc) ≡ true = ground (arith, good) in
    let r = judged tc (s.run (request_of code tc)) in
    let apart_r : any (has_case r.test_case_id) tcs ≡ false =
      ap (λ t. any (has_case t) tcs) (judged_id tc (s.run (request_of code tc)))
      ∙ ground (arith, apart) in
    rw (fresh, fine, execute_all_test_cases)
      (with_result_ok r (execute_all_test_cases s id code tcs (create id r db))
        (results_of s code tcs)
        (execute_all_lem s id code tcs (create id r db) (ground (arith, apart))
          (still_unstored id r db tcs apart_r (ground (arith, free))) (ground (arith, good))))

passed_lem :
    (rs : List TestCaseExecutionResult)
    → (determine_final_status rs ≡ passed) ↔ ((is_empty rs ≡ false) × (all succeeded rs ≡ true))
unfolding determine_final_status
passed_lem rs = (λ e. ground (arith, e), λ (some_there, good). rw (some_there, good) refl)

all-succeeded :
    (s : Setting) (code : SubmissionData) (tcs : List TestCase)
    → all succeeded (results_of s code tcs) ≡ all (accepted s code) tcs
all-succeeded s code [] = refl
all-succeeded s code (tc ∷ tcs) =
    rw (judged_lem tc (s.run (request_of code tc)), all-succeeded s code tcs) refl

is_empty-map :
    (s : Setting) (code : SubmissionData) (tcs : List TestCase)
    → is_empty (results_of s code tcs) ≡ is_empty tcs
is_empty-map s code [] = refl
is_empty-map s code (tc ∷ tcs) = refl

length-results :
    (s : Setting) (code : SubmissionData) (tcs : List TestCase)
    → length (results_of s code tcs) ≡ length tcs
length-results s code [] = refl
length-results s code (tc ∷ tcs) = ap suc (length-results s code tcs)

-- An answer's status, once all test cases have run.
concluded_status :
    (s : Setting) (command : ExecuteSubmissionCommand) (rs : List TestCaseExecutionResult)
    (run : Run)
    → run.0 ≡ ok rs
    → length rs ≡ length command.test_cases
    → (r : ExecutionResult) × (after : Store) × (concluded s command run ≡ (ok r, after))
      × (r.execution_status ≡ determine_final_status rs)
unfolding concluded scored
concluded_status s command rs run e n =
    let (score, scores) =
      calculate_score_answers s.percent (weights_of command.test_cases) (map succeeded rs)
        (length-weights command.test_cases ∙ sym n ∙ sym (length-succeeded rs)) in
    (
      result_of s command rs score,
      _,
      ap (λ x. concluded s command (x, run.1)) e ∙ ap (scored s command rs run.1) scores,
      refl,
    )

-- With test cases that have ids of their own, no result of which is stored, and requests within the
-- sandbox's constraints: the execution of a pending submission answers `passed` exactly if there is a test case and the program ran well on each: it compiled,
-- ended within its limits with exit code 0, and its output compared equal to the expected one.
pub execute_passes :
    (s : Setting) (command : ExecuteSubmissionCommand) (db : Store) (row : CodeSubmission)
    → db.submissions command.submission_id ≡ some row
    → row.execution_status ≡ pending
    → distinct command.test_cases ≡ true
    → all (unstored db command.submission_id) command.test_cases ≡ true
    → all (λ tc. request_ok (request_of command.submission_data tc)) command.test_cases ≡ true
    → (r : ExecutionResult) × (after : Store) × (execute s command db ≡ (ok r, after))
      × ((r.execution_status ≡ passed) ↔ (
          (is_empty command.test_cases ≡ false)
          × (all (accepted s command.submission_data) command.test_cases ≡ true)))
unfolding update_status
execute_passes s command db row had waiting apart free good =
    let code = command.submission_data in
    let tcs = command.test_cases in
    let rs = results_of s code tcs in
    let busy = update_status command.submission_id running no_update db in
    let (r, after, e, status) =
      concluded_status s command rs (execute_all_test_cases s command.submission_id code tcs busy)
        (execute_all_lem s command.submission_id code tcs busy apart free good)
        (length-results s code tcs) in
    let (there, back) = passed_lem rs in
    (
      r,
      after,
      started s command db row had waiting ∙ e,
      (
        λ h.
            let (some_there, all_good) = there (sym status ∙ h) in
            (sym (is_empty-map s code tcs) ∙ some_there, sym (all-succeeded s code tcs) ∙ all_good),
        λ (some_there, all_good).
            status
            ∙ back (is_empty-map s code tcs ∙ some_there, all-succeeded s code tcs ∙ all_good),
      ),
    )

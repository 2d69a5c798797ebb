-- ===== src/Coding/Execution.antt =====
-- app/coding/execution/service.py. What the sandbox makes of a request, and the rounding, are
-- parameters; of an exception only its text is kept.
use ai_interviewer.Prelude.{
  ℕ, ℤ, String, Bool, true, false, not, ◌&&◌, ◌||◌, Option, none, some, List, [], ◌∷◌, str_eq, ltb,
  leb, ◌==◌, if◌then◌else◌, length, any, all,
}
use ai_interviewer.Prelude.Result.{Result, ok, err}
use ai_interviewer.Coding.Comparator.{Text, is_empty, compare_outputs}
use ai_interviewer.Coding.Status.{
  ExecutionStatus, passed, failed, error, timeout, memory_exceeded, TestCaseStatus, case_passed,
  case_failed, case_timeout, case_memory_exceeded, runtime_error, ExitCode, minus_one, exited,
  SubmissionData, TestCase, TestCaseExecutionResult, generate_feedback,
}
use ai_interviewer.Coding.Store.{CodeExecutionResult, Store, create}

pub record SandboxExecutionRequest : Type 0 where
  pub language : String
  pub source_code : Text
  pub input_data : Text
  pub time_limit_ms : ℕ
  pub memory_limit_kb : ℕ

pub record SandboxExecutionResult : Type 0 where
  pub stdout : Text
  pub stderr : Text
  pub exit_code : ExitCode
  pub runtime_ms : ℕ
  pub memory_kb : ℕ
  pub timed_out : Bool
  pub memory_exceeded : Bool
  pub compilation_output : Text

pub record ExecuteSubmissionCommand : Type 0 where
  pub submission_id : ℕ
  pub submission_data : SubmissionData
  pub test_cases : List TestCase

-- The sandbox, the rounding, the clock, and the text of a refused request.
pub record Setting : Type 0 where
  pub run : SandboxExecutionRequest → Result Text SandboxExecutionResult
  pub percent : ℤ → ℤ → ℤ
  pub now : ℕ
  pub refusal : Text

-- The fields' constraints of `SandboxExecutionRequest`.
unfoldable pub request_ok : SandboxExecutionRequest → Bool
request_ok q =
    (str_eq q.language "cpp" || (str_eq q.language "java" || str_eq q.language "python3"))
    && (leb (length q.source_code) 50000
        && (leb (length q.input_data) 10485760
            && ((leb 100 q.time_limit_ms && leb q.time_limit_ms 30000)
                && (leb 4096 q.memory_limit_kb && leb q.memory_limit_kb 1048576))))

abbrev pub request_of : SubmissionData → TestCase → SandboxExecutionRequest
request_of code tc = record {
  language = code.language;
  source_code = code.source_code;
  input_data = tc.input_data;
  time_limit_ms = tc.time_limit_ms;
  memory_limit_kb = tc.memory_limit_kb;
}

abbrev pub exits_zero : ExitCode → Bool
exits_zero minus_one = false
exits_zero (exited n) = n == 0

abbrev pub is_passed : TestCaseStatus → Bool
is_passed case_passed = true
is_passed _ = false

unfoldable pub classify_test_case_result : SandboxExecutionResult → TestCase → TestCaseStatus
classify_test_case_result r tc =
    if r.timed_out
    then case_timeout
    else if r.memory_exceeded
    then case_memory_exceeded
    else if not (exits_zero r.exit_code)
    then runtime_error
    else if not (compare_outputs tc.expected_output r.stdout)
    then case_failed
    else case_passed

abbrev pub broken : TestCase → ExitCode → Text → String → TestCaseExecutionResult
broken tc code text feedback = record {
  test_case_id = tc.test_case_id;
  status = runtime_error;
  passed = false;
  actual_output = [];
  runtime_ms = 0;
  memory_kb = 0;
  exit_code = code;
  stderr = text;
  feedback = feedback;
}

-- A result of the sandbox, for a test case.
unfoldable pub judged : TestCase → Result Text SandboxExecutionResult → TestCaseExecutionResult
unfolding classify_test_case_result generate_feedback
judged tc (err e) = broken tc minus_one e "System Error"
judged tc (ok r) =
    if not (is_empty r.compilation_output)
    then broken tc r.exit_code r.compilation_output "Compilation Error"
    else let status = classify_test_case_result r tc in
      record {
        test_case_id = tc.test_case_id;
        status = status;
        passed = is_passed status;
        actual_output = r.stdout;
        runtime_ms = r.runtime_ms;
        memory_kb = r.memory_kb;
        exit_code = r.exit_code;
        stderr = r.stderr;
        feedback = generate_feedback status;
      }

-- A stored result, read back.
abbrev pub existing : ℕ → CodeExecutionResult → TestCaseExecutionResult
existing id row = record {
  test_case_id = id;
  status = if row.passed then case_passed else case_failed;
  passed = row.passed;
  actual_output = row.actual_output;
  runtime_ms = row.runtime_ms;
  memory_kb = row.memory_kb;
  exit_code = row.exit_code;
  stderr = row.runtime_output;
  feedback = row.feedback;
}

abbrev pub Run : Type 0
Run = Result Text (List TestCaseExecutionResult) × Store

abbrev pub with_result : TestCaseExecutionResult → Run → Run
with_result r (err e, db) = (err e, db)
with_result r (ok rs, db) = (ok (r ∷ rs), db)

unfoldable pub execute_all_test_cases : Setting → ℕ → SubmissionData → List TestCase → Store → Run
execute_all_test_cases s id code [] db = (ok [], db)
execute_all_test_cases s id code (tc ∷ tcs) db = elim (db.results id tc.test_case_id) [
  | some row ↦ with_result (existing tc.test_case_id row) (execute_all_test_cases s id code tcs db)
  | none ↦ elim (request_ok (request_of code tc)) [
    | false ↦ (err s.refusal, db)
    | true ↦
        let r = judged tc (s.run (request_of code tc)) in
        with_result r (execute_all_test_cases s id code tcs (create id r db))
  ]
]

abbrev pub has_status : (TestCaseStatus → Bool) → TestCaseExecutionResult → Bool
has_status p r = p r.status

abbrev pub is_timeout : TestCaseStatus → Bool
is_timeout case_timeout = true
is_timeout _ = false

abbrev pub is_memory : TestCaseStatus → Bool
is_memory case_memory_exceeded = true
is_memory _ = false

abbrev pub is_runtime : TestCaseStatus → Bool
is_runtime runtime_error = true
is_runtime _ = false

abbrev pub succeeded : TestCaseExecutionResult → Bool
succeeded r = r.passed

unfoldable pub determine_final_status : List TestCaseExecutionResult → ExecutionStatus
determine_final_status results =
    if is_empty results
    then error
    else if all succeeded results
    then passed
    else if any (has_status is_timeout) results
    then timeout
    else if any (has_status is_memory) results
    then memory_exceeded
    else if any (has_status is_runtime) results
    then error
    else failed

unfoldable pub extract_compiler_output : List TestCaseExecutionResult → Option Text
extract_compiler_output [] = none
extract_compiler_output (r ∷ rs) =
    let rest = extract_compiler_output rs in
    if str_eq r.feedback "Compilation Error" && not (is_empty r.stderr) then some r.stderr else rest

abbrev pub max : ℕ → ℕ → ℕ
max a b = if ltb a b then b else a

unfoldable pub peak : List TestCaseExecutionResult → ℕ
peak [] = 0
peak (r ∷ rs) = max r.memory_kb (peak rs)

-- ===== src/Coding/Service.antt =====
-- app/coding/execution/service.py: `ExecutionService.execute` and the finalisation. Nobody else
-- changes the row in between, which `get_for_update` locks.
use ai_interviewer.Prelude.{ℕ, ℤ, pos, not, Option, none, some, List, [], map, if◌then◌else◌}
use ai_interviewer.Prelude.Result.{Result, ok, err}
use ai_interviewer.Coding.Comparator.{Text}
use ai_interviewer.Coding.Status.{
  ExecutionStatus, running, error, is_terminal_state, is_valid_transition, TestCase,
  TestCaseExecutionResult, ExecutionResult, LengthMismatch, sum, calculate_score,
}
use ai_interviewer.Coding.Store.{CodeSubmission, Store, StatusUpdate, no_update, update_status}
use ai_interviewer.Coding.Execution.{
  ExecuteSubmissionCommand, Setting, Run, execute_all_test_cases, determine_final_status,
  extract_compiler_output, peak, succeeded,
}

abbrev pub error_result : ℕ → ExecutionResult
error_result id = record {
  submission_id = id;
  execution_status = error;
  score = pos 0;
  total_execution_time_ms = 0;
  peak_memory_kb = 0;
  compiler_output = none;
  test_results = [];
}

finalize_row : ℕ → ExecutionStatus → StatusUpdate → Store → Option CodeSubmission → Store
finalize_row id final u db none = db
finalize_row id final u db (some row) =
    if is_terminal_state row.execution_status
    then db
    else if not (is_valid_transition row.execution_status final)
    then db
    else update_status id final u db

-- `_finalize_submission`
unfoldable pub finalize_submission : ℕ → ExecutionStatus → StatusUpdate → Store → Store
unfolding finalize_row
finalize_submission id final u db = finalize_row id final u db (db.submissions id)

abbrev pub figures : Setting → ℤ → ℕ → ℕ → Option Text → StatusUpdate
figures s score time memory output = record {
  score = some score;
  execution_time_ms = some time;
  memory_kb = some memory;
  compiler_output = output;
  executed_at = some s.now;
}

abbrev pub Answer : Type 0
Answer = Result LengthMismatch ExecutionResult × Store

abbrev pub runtimes : List TestCaseExecutionResult → List ℕ
runtimes rs = map (λ (r : TestCaseExecutionResult). r.runtime_ms) rs

abbrev pub weights_of : List TestCase → List ℤ
weights_of tcs = map (λ (tc : TestCase). tc.weight) tcs

module _ (s : Setting) (command : ExecuteSubmissionCommand) where
  abbrev pub id : ℕ
  id = command.submission_id

  abbrev pub result_of : List TestCaseExecutionResult → ℤ → ExecutionResult
  result_of rs score = record {
    submission_id = id;
    execution_status = determine_final_status rs;
    score = score;
    total_execution_time_ms = sum (runtimes rs);
    peak_memory_kb = peak rs;
    compiler_output = extract_compiler_output rs;
    test_results = rs;
  }

  -- From the score on.
  unfoldable pub scored : List TestCaseExecutionResult → Store → Result LengthMismatch ℤ → Answer
  scored rs db (err e) = (err e, db)
  scored rs db (ok score) = (
    ok (result_of rs score),
    finalize_submission id (determine_final_status rs)
        (figures s score (sum (runtimes rs)) (peak rs) (extract_compiler_output rs)) db,
  )

  unfoldable pub concluded : Run → Answer
  concluded (err e, db) =
      (ok (error_result id), finalize_submission id error (figures s (pos 0) 0 0 none) db)
  concluded (ok rs, db) =
      scored rs db (calculate_score s.percent (weights_of command.test_cases) (map succeeded rs))

  execute_row : Store → Option CodeSubmission → Answer
  execute_row db none = (ok (error_result id), db)
  execute_row db (some row) =
      if is_terminal_state row.execution_status
      then (ok (error_result id), db)
      else if not (is_valid_transition row.execution_status running)
      then (ok (error_result id), db)
      else concluded (
          execute_all_test_cases s id command.submission_data command.test_cases
            (update_status id running no_update db))

  unfoldable pub execute : Store → Answer
  unfolding execute_row
  execute db = execute_row db (db.submissions id)

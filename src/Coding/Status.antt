-- ===== src/Coding/Status.antt =====
-- app/coding/enums.py, execution/state_machine.py and execution/contracts.py,
-- evaluation/scorer.py. A weight is a whole number of some common unit, and may be negative, as
-- the column may; scores are in hundredths of a per cent; `percent a b` is (a / b) * 100 as floats
-- give it and `round` cuts it to the hundredth, a parameter.
use ai_interviewer.Prelude.{
  ℕ, ◌+◌, ℤ, pos, ◌+ℤ◌, is_zero, String, Bool, true, false, not, Option, List, [], ◌∷◌, ◌==◌,
  if◌then◌else◌, length,
}
use ai_interviewer.Prelude.Result.{Result, ok, ◌>>◌, raise_if}
use ai_interviewer.Coding.Comparator.{Text}

pub data ExecutionStatus : Type 0 where
  pending running passed failed error timeout memory_exceeded : ExecutionStatus

pub data TestCaseStatus : Type 0 where
  case_passed case_failed case_timeout case_memory_exceeded runtime_error : TestCaseStatus

unfoldable pub is_terminal_state : ExecutionStatus → Bool
is_terminal_state pending = false
is_terminal_state running = false
is_terminal_state _ = true

-- `VALID_TRANSITIONS`
unfoldable pub is_valid_transition : ExecutionStatus → ExecutionStatus → Bool
is_valid_transition pending running = true
is_valid_transition pending _ = false
is_valid_transition running pending = false
is_valid_transition running running = false
is_valid_transition running _ = true
is_valid_transition _ _ = false

-- The exit code of a process; the defaults use -1.
pub data ExitCode : Type 0 where
  minus_one : ExitCode
  exited : ℕ → ExitCode

pub record SubmissionData : Type 0 where
  pub language : String
  pub source_code : Text

pub record TestCase : Type 0 where
  pub test_case_id : ℕ
  pub input_data : Text
  pub expected_output : Text
  pub weight : ℤ
  pub time_limit_ms : ℕ
  pub memory_limit_kb : ℕ

pub record TestCaseExecutionResult : Type 0 where
  pub test_case_id : ℕ
  pub status : TestCaseStatus
  pub passed : Bool
  pub actual_output : Text
  pub runtime_ms : ℕ
  pub memory_kb : ℕ
  pub exit_code : ExitCode
  pub stderr : Text
  pub feedback : String

pub record ExecutionResult : Type 0 where
  pub submission_id : ℕ
  pub execution_status : ExecutionStatus
  pub score : ℤ
  pub total_execution_time_ms : ℕ
  pub peak_memory_kb : ℕ
  pub compiler_output : Option Text
  pub test_results : List TestCaseExecutionResult

pub record LengthMismatch : Type 0 where
  pub weights : ℕ
  pub passed : ℕ

unfoldable pub sum : List ℕ → ℕ
sum [] = 0
sum (n ∷ ns) = n + sum ns

unfoldable pub total_weight : List ℤ → ℤ
total_weight [] = pos 0
total_weight (w ∷ ws) = w +ℤ total_weight ws

unfoldable pub earned_weight : List ℤ → List Bool → ℤ
earned_weight (w ∷ ws) (p ∷ ps) = (if p then w else pos 0) +ℤ earned_weight ws ps
earned_weight _ _ = pos 0

unfoldable pub calculate_score : (ℤ → ℤ → ℤ) → List ℤ → List Bool → Result LengthMismatch ℤ
calculate_score percent weights flags = do
  raise_if (not (length weights == length flags))
      (record { weights = length weights; passed = length flags })
  if is_zero (total_weight weights)
      then ok (pos 0)
      else ok (percent (earned_weight weights flags) (total_weight weights))

unfoldable pub generate_feedback : TestCaseStatus → String
generate_feedback case_passed = "Passed"
generate_feedback case_failed = "Wrong Answer"
generate_feedback case_timeout = "Time Limit Exceeded"
generate_feedback case_memory_exceeded = "Memory Limit Exceeded"
generate_feedback runtime_error = "Runtime Error"

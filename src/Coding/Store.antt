-- ===== src/Coding/Store.antt =====
-- app/coding/persistence/: the rows of code submissions and of their results, and the operations of
-- the two repositories that an execution uses. The columns that `mappers.py` does not read back are
-- absent.
use ai_interviewer.Prelude.{ℤ, ℕ, String, Bool, ◌&&◌, Option, none, some, ◌==◌, if◌then◌else◌}
use ai_interviewer.Coding.Comparator.{Text}
use ai_interviewer.Coding.Status.{ExecutionStatus, TestCaseExecutionResult, ExitCode}

-- What an execution reads and writes of `CodeSubmission`.
pub record CodeSubmission : Type 0 where
  pub execution_status : ExecutionStatus
  pub score : Option ℤ
  pub execution_time_ms : Option ℕ
  pub memory_kb : Option ℕ
  pub compiler_output : Option Text
  pub executed_at : Option ℕ

-- A result as `create` stores it.
pub record CodeExecutionResult : Type 0 where
  pub passed : Bool
  pub actual_output : Text
  pub runtime_ms : ℕ
  pub memory_kb : ℕ
  pub exit_code : ExitCode
  pub runtime_output : Text
  pub feedback : String

pub record Store : Type 0 where
  pub submissions : ℕ → Option CodeSubmission
  -- by submission and test case
  pub results : ℕ → ℕ → Option CodeExecutionResult

-- The optional fields of `update_status`.
pub record StatusUpdate : Type 0 where
  pub score : Option ℤ
  pub execution_time_ms : Option ℕ
  pub memory_kb : Option ℕ
  pub compiler_output : Option Text
  pub executed_at : Option ℕ

abbrev pub no_update : StatusUpdate
no_update = record {
  score = none;
  execution_time_ms = none;
  memory_kb = none;
  compiler_output = none;
  executed_at = none;
}

abbrev pub set_or_keep {ℓ} : {A : Type ℓ} → Option A → Option A → Option A
set_or_keep none old = old
set_or_keep (some a) old = some a

-- No branch of the source writes the compiler's output.
abbrev pub updated : ExecutionStatus → StatusUpdate → CodeSubmission → CodeSubmission
updated status u row = record row {
  execution_status = status;
  score = set_or_keep u.score row.score;
  execution_time_ms = set_or_keep u.execution_time_ms row.execution_time_ms;
  memory_kb = set_or_keep u.memory_kb row.memory_kb;
  executed_at = set_or_keep u.executed_at row.executed_at;
}

abbrev pub map_row :
    (CodeSubmission → CodeSubmission) → Option CodeSubmission → Option CodeSubmission
map_row f none = none
map_row f (some row) = some (f row)

unfoldable pub update_status : ℕ → ExecutionStatus → StatusUpdate → Store → Store
update_status id status u db = record db {
  submissions =
      λ i. if i == id then map_row (updated status u) (db.submissions i) else db.submissions i;
}

abbrev pub stored : TestCaseExecutionResult → CodeExecutionResult
stored r = record {
  passed = r.passed;
  actual_output = r.actual_output;
  runtime_ms = r.runtime_ms;
  memory_kb = r.memory_kb;
  exit_code = r.exit_code;
  runtime_output = r.stderr;
  feedback = r.feedback;
}

unfoldable pub create : ℕ → TestCaseExecutionResult → Store → Store
create id r db = record db {
  results = λ i t. if (i == id) && (t == r.test_case_id) then some (stored r) else db.results i t;
}

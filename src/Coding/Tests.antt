-- ===== src/Coding/Tests.antt =====
-- A program that prints what it reads, run on two test cases.
use ai_interviewer.Prelude.{
  ℕ, ℤ, pos, negsuc, ◌*◌, ◌/◌, ◌≡◌, refl, ◌↔◌, true, false, none, some, [], ◌∷◌, ◌++◌, ◌==◌,
  if◌then◌else◌, all,
}
use ai_interviewer.Prelude.Result.{ok}
use ai_interviewer.Coding.Comparator.{
  Text, is_space, split_lines, join_lines, rstrip, pop_empty, normalize_output, same_text,
  compare_outputs, is_empty,
}
use ai_interviewer.Coding.Agreement.{Agree, line, compare_outputs_decides}
use ai_interviewer.Coding.Comparator.{newline}
use ai_interviewer.Coding.Sandbox.{
  marker, exit_status, occurs, after, cut_lines, separate_time_output, parse_execution_output,
  search_number, number_after, skip_spaces, digits, more_digits,
}
use ai_interviewer.Coding.Forgery.{forged, exit_status_forged}
use ai_interviewer.Coding.Status.{
  ExecutionStatus, calculate_score, total_weight, earned_weight, pending, running, passed, TestCase,
  ExecutionResult, exited,
}
use ai_interviewer.Coding.Store.{CodeSubmission, Store}
use ai_interviewer.Coding.Execution.{
  ExecuteSubmissionCommand, Setting, SandboxExecutionRequest, request_ok,
}
use ai_interviewer.Coding.Service.{execute, error_result}
use ai_interviewer.Coding.Settlement.{Settled}
use ai_interviewer.Coding.Completion.{execute_settles, execute_refuses}
use ai_interviewer.Coding.Acceptance.{distinct, accepted, execute_passes}

-- "a  \nb\n\n" and "a\nb"
spaced : compare_outputs (97 ∷ 32 ∷ 32 ∷ 10 ∷ 98 ∷ 10 ∷ 10 ∷ []) (97 ∷ 10 ∷ 98 ∷ []) ≡ true
unfolding compare_outputs normalize_output split_lines rstrip is_space pop_empty join_lines
    same_text
spaced = refl

compare_outputs_decides_example :
    ((compare_outputs (97 ∷ 32 ∷ 10 ∷ []) (97 ∷ []) ≡ true)
      ↔ ((n : ℕ) → Agree (line n (97 ∷ 32 ∷ 10 ∷ [])) (line n (97 ∷ []))))
    × (compare_outputs (normalize_output (97 ∷ 32 ∷ 10 ∷ [])) (normalize_output (97 ∷ []))
        ≡ compare_outputs (97 ∷ 32 ∷ 10 ∷ []) (97 ∷ []))
compare_outputs_decides_example = compare_outputs_decides (97 ∷ 32 ∷ 10 ∷ []) (97 ∷ [])

-- The quotient of naturals, cut off; the tests have no other.
abbrev quotient : ℤ → ℤ → ℤ
quotient (pos a) (pos b) = pos (a * 10000 / b)
quotient _ _ = pos 0

-- A case of weight 2 that passes, and one of weight -1 that fails: twice the full score.
above_the_full_score :
    calculate_score quotient (pos 2 ∷ negsuc 0 ∷ []) (true ∷ false ∷ []) ≡ ok (pos 20000)
unfolding calculate_score total_weight earned_weight
above_the_full_score = refl

-- The output is the input.
abbrev echo : Setting
echo = record {
  run = λ (q : SandboxExecutionRequest). ok (record {
    stdout = q.input_data;
    stderr = [];
    exit_code = exited 0;
    runtime_ms = 7;
    memory_kb = 5000;
    timed_out = false;
    memory_exceeded = false;
    compilation_output = [];
  });
  percent = quotient;
  now = 1000;
  refusal = [];
}

abbrev case_of : ℕ → Text → Text → TestCase
case_of id input expected = record {
  test_case_id = id;
  input_data = input;
  expected_output = expected;
  weight = pos 2;
  time_limit_ms = 1000;
  memory_limit_kb = 65536;
}

abbrev command_of : Text → ExecuteSubmissionCommand
command_of expected = record {
  submission_id = 1;
  submission_data = record { language = "python3"; source_code = 97 ∷ [] };
  test_cases = case_of 11 (97 ∷ []) (97 ∷ []) ∷ case_of 12 (98 ∷ 10 ∷ []) expected ∷ [];
}

abbrev row_of : ExecutionStatus → CodeSubmission
row_of status = record {
  execution_status = status;
  score = none;
  execution_time_ms = none;
  memory_kb = none;
  compiler_output = none;
  executed_at = none;
}

abbrev holding : ExecutionStatus → Store
holding status = record {
  submissions = λ i. if i == 1 then some (row_of status) else none;
  results = λ i t. none;
}

execute_settles_example :
    (r : ExecutionResult) × (after : Store) × (execute echo (command_of (98 ∷ [])) (holding pending)
      ≡ (ok r, after))
    × Settled 1 (holding pending) (row_of pending) r after
execute_settles_example =
    execute_settles echo (command_of (98 ∷ [])) (holding pending) (row_of pending) refl refl

running_is_refused :
    execute echo (command_of (98 ∷ [])) (holding running) ≡ (ok (error_result 1), holding running)
running_is_refused =
    execute_refuses echo (command_of (98 ∷ [])) (holding running) (row_of running) refl (λ e. cc e)

execute_passes_example :
    (r : ExecutionResult) × (after : Store) × (execute echo (command_of (98 ∷ [])) (holding pending)
      ≡ (ok r, after))
    × ((r.execution_status ≡ passed) ↔ (
        (is_empty (command_of (98 ∷ [])).test_cases ≡ false)
        × (all
              (accepted echo (command_of (98 ∷ [])).submission_data)
              (command_of (98 ∷ [])).test_cases
            ≡ true)))
unfolding distinct request_ok
execute_passes_example =
    execute_passes echo (command_of (98 ∷ [])) (holding pending) (row_of pending) refl refl refl
      refl refl

echo_is_accepted :
    all (accepted echo (command_of (98 ∷ [])).submission_data) (command_of (98 ∷ [])).test_cases
    ≡ true
unfolding compare_outputs normalize_output split_lines rstrip is_space pop_empty join_lines
    same_text
echo_is_accepted = refl

-- A program that prints "5", forges and crashes; `time` then reports the signal.
exit_status_forged_example :
    let result =
      parse_execution_output
        ((53 ∷ []) ++ newline ∷ forged (exit_status ++ 32 ∷ 49 ∷ 51 ∷ 57 ∷ []))
        139 in
    (result.0.program_stdout ≡ 53 ∷ [])
    × (result.1.exit_code ≡ 0)
    × (result.1.timed_out ≡ false)
    × (result.1.memory_exceeded ≡ false)
unfolding split_lines occurs after
exit_status_forged_example =
    exit_status_forged (53 ∷ []) (exit_status ++ 32 ∷ 49 ∷ 51 ∷ 57 ∷ []) 139 refl

honest :
    (parse_execution_output
      (53 ∷ newline ∷ marker ++ newline ∷ exit_status ++ 32 ∷ 49 ∷ 51 ∷ 57 ∷ [])
      139).1.exit_code
    ≡ 139
unfolding parse_execution_output separate_time_output cut_lines split_lines occurs after join_lines
    search_number number_after skip_spaces digits more_digits is_space
honest = refl

-- ===== src/Coding/Completion.antt =====
-- `ExecutionService.execute` as a whole.
use ai_interviewer.Prelude.{
  ℕ, pos, suc, ◌≡◌, refl, sym, ap, ◌∙◌, ◌≢◌, ◌⊎◌, inl, inr, true, false, none, some, List, [], ◌∷◌,
  map, length,
}
use ai_interviewer.Prelude.Result.{ok, err}
use mathlib.Core.Path.{subst}
use ai_interviewer.Coding.Status.{
  ExecutionStatus, pending, running, passed, failed, error, timeout, memory_exceeded,
  is_terminal_state, is_valid_transition, TestCase, TestCaseExecutionResult, ExecutionResult,
}
use ai_interviewer.Coding.Store.{
  CodeSubmission, Store, StatusUpdate, no_update, update_status, updated,
}
use ai_interviewer.Coding.Execution.{
  ExecuteSubmissionCommand, Setting, Run, execute_all_test_cases, determine_final_status, succeeded,
}
use ai_interviewer.Coding.Service.{
  execute, concluded, scored, finalize_submission, figures, Answer, error_result, weights_of,
  result_of,
}
use ai_interviewer.Coding.Settlement.{
  Ran, execute_all-Ran, calculate_score_answers, final_lem, finalize_lem, Settled, updated_row,
  updated_other,
}

settle :
    (id : ℕ) (final : ExecutionStatus) (u : StatusUpdate) (db mid : Store) (row : CodeSubmission)
    (r : ExecutionResult)
    → db.submissions id ≡ some row
    → mid.submissions ≡ (update_status id running no_update db).submissions
    → is_terminal_state final ≡ true
    → is_valid_transition running final ≡ true
    → r.execution_status ≡ final
    → u.score ≡ some r.score
    → Settled id db row r (finalize_submission id final u mid)
settle id final u db mid row r had kept terminal valid same scores =
    let busy = updated running no_update row in
    let now_busy : mid.submissions id ≡ some busy =
      ap (λ f. f id) kept ∙ updated_row id running no_update db row had in
    subst (Settled id db row r) (sym (finalize_lem id final u mid busy now_busy refl valid)) (
      updated final u busy,
      updated_row id final u mid busy now_busy,
      sym same,
      terminal,
      rw scores refl,
      refl,
      λ i apart.
          updated_other id final u mid i apart
          ∙ (ap (λ f. f i) kept ∙ updated_other id running no_update db i apart),
    )

error_ends : (is_terminal_state error ≡ true) × (is_valid_transition running error ≡ true)
unfolding is_terminal_state is_valid_transition
error_ends = (refl, refl)

pub length-weights : (tcs : List TestCase) → length (weights_of tcs) ≡ length tcs
length-weights [] = refl
length-weights (tc ∷ tcs) = ap suc (length-weights tcs)

pub length-succeeded : (rs : List TestCaseExecutionResult) → length (map succeeded rs) ≡ length rs
length-succeeded [] = refl
length-succeeded (r ∷ rs) = ap suc (length-succeeded rs)

abbrev Ended : ℕ → Store → CodeSubmission → Answer → Type 0
Ended id db row (err e, after) = ⊥
Ended id db row (ok r, after) = Settled id db row r after

module _ (s : Setting) (command : ExecuteSubmissionCommand) (db : Store) (row : CodeSubmission)
    (had : db.submissions command.submission_id ≡ some row) where
  concluded-Ended :
      (run : Run)
      → Ran command.test_cases (update_status command.submission_id running no_update db) run
      → Ended command.submission_id db row (concluded s command run)
  unfolding concluded scored
  concluded-Ended (err e, mid) kept =
      settle command.submission_id error (figures s (pos 0) 0 0 none) db mid row
        (error_result command.submission_id) had kept error_ends.0 error_ends.1 refl refl
  concluded-Ended (ok rs, mid) (kept, n) =
      let (score, e) =
        calculate_score_answers s.percent (weights_of command.test_cases) (map succeeded rs)
          (length-weights command.test_cases ∙ sym n ∙ sym (length-succeeded rs)) in
      let (terminal, valid) = final_lem rs in
      rw (e, concluded)
        (settle command.submission_id (determine_final_status rs) _ db mid row
          (result_of s command rs score) had kept terminal valid refl refl)

-- An answer that ended has a result.
ended :
    (id : ℕ) (db : Store) (row : CodeSubmission) (x : Answer)
    → Ended id db row x
    → (r : ExecutionResult) × (after : Store) × (x ≡ (ok r, after)) × Settled id db row r after
ended id db row (err e, after) none_there = absurd none_there
ended id db row (ok r, after) h = (r, after, refl, h)

pub started :
    (s : Setting) (command : ExecuteSubmissionCommand) (db : Store) (row : CodeSubmission)
    → db.submissions command.submission_id ≡ some row
    → row.execution_status ≡ pending
    → execute s command db
      ≡ concluded s command (
          execute_all_test_cases s command.submission_id command.submission_data command.test_cases
            (update_status command.submission_id running no_update db))
unfolding execute is_terminal_state is_valid_transition
started s command db row had waiting = rw (had, waiting, execute) refl

refused :
    (status : ExecutionStatus)
    → status ≢ pending
    → (is_terminal_state status ≡ true)
      ⊎ ((is_terminal_state status ≡ false) × (is_valid_transition status running ≡ false))
unfolding is_terminal_state is_valid_transition
refused pending begun = absurd (begun refl)
refused running begun = inr (refl, refl)
refused passed begun = inl refl
refused failed begun = inl refl
refused error begun = inl refl
refused timeout begun = inl refl
refused memory_exceeded begun = inl refl

-- The execution of a pending submission, whatever the sandbox answers, the requests and the weights
-- are, raises nothing and answers a result; the row then has that result's status, which is final,
-- and its score; it does not have the compiler's output, but the one it had before; and the other
-- rows are as they were.
pub execute_settles :
    (s : Setting) (command : ExecuteSubmissionCommand) (db : Store) (row : CodeSubmission)
    → db.submissions command.submission_id ≡ some row
    → row.execution_status ≡ pending
    → (r : ExecutionResult) × (after : Store) × (execute s command db ≡ (ok r, after))
      × Settled command.submission_id db row r after
execute_settles s command db row had waiting =
    let id = command.submission_id in
    let busy = update_status id running no_update db in
    let run = execute_all_test_cases s id command.submission_data command.test_cases busy in
    let (r, after, e, h) = ended id db row (concluded s command run) (
      concluded-Ended s command db row had run
        (execute_all-Ran s id command.submission_data command.test_cases busy)) in
    (r, after, started s command db row had waiting ∙ e, h)

-- A submission that is not pending, or not there, is not run: the answer is the result of an
-- error, and nothing changes.
pub execute_refuses :
    (s : Setting) (command : ExecuteSubmissionCommand) (db : Store) (row : CodeSubmission)
    → db.submissions command.submission_id ≡ some row
    → row.execution_status ≢ pending
    → execute s command db ≡ (ok (error_result command.submission_id), db)
unfolding execute
execute_refuses s command db row had begun = elim (refused row.execution_status begun) [
  | inl final ↦ rw (had, final, execute) refl
  | inr (open_still, wrong) ↦ rw (had, open_still, wrong, execute) refl
]

-- ===== src/Coding/Settlement.antt =====
-- An execution of a pending submission comes to an end, and the row says which.
use ai_interviewer.Prelude.{
  ℕ, ℤ, pos, ◌+ℤ◌, is_zero, map, suc, ◌+◌, ◌≤◌, ◌<◌, ◌≡◌, refl, ap, ◌∙◌, ◌≢◌, inl, inr, Bool, true,
  false, some, List, [], ◌∷◌, arith, ◌==◌, Bool-cases, Option-cases, length, any, all,
}
use ai_interviewer.Prelude.Result.{ok, err}
use ai_interviewer.Coding.Comparator.{is_empty}
use ai_interviewer.Coding.Status.{
  ExecutionStatus, running, is_terminal_state, is_valid_transition, SubmissionData, TestCase,
  TestCaseExecutionResult, ExecutionResult, sum, total_weight, earned_weight, calculate_score,
}
use ai_interviewer.Coding.Store.{
  CodeSubmission, Store, StatusUpdate, update_status, updated, create,
}
use ai_interviewer.Coding.Execution.{
  Setting, Run, execute_all_test_cases, determine_final_status, succeeded, with_result, judged,
  request_ok, request_of, existing, has_status, is_timeout, is_memory, is_runtime,
}
use ai_interviewer.Coding.Service.{finalize_submission}

-- What running the test cases leaves of the submissions, and how many results it has.
abbrev pub Ran : List TestCase → Store → Run → Type 0
Ran tcs before (err e, after) = after.submissions ≡ before.submissions
Ran tcs before (ok rs, after) = (after.submissions ≡ before.submissions) × (length rs ≡ length tcs)

with_result-Ran :
    (r : TestCaseExecutionResult) (tc : TestCase) (tcs : List TestCase) (before middle : Store)
    (run : Run)
    → middle.submissions ≡ before.submissions
    → Ran tcs middle run
    → Ran (tc ∷ tcs) before (with_result r run)
with_result-Ran r tc tcs before middle (err e, after) same h = h ∙ same
with_result-Ran r tc tcs before middle (ok rs, after) same (h, n) = (h ∙ same, ap suc n)

pub execute_all-Ran :
    (s : Setting) (id : ℕ) (code : SubmissionData) (tcs : List TestCase) (db : Store)
    → Ran tcs db (execute_all_test_cases s id code tcs db)
unfolding execute_all_test_cases create
execute_all-Ran s id code [] db = (refl, refl)
execute_all-Ran s id code (tc ∷ tcs) db = elim (Option-cases (db.results id tc.test_case_id)) [
  | inr (row, had) ↦
      rw (had, execute_all_test_cases)
        (with_result-Ran (existing tc.test_case_id row) tc tcs db db _ refl
          (execute_all-Ran s id code tcs db))
  | inl fresh ↦ elim (Bool-cases (request_ok (request_of code tc))) [
    | inr bad ↦ rw (fresh, bad, execute_all_test_cases) refl
    | inl good ↦
        let r = judged tc (s.run (request_of code tc)) in
        rw (fresh, good, execute_all_test_cases)
          (with_result-Ran r tc tcs db (create id r db) _ refl
            (execute_all-Ran s id code tcs (create id r db)))
  ]
]

pub calculate_score_answers :
    (percent : ℤ → ℤ → ℤ) (ws : List ℤ) (ps : List Bool)
    → length ws ≡ length ps
    → (score : ℤ) × (calculate_score percent ws ps ≡ ok score)
unfolding calculate_score
calculate_score_answers percent ws ps same =
    let even : (length ws == length ps) ≡ true = ground (arith, same) in
    elim (Bool-cases (is_zero (total_weight ws))) [
      | inl nothing ↦ rw (even, nothing, calculate_score) (pos 0, refl)
      | inr some_weight ↦ rw (even, some_weight, calculate_score) (_, refl)
    ]

total-pos : (ws : List ℕ) → total_weight (map pos ws) ≡ pos (sum ws)
unfolding total_weight sum
total-pos [] = refl
total-pos (w ∷ ws) = ap (λ z. pos w +ℤ z) (total-pos ws)

earned-pos :
    (ws : List ℕ) (ps : List Bool)
    → (n : ℕ) × (earned_weight (map pos ws) ps ≡ pos n) × (n ≤ sum ws)
unfolding earned_weight sum
earned-pos [] ps = (0, refl, omega arith)
earned-pos (w ∷ ws) [] = (0, refl, omega arith)
earned-pos (w ∷ ws) (true ∷ ps) =
    let (n, e, le) = earned-pos ws ps in (w + n, ap (λ z. pos w +ℤ z) e, omega (arith, le))
earned-pos (w ∷ ws) (false ∷ ps) =
    let (n, e, le) = earned-pos ws ps in (0 + n, ap (λ z. pos 0 +ℤ z) e, omega (arith, le))

length-pos : (ws : List ℕ) → length (map pos ws) ≡ length ws
length-pos [] = refl
length-pos (w ∷ ws) = ap suc (length-pos ws)

-- Without a negative weight, and with percentages up to 100, the score is at most 100 per cent.
calculate_score_bounded :
    (percent : ℤ → ℤ → ℤ) (ws : List ℕ) (ps : List Bool)
    → ((a b : ℕ) → 0 < b → a ≤ b → (n : ℕ) × (percent (pos a) (pos b) ≡ pos n) × (n ≤ 10000))
    → length ws ≡ length ps
    → (score : ℕ) × (calculate_score percent (map pos ws) ps ≡ ok (pos score)) × (score ≤ 10000)
unfolding calculate_score
calculate_score_bounded percent ws ps keeps same =
    let even : (length (map pos ws) == length ps) ≡ true = ground (arith, same, length-pos ws) in
    let (n, e, le) = earned-pos ws ps in
    elim (Bool-cases (sum ws == 0)) [
      | inl nothing ↦ rw (even, total-pos ws, nothing, calculate_score) (0, refl, omega arith)
      | inr some_weight ↦
          let (k, p, most) = keeps n (sum ws) (ground (arith, some_weight)) le in
          rw (even, total-pos ws, some_weight, e, calculate_score) (k, ap ok p, most)
    ]

pub final_lem :
    (rs : List TestCaseExecutionResult)
    → (is_terminal_state (determine_final_status rs) ≡ true)
      × (is_valid_transition running (determine_final_status rs) ≡ true)
unfolding determine_final_status is_terminal_state is_valid_transition
final_lem rs = elim (Bool-cases (is_empty rs)) [
  | inl none_there ↦ rw none_there (refl, refl)
  | inr some_there ↦ elim (Bool-cases (all succeeded rs)) [
    | inl good ↦ rw (some_there, good) (refl, refl)
    | inr bad ↦ elim (Bool-cases (any (has_status is_timeout) rs)) [
      | inl late ↦ rw (some_there, bad, late) (refl, refl)
      | inr punctual ↦ elim (Bool-cases (any (has_status is_memory) rs)) [
        | inl big ↦ rw (some_there, bad, punctual, big) (refl, refl)
        | inr small ↦ elim (Bool-cases (any (has_status is_runtime) rs)) [
          | inl broke ↦ rw (some_there, bad, punctual, small, broke) (refl, refl)
          | inr ran ↦ rw (some_there, bad, punctual, small, ran) (refl, refl)
        ]
      ]
    ]
  ]
]

pub finalize_lem :
    (id : ℕ) (final : ExecutionStatus) (u : StatusUpdate) (db : Store) (row : CodeSubmission)
    → db.submissions id ≡ some row
    → row.execution_status ≡ running
    → is_valid_transition running final ≡ true
    → finalize_submission id final u db ≡ update_status id final u db
unfolding finalize_submission is_terminal_state
finalize_lem id final u db row had busy valid = rw (had, busy, valid, finalize_submission) refl

-- The row of a submission, and all other rows, once it is finalised.
abbrev pub Settled : ℕ → Store → CodeSubmission → ExecutionResult → Store → Type 0
Settled id db row r after =
    (settled : CodeSubmission) × (after.submissions id ≡ some settled)
    × (settled.execution_status ≡ r.execution_status)
    × (is_terminal_state settled.execution_status ≡ true)
    × (settled.score ≡ some r.score)
    × (settled.compiler_output ≡ row.compiler_output)
    × ((i : ℕ) → i ≢ id → after.submissions i ≡ db.submissions i)

pub updated_row :
    (id : ℕ) (status : ExecutionStatus) (u : StatusUpdate) (db : Store) (row : CodeSubmission)
    → db.submissions id ≡ some row
    → (update_status id status u db).submissions id ≡ some (updated status u row)
unfolding update_status
updated_row id status u db row had =
    let self : (id == id) ≡ true = ground arith in rw (self, had) refl

pub updated_other :
    (id : ℕ) (status : ExecutionStatus) (u : StatusUpdate) (db : Store) (i : ℕ)
    → i ≢ id
    → (update_status id status u db).submissions i ≡ db.submissions i
unfolding update_status
updated_other id status u db i apart = let other : (i == id) ≡ false = ground arith in rw other refl

-- ===== src/Interview/Orchestration/Attempts.antt =====
-- app/interview/orchestration/progress_tracker.py: its optimistic UPDATE loops. The SELECT and
-- UPDATE statements are raw SQL, so each attempt reads the table anew; `others` says what other
-- workers commit between the SELECT and the UPDATE of an attempt, numbered by the attempts left.
use ai_interviewer.Prelude.{
  ℕ, zero, suc, Bool, true, false, not, ◌&&◌, Option, none, some, ltb, leb, ◌==◌, if◌then◌else◌,
}
use ai_interviewer.Prelude.Result.{Result, ok, err}
use ai_interviewer.Session.Status.{in_progress, completed, same}
use ai_interviewer.Session.Store.{Submission, Table, next_version, update_where}
use ai_interviewer.Session.Repository.{Connection}
use ai_interviewer.Session.Expiry.{coalesce}

pub data ProgressError : Type 0 where
  not_found conflict : ℕ → ProgressError
  progress_invalid : ProgressError

-- `version = :expected_version`, the expected one being what the SELECT gave; NULL equals nothing.
abbrev pub version_matches : Option ℕ → Option ℕ → Bool
version_matches (some w) (some v) = w == v
version_matches _ _ = false

-- The columns that an attempt at the sequence writes, and its WHERE clause.
abbrev pub advance_row : ℕ → ℕ → Submission → Submission
advance_row now seq row = record row {
  current_exchange_sequence = seq;
  updated_at = now;
  version = next_version row.version;
}

abbrev pub can_advance : ℕ → Option ℕ → Submission → Bool
can_advance seq expected row =
    ltb row.current_exchange_sequence seq && version_matches row.version expected

abbrev pub complete_row : ℕ → Submission → Submission
complete_row now row = record row {
  status = completed;
  submitted_at = coalesce row.submitted_at now;
  updated_at = now;
  version = next_version row.version;
}

abbrev pub can_complete : Option ℕ → Submission → Bool
can_complete expected row = same row.status in_progress && version_matches row.version expected

-- One attempt at an UPDATE: done (with or without a write), or to be tried again.
pub data Attempt (S A : Type 0) : Type 0 where
  done : Result ProgressError A → S → Attempt S A
  again : S → Attempt S A

advance_updated : Table × Bool → Attempt Table Unit
advance_updated (rows, true) = done (ok tt) rows
advance_updated (rows, false) = again rows

advance_on : (Table → Table) → ℕ → ℕ → ℕ → Option Submission → Table → Attempt Table Unit
unfolding advance_updated
advance_on others now sid seq none rows = done (err (not_found sid)) rows
advance_on others now sid seq (some row) rows =
    if leb seq row.current_exchange_sequence
    then done (ok tt) rows
    else advance_updated
        (update_where sid (can_advance seq row.version) (advance_row now seq) (others rows))

unfoldable pub advance_attempt : (Table → Table) → ℕ → ℕ → ℕ → Table → Attempt Table Unit
unfolding advance_on
advance_attempt others now sid seq rows = advance_on others now sid seq (rows sid) rows

complete_updated : Table × Bool → Connection → Attempt Connection Bool
complete_updated (rows, true) c = done (ok true) (record c { rows = rows })
complete_updated (rows, false) c = again (record c { rows = rows })

-- The two tests on the status come to one: every status but `in_progress` answers False.
complete_on : (Table → Table) → ℕ → ℕ → Option Submission → Connection → Attempt Connection Bool
unfolding complete_updated
complete_on others now sid none c = done (err (not_found sid)) c
complete_on others now sid (some row) c =
    if not (same row.status in_progress)
    then done (ok false) c
    else complete_updated
        (update_where sid (can_complete row.version) (complete_row now) (others c.rows))
        (record c { actor = some "system:auto_complete" })

unfoldable pub complete_attempt : (Table → Table) → ℕ → ℕ → Connection → Attempt Connection Bool
unfolding complete_on
complete_attempt others now sid c = complete_on others now sid (c.rows sid) c

-- `for _ in range(n)` over attempts, then the ConflictError.
unfoldable pub attempts :
    {S A : Type 0} → (ℕ → S → Attempt S A) → ℕ → ℕ → S → Result ProgressError A × S
attempts try sid zero s = (err (conflict sid), s)
attempts try sid (suc n) s = elim (try n s) [
  | done r s' ↦ (r, s')
  | again s' ↦ attempts try sid n s'
]

abbrev pub max_optimistic_retries : ℕ
max_optimistic_retries = 3

module _ (others : ℕ → Table → Table) (now : ℕ) where
  unfoldable pub update_db_progress : ℕ → ℕ → Table → Result ProgressError Unit × Table
  unfolding attempts advance_attempt
  update_db_progress sid seq =
      attempts (λ n. advance_attempt (others n) now sid seq) sid max_optimistic_retries

  unfoldable pub auto_complete_submission : ℕ → Connection → Result ProgressError Bool × Connection
  unfolding attempts complete_attempt
  auto_complete_submission sid =
      attempts (λ n. complete_attempt (others n) now sid) sid max_optimistic_retries

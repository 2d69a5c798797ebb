-- ===== src/Interview/Exchanges/Repository.antt =====
-- app/interview/exchanges/repository.py. The table's constraints are the database's: a sequence
-- order is used once in a submission, and a question or a coding problem is named.
use ai_interviewer.Prelude.{
  ℕ, ◌+◌, Bool, not, ◌&&◌, ◌||◌, Option, none, some, List, [], ◌∷◌, ◌++◌, ◌==◌, if◌then◌else◌,
  is_some, length, find?,
}
use ai_interviewer.Prelude.Result.{Result, ok, err}
use ai_interviewer.Session.Status.{in_progress, same}
use ai_interviewer.Session.Store.{Submission, Table}
use ai_interviewer.Session.Repository.{Requery}
use ai_interviewer.Interview.Exchanges.Model.{ExchangeCreationData, Exchange}
use ai_interviewer.Interview.Exchanges.Validators.{
  ExchangeError, submission_not_found, interview_not_active, integrity_error, has,
  validate_sequence_order, validate_response_completeness,
}

abbrev pub at_sequence : ℕ → ℕ → Exchange → Bool
at_sequence sid seq e = e.content.submission_id == sid && e.content.sequence_order == seq

-- The sequence orders of a submission's rows; `.count()` is their number.
unfoldable pub orders : ℕ → List Exchange → List ℕ
orders sid [] = []
orders sid (e ∷ es) =
    if e.content.submission_id == sid
    then e.content.sequence_order ∷ orders sid es
    else orders sid es

unfoldable pub get_by_submission_and_sequence : ℕ → ℕ → List Exchange → Option Exchange
get_by_submission_and_sequence sid seq es = find? (at_sequence sid seq) es

unfoldable pub count_by_submission : ℕ → List Exchange → ℕ
unfolding orders
count_by_submission sid es = length (orders sid es)

-- The database as a session sees it: the submissions, the exchanges, the next id.
pub record Records : Type 0 where
  pub rows : Table
  pub exchanges : List Exchange
  pub next_id : ℕ

-- What other sessions commit before the count, before the orders are read, before the INSERT.
pub record Meanwhile : Type 0 where
  pub before_count : List Exchange → List Exchange
  pub before_orders : List Exchange → List Exchange
  pub before_insert : List Exchange → List Exchange

constraints_ok : ExchangeCreationData → List Exchange → Bool
constraints_ok d es =
    not (has d.sequence_order (orders d.submission_id es))
    && (is_some d.question_id || is_some d.coding_problem_id)

-- After the IntegrityError: the row that is there, or the error again.
existing_or_raise : Option Exchange → Result ExchangeError Exchange
existing_or_raise none = err integrity_error
existing_or_raise (some e) = ok e

unfoldable pub insert : ExchangeCreationData → Records → Result ExchangeError Exchange × Records
unfolding constraints_ok existing_or_raise get_by_submission_and_sequence
insert d r =
    if constraints_ok d r.exchanges
    then (
      ok (record { id = r.next_id; content = d }),
      record r {
        exchanges = r.exchanges ++ record { id = r.next_id; content = d } ∷ [];
        next_id = r.next_id + 1;
      },
    )
    else (
      existing_or_raise
          (get_by_submission_and_sequence d.submission_id d.sequence_order r.exchanges),
      r,
    )

-- A query for the submission: `loaded` is the object that the session holds already, if any.
abbrev pub submission_seen : Requery → Option Submission → Option Submission → Option Submission
submission_seen requery loaded none = none
submission_seen requery none (some stored) = some stored
submission_seen requery (some l) (some stored) = some (requery l stored)

module _ (requery : Requery) (meanwhile : Meanwhile) where
  -- From the counting query on.
  unfoldable pub create_active :
      ExchangeCreationData → Records → Result ExchangeError Exchange × Records
  unfolding insert count_by_submission
  create_active d r =
      let es1 = meanwhile.before_count r.exchanges in
      let es2 = meanwhile.before_orders es1 in
      elim (validate_sequence_order d.submission_id d.sequence_order
        (count_by_submission d.submission_id es1) (orders d.submission_id es2)) [
          | err e ↦ (err e, record r { exchanges = es2 })
          | ok _ ↦ elim (validate_response_completeness d) [
            | err e ↦ (err e, record r { exchanges = es2 })
            | ok _ ↦ insert d (record r { exchanges = meanwhile.before_insert es2 })
          ]
        ]

  create_for :
      Option Submission → ExchangeCreationData → Records → Result ExchangeError Exchange × Records
  unfolding create_active
  create_for none d r = (err (submission_not_found d.submission_id), r)
  create_for (some sub) d r =
      if same sub.status in_progress
      then create_active d r
      else (err (interview_not_active d.submission_id), r)

  unfoldable pub create :
      Option Submission → ExchangeCreationData → Records → Result ExchangeError Exchange × Records
  unfolding create_for
  create loaded d r = create_for (submission_seen requery loaded (r.rows d.submission_id)) d r

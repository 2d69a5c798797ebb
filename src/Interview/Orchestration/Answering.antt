-- ===== src/Interview/Orchestration/Answering.antt =====
-- One answer, from the signal to the progress report, with no other worker in between.
use ai_interviewer.Prelude.{
  ℕ, ◌+◌, ◌≤◌, ◌<◌, String, ◌≡◌, refl, Bool, true, false, ◌||◌, none, some, List, [], ◌∷◌, ◌++◌,
  arith, leb, ◌==◌, is_some, length, get_elem?, get_elem?_bound,
}
use ai_interviewer.Prelude.Result.{ok}
use ai_interviewer.Session.Status.{in_progress}
use ai_interviewer.Session.Store.{Submission, TemplateSnapshot}
use ai_interviewer.Session.Repository.{Requery}
use ai_interviewer.Interview.Exchanges.Model.{ExchangeCreationData, Exchange}
use ai_interviewer.Interview.Exchanges.Validators.{
  has, validate_sequence_order, validate_response_completeness,
}
use ai_interviewer.Interview.Exchanges.Repository.{
  Records, Meanwhile, orders, get_by_submission_and_sequence, count_by_submission, create, insert,
}
use ai_interviewer.Interview.Exchanges.Contiguity.{IsContiguous}
use ai_interviewer.Interview.Orchestration.Sequencer.{
  NextQuestionResult, validate_template_snapshot, resolve_next_question, questions,
}
use ai_interviewer.Interview.Orchestration.Traversal.{
  resolve_next_question_at, length-questions-valid,
}
use ai_interviewer.Interview.Orchestration.Progress.{ProgressUpdate}
use ai_interviewer.Interview.Orchestration.Reporting.{Progressed, update_progress_reports}
use ai_interviewer.Interview.Orchestration.Signals.{World}
use ai_interviewer.Interview.Orchestration.Coordinator.{
  Surroundings, Lock, load_active_submission, validate_sequence, checked, prepared,
  resolve_or_create, create_exchange_with_progress, then_progress,
}

-- Surroundings in which nobody else writes.
abbrev pub undisturbed : Meanwhile
undisturbed = record { before_count = λ es. es; before_orders = λ es. es; before_insert = λ es. es }

abbrev pub calm : Requery → Lock → (ℕ → ℕ → ℕ) → ℕ → Bool → Surroundings
calm requery lock percent now redis_up = record {
  requery = requery;
  lock = lock;
  before_check = λ es. es;
  meanwhile = undisturbed;
  others = λ n t. t;
  percent = percent;
  now = now;
  redis_up = redis_up;
}

-- The submission `sid` waits for the answer to question `q` of section `name`.
pub record IsWaiting (w : World) (sid : ℕ) (row : Submission) (s : TemplateSnapshot) (q : ℕ)
    (name : String) : Type 0 where
  pub found : w.db.rows sid ≡ some row
  pub active : row.status ≡ in_progress
  pub version : ℕ
  pub versioned : row.version ≡ some version
  pub valid : validate_template_snapshot row.template_structure_snapshot sid ≡ ok s
  pub numbered : IsContiguous w.exchanges
  pub in_step : row.current_exchange_sequence ≡ length (orders sid w.exchanges)
  pub next : get_elem? (questions s.sections) row.current_exchange_sequence ≡ some (q, name)
  pub positive : 0 < q

abbrev pub next_of : Submission → TemplateSnapshot → ℕ → String → NextQuestionResult
next_of row s q name = record {
  question_id = q;
  sequence_order = row.current_exchange_sequence + 1;
  section_name = name;
  is_final_question = row.current_exchange_sequence + 1 == length (questions s.sections);
}

find_none :
    (sid seq : ℕ) (es : List Exchange)
    → has seq (orders sid es) ≡ false
    → get_by_submission_and_sequence sid seq es ≡ none
unfolding orders get_by_submission_and_sequence
find_none sid seq [] h = refl
find_none sid seq (e ∷ es) h = ground (arith, find_none sid seq es)

module _ (w : World) (sid : ℕ) (row : Submission) (s : TemplateSnapshot) (q : ℕ) (name : String)
    (r : IsWaiting w sid row s q name) where
  within : row.current_exchange_sequence + 1 ≤ s.total_questions
  within = omega (
    arith,
    get_elem?_bound (questions s.sections) row.current_exchange_sequence r.next,
    length-questions-valid row.template_structure_snapshot sid s r.valid,
  )

  resolved :
      resolve_next_question s row.current_exchange_sequence ≡ ok (some (next_of row s q name))
  resolved =
      (resolve_next_question_at row.template_structure_snapshot sid s r.valid
        row.current_exchange_sequence q name r.next r.positive).0

  pub prepared_waiting :
      (env : Surroundings) (build : NextQuestionResult → ExchangeCreationData)
      → checked (build (next_of row s q name)) ≡ ok (build (next_of row s q name))
      → prepared env sid (row.current_exchange_sequence + 1) build w
        ≡ ok (row, s, build (next_of row s q name))
  unfolding prepared load_active_submission validate_sequence
  prepared_waiting env build good =
      ground (arith, r.found, r.active, r.valid, within, resolved, good)

  fresh : has (row.current_exchange_sequence + 1) (orders sid w.exchanges) ≡ false
  fresh = ground (arith, r.numbered sid (row.current_exchange_sequence + 1), r.in_step)

  module _ (d : ExchangeCreationData) (own : d.submission_id ≡ sid)
      (at : d.sequence_order ≡ row.current_exchange_sequence + 1)
      (named : (is_some d.question_id || is_some d.coding_problem_id) ≡ true)
      (complete : validate_response_completeness d ≡ ok tt) where
    abbrev pub new_row : Exchange
    new_row = record { id = w.next_id; content = d }

    abbrev records : Records
    records = record { rows = w.db.rows; exchanges = w.exchanges; next_id = w.next_id }

    fresh_d : has d.sequence_order (orders d.submission_id w.exchanges) ≡ false
    fresh_d = rw (own, at) fresh

    inserted : insert d records ≡ (
      ok new_row,
      record records { exchanges = w.exchanges ++ new_row ∷ []; next_id = w.next_id + 1 },
    )
    unfolding insert
    inserted = rw fresh_d (rw named refl)

    sequenced :
        validate_sequence_order d.submission_id d.sequence_order
          (count_by_submission d.submission_id w.exchanges)
          (orders d.submission_id w.exchanges)
        ≡ ok tt
    unfolding validate_sequence_order count_by_submission
    sequenced = ground (arith, fresh_d, own, at, r.in_step)

    created :
        (requery : Requery)
        → requery row row ≡ row
        → create requery undisturbed (some row) d records ≡ (
          ok new_row,
          record records { exchanges = w.exchanges ++ new_row ∷ []; next_id = w.next_id + 1 },
        )
    unfolding create
    created requery steady =
        ground (arith, steady, r.found, own, r.active, sequenced, complete, inserted)

    resolved_or_created :
        (requery : Requery) (lock : Lock) (percent : ℕ → ℕ → ℕ) (now : ℕ) (up : Bool)
        → requery row row ≡ row
        → resolve_or_create (calm requery lock percent now up) row d w ≡ (
          ok new_row,
          record w { exchanges = w.exchanges ++ new_row ∷ []; next_id = w.next_id + 1 },
        )
    unfolding resolve_or_create
    resolved_or_created requery lock percent now up steady = ground (
      arith,
      created requery steady,
      find_none d.submission_id d.sequence_order w.exchanges fresh_d,
    )

    module _ (requery : Requery) (steady : requery row row ≡ row) (lock : Lock)
        (percent : ℕ → ℕ → ℕ) (bounded : (n m : ℕ) → n ≤ m → percent n m ≤ 10000) (now : ℕ)
        (up : Bool) where
      abbrev pub Answered : World → Type 0
      Answered a =
          (a.exchanges ≡ w.exchanges ++ new_row ∷ [])
          × Progressed now d.submission_id d.sequence_order s.total_questions row w.db.rows
              a.db.rows

      abbrev pub progress_made : ProgressUpdate
      progress_made = record {
        submission_id = d.submission_id;
        current_sequence = d.sequence_order;
        total_questions = s.total_questions;
        progress_percentage = percent d.sequence_order s.total_questions;
        is_complete = leb s.total_questions d.sequence_order;
      }

      pub progressed :
          0 < d.submission_id
          → let x =
              create_exchange_with_progress
                (calm requery lock percent now up)
                row
                d
                s.total_questions
                w in
            (x.0 ≡ ok (new_row, progress_made)) × Answered x.1
      unfolding create_exchange_with_progress then_progress
      progressed real =
          let u =
            update_progress_reports percent now up d.submission_id d.sequence_order
              s.total_questions row (record { db = w.db; cache = w.cache }) (rw own r.found)
              r.active r.versioned (ground (arith, at)) real (ground (arith, within))
              (bounded _ _ (ground (arith, at, within))) in
          rw (resolved_or_created requery lock percent now up steady, u.0) (refl, (refl, u.1))

-- ===== src/Interview/Tests.antt =====
-- A small interview, run through the definitions: two sections, three questions.
use ai_interviewer.Prelude.{ℕ, ◌*◌, ◌/◌, ◌≡◌, refl, true, none, some, [], ◌∷◌}
use mathlib.Core.Option
use ai_interviewer.Session.Status.{in_progress, completed}
use ai_interviewer.Session.Store.{Submission, Table, TemplateSnapshot, object, put}
use ai_interviewer.Session.Store.{update_where}
use ai_interviewer.Interview.Exchanges.Model.{creation_data_ok}
use ai_interviewer.Interview.Exchanges.Validators.{
  validate_sequence_order, validate_response_completeness,
}
use ai_interviewer.Interview.Exchanges.Repository.{create}
use ai_interviewer.Interview.Orchestration.Sequencer.{
  validate_template_snapshot, sum_counts, resolve_next_question,
}
use ai_interviewer.Interview.Orchestration.Attempts.{update_db_progress, auto_complete_submission}
use ai_interviewer.Interview.Orchestration.Progress.{update_progress}
use ai_interviewer.Interview.Orchestration.Coordinator.{
  load_active_submission, validate_sequence, checked,
}
use ai_interviewer.Session.StaleReload.{caching}
use ai_interviewer.Interview.Exchanges.Repository.{orders}
use ai_interviewer.Interview.Orchestration.Signals.{World, Asked, TextResponseSignal}
use ai_interviewer.Interview.Orchestration.Coordinator.{
  Surroundings, acquired, create_exchange_from_text,
}

abbrev pub snapshot : TemplateSnapshot
snapshot = record {
  template_id = 1;
  template_name = "backend";
  sections =
      record { section_name = "resume"; question_count = 1; question_ids = 11 ∷ [] }
      ∷ record { section_name = "technical"; question_count = 2; question_ids = 21 ∷ 22 ∷ [] }
      ∷ [];
  total_questions = 3;
}

abbrev pub running : Submission
running = record {
  candidate_id = 7;
  status = in_progress;
  consent_captured = true;
  scheduled_end = some 5000;
  started_at = some 1000;
  submitted_at = none;
  version = some 2;
  updated_at = 1000;
  current_exchange_sequence = 0;
  template_structure_snapshot = some (object snapshot);
}

abbrev pub no_rows : Table
no_rows j = none

abbrev pub one_row : Submission → Table
one_row row = put no_rows 5 row

abbrev pub world : World
world = record {
  db = record { rows = one_row running; actor = none };
  exchanges = [];
  next_id = 100;
  cache = λ j. none;
}

abbrev pub quiet : Surroundings
quiet = record {
  requery = caching;
  lock = acquired;
  before_check = λ es. es;
  meanwhile = record {
    before_count = λ es. es;
    before_orders = λ es. es;
    before_insert = λ es. es;
  };
  others = λ n t. t;
  percent = λ s t. s * 10000 / t;
  now = 2000;
  redis_up = true;
}

abbrev pub asked : Asked
asked = record { question_text = "Why?"; question_difficulty = "easy"; expected_answer = none }

abbrev pub reply_at : ℕ → TextResponseSignal
reply_at n = record {
  submission_id = 5;
  sequence_order = n;
  response_text = "Because.";
  response_time_ms = 900;
}

abbrev step : ℕ → World → World
step n w = (create_exchange_from_text quiet (reply_at n) asked w).1

three_answers :
    let w = step 3 (step 2 (step 1 world)) in
    (Option.map (λ row. row.status) (w.db.rows 5) ≡ some completed)
    × (orders 5 w.exchanges ≡ 1 ∷ 2 ∷ 3 ∷ [])
unfolding create_exchange_from_text load_active_submission validate_template_snapshot sum_counts
    validate_sequence resolve_next_question checked creation_data_ok create orders
    validate_sequence_order validate_response_completeness update_progress update_db_progress
    auto_complete_submission update_where
three_answers = (refl, refl)

out_of_order : (step 2 world).exchanges ≡ []
unfolding create_exchange_from_text load_active_submission validate_template_snapshot sum_counts
    validate_sequence resolve_next_question checked creation_data_ok create orders
    validate_sequence_order validate_response_completeness update_progress update_db_progress
    auto_complete_submission update_where
out_of_order = refl

-- ===== src/Interview/Examples.antt =====
-- The interview's theorems at the small interview of the tests.
use ai_interviewer.Prelude.{
  ℕ, ◌≤◌, ◌≡◌, refl, inl, inr, true, false, none, some, [], arith, ltb, ◌==◌, if◌then◌else◌,
  Bool-cases,
}
use ai_interviewer.Prelude.Result.{ok, err}
use ai_interviewer.Session.Store.{Table, object, put}
use ai_interviewer.Session.StaleReload.{caching}
use ai_interviewer.Interview.Exchanges.Model.{creation_data_ok}
use ai_interviewer.Interview.Exchanges.Repository.{create, orders}
use ai_interviewer.Interview.Exchanges.Contiguity.{IsContiguous, IsOrderly, create-IsContiguous}
use ai_interviewer.Interview.Orchestration.Sequencer.{
  validate_template_snapshot, resolve_next_question, get_section_for_sequence, sum_counts,
  questions, tagged,
}
use ai_interviewer.Interview.Orchestration.Traversal.{resolve_next_question_at}
use ai_interviewer.Interview.Orchestration.Attempts.{update_db_progress}
use ai_interviewer.Interview.Orchestration.Advance.{
  Reached, Live, update_db_progress-Reached, update_db_progress_returns,
}
use ai_interviewer.Interview.Orchestration.Progress.{update_progress}
use ai_interviewer.Interview.Orchestration.Reporting.{alone, Progressed, update_progress_reports}
use ai_interviewer.Interview.Orchestration.Signals.{
  AudioCompletionSignal, CodeCompletionSignal, text_data, sequence_mismatch,
}
use ai_interviewer.Interview.Orchestration.Coordinator.{
  acquired, checked, create_exchange_from_text,
}
use ai_interviewer.Interview.Orchestration.Answering.{calm, IsWaiting, next_of}
use ai_interviewer.Interview.Orchestration.Answers.{
  Answered, create_exchange_from_text_answers, create_exchange_from_text_refuses,
}
use ai_interviewer.Interview.Tests.{snapshot, running, one_row, world, quiet, asked, reply_at}

snapshot_valid : validate_template_snapshot (some (object snapshot)) 5 ≡ ok snapshot
unfolding validate_template_snapshot sum_counts
snapshot_valid = refl

resolve_next_question_at_example :
    (resolve_next_question snapshot 1
      ≡ ok (
          some (record {
            question_id = 21;
            sequence_order = 2;
            section_name = "technical";
            is_final_question = false;
          })))
    × (get_section_for_sequence snapshot 1 ≡ some "technical")
unfolding questions tagged
resolve_next_question_at_example =
    resolve_next_question_at (some (object snapshot)) 5 snapshot snapshot_valid 1 21 "technical"
      refl (omega arith)

-- A second worker that writes before the first attempt only.
abbrev restless : ℕ → Table → Table
restless n t = if n == 2 then put t 5 (record running { version = some 9 }) else t

abbrev rows : Table
rows = one_row running

restless_alive : (n : ℕ) (t : Table) → Live 5 t → Live 5 (restless n t)
restless_alive n t l = elim (Bool-cases (n == 2)) [
  | inl e ↦ rw e (record running { version = some 9 }, 9, refl, refl)
  | inr e ↦ rw e l
]

update_db_progress_returns_example : (update_db_progress restless 2000 5 1 rows).0 ≡ ok tt
update_db_progress_returns_example =
    update_db_progress_returns restless 2000 5 1 0 restless_alive (λ t. refl) rows
      (running, 2, refl, refl) (omega arith)

update_db_progress-Reached_example : Reached 5 1 (update_db_progress restless 2000 5 1 rows).1
update_db_progress-Reached_example = update_db_progress-Reached restless 2000 5 1 rows (
    update_db_progress_returns restless 2000 5 1 0 restless_alive (λ t. refl) rows
      (running, 2, refl, refl) (omega arith))

-- Half of the way, or all of it.
abbrev percent : ℕ → ℕ → ℕ
percent n m = if ltb n m then 5000 else 10000

percent_bounded : (n m : ℕ) → n ≤ m → percent n m ≤ 10000
percent_bounded n m le = ground arith

update_progress_reports_example :
    let (r, after) =
      update_progress percent alone 2000 true 5 3 3
        (record { db = world.db; cache = world.cache }) in
    (r
      ≡ ok (record {
        submission_id = 5;
        current_sequence = 3;
        total_questions = 3;
        progress_percentage = 10000;
        is_complete = true;
      }))
    × Progressed 2000 5 3 3 running rows after.db.rows
update_progress_reports_example =
    update_progress_reports percent 2000 true 5 3 3 running
      (record { db = world.db; cache = world.cache }) refl refl refl (omega arith) (omega arith)
      (omega arith) (omega arith)

quiet-IsOrderly : IsOrderly (λ es. es)
quiet-IsOrderly = record { keeps = λ es h. h; grows = λ es sid. omega arith }

none_yet : IsContiguous []
unfolding orders
none_yet sid k = ground arith

create-IsContiguous_example :
    IsContiguous
      (create caching quiet.meanwhile
        (some running)
        (text_data (reply_at 1) asked (next_of running snapshot 11 "resume"))
        (record { rows = rows; exchanges = []; next_id = 100 })).1.exchanges
create-IsContiguous_example =
    create-IsContiguous caching quiet.meanwhile quiet-IsOrderly quiet-IsOrderly quiet-IsOrderly
      (some running) (text_data (reply_at 1) asked (next_of running snapshot 11 "resume"))
      (record { rows = rows; exchanges = []; next_id = 100 }) none_yet

first_question : IsWaiting world 5 running snapshot 11 "resume"
unfolding orders questions tagged
first_question = record {
  found = refl;
  active = refl;
  version = 2;
  versioned = refl;
  valid = snapshot_valid;
  numbered = none_yet;
  in_step = refl;
  next = refl;
  positive = omega arith;
}

create_exchange_from_text_answers_example :
    Answered world running snapshot percent 2000
      (text_data (reply_at 1) asked (next_of running snapshot 11 "resume"))
      (create_exchange_from_text (calm caching acquired percent 2000 true) (reply_at 1) asked world)
unfolding checked creation_data_ok questions tagged
create_exchange_from_text_answers_example =
    create_exchange_from_text_answers world running snapshot 11 "resume" caching refl acquired
      percent percent_bounded 2000 true asked (reply_at 1) first_question (omega arith) refl refl
      (λ e. cc e) (omega arith)

abbrev spoken : AudioCompletionSignal
spoken = record {
  submission_id = 5;
  sequence_order = 1;
  recording_id = 40;
  transcription_text = "Because.";
  duration_ms = 8000;
}

abbrev coded : CodeCompletionSignal
coded = record {
  submission_id = 5;
  sequence_order = 1;
  code_submission_id = none;
  code = "print(1)";
  language = "python";
  response_time_ms = 60000;
}

create_exchange_from_text_refuses_example :
    create_exchange_from_text quiet (reply_at 2) asked world ≡ (err (sequence_mismatch 1 2), world)
create_exchange_from_text_refuses_example =
    create_exchange_from_text_refuses quiet world running snapshot asked (reply_at 2) refl refl
      snapshot_valid (omega arith)

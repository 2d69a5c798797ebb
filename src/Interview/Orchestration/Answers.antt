-- ===== src/Interview/Orchestration/Answers.antt =====
-- The three `create_exchange_from_…` calls of the exchange coordinator, on a submission that waits
-- for the answer, and on one that waits for another.
use ai_interviewer.Prelude.{
  ℕ, ◌+◌, ◌≤◌, ◌<◌, String, ◌≡◌, refl, ◌≢◌, Bool, true, ◌||◌, some, [], ◌∷◌, ◌++◌, arith, eq_iff,
  ltb, leb, if◌then◌else◌, is_some,
}
use ai_interviewer.Prelude.Result.{Result, ok, err}
use ai_interviewer.Session.Status.{in_progress}
use ai_interviewer.Session.Store.{Submission, TemplateSnapshot}
use ai_interviewer.Session.Repository.{Requery}
use ai_interviewer.Interview.Exchanges.Model.{ExchangeCreationData, Exchange}
use ai_interviewer.Interview.Exchanges.Validators.{validate_response_completeness}
use ai_interviewer.Interview.Orchestration.Sequencer.{
  NextQuestionResult, validate_template_snapshot,
}
use ai_interviewer.Interview.Orchestration.Progress.{ProgressUpdate}
use ai_interviewer.Interview.Orchestration.Signals.{
  World, CoordinatorError, sequence_mismatch, interview_complete, Asked, TextResponseSignal,
  AudioCompletionSignal, CodeCompletionSignal, text_data, audio_data, code_data,
}
use ai_interviewer.Interview.Orchestration.Coordinator.{
  Surroundings, Lock, load_active_submission, validate_sequence, checked, prepared, create_exchange,
  create_exchange_from_text, create_exchange_from_audio, create_exchange_from_code,
}
use ai_interviewer.Interview.Orchestration.Reporting.{Progressed}
use ai_interviewer.Interview.Orchestration.Answering.{
  calm, IsWaiting, next_of, progressed, prepared_waiting,
}

-- The answer became the next exchange, and the progress went on to it.
abbrev pub Answered :
    (w : World) (row : Submission) (s : TemplateSnapshot) (percent : ℕ → ℕ → ℕ) (now : ℕ)
    (d : ExchangeCreationData)
    → Result CoordinatorError (Exchange × ProgressUpdate) × World
    → Type 0
Answered w row s percent now d x =
    (x.0
      ≡ ok (
        record { id = w.next_id; content = d },
        record {
          submission_id = d.submission_id;
          current_sequence = d.sequence_order;
          total_questions = s.total_questions;
          progress_percentage = percent d.sequence_order s.total_questions;
          is_complete = leb s.total_questions d.sequence_order;
        },
      ))
    × (x.1.exchanges ≡ w.exchanges ++ record { id = w.next_id; content = d } ∷ [])
    × Progressed now d.submission_id d.sequence_order s.total_questions row w.db.rows x.1.db.rows

module _ (w : World) (row : Submission) (s : TemplateSnapshot) (q : ℕ) (name : String)
    (requery : Requery) (steady : requery row row ≡ row) (lock : Lock) (percent : ℕ → ℕ → ℕ)
    (bounded : (n m : ℕ) → n ≤ m → percent n m ≤ 10000) (now : ℕ) (up : Bool) where
  answer :
      (sid seq : ℕ) (build : NextQuestionResult → ExchangeCreationData)
      → IsWaiting w sid row s q name
      → 0 < sid
      → seq ≡ row.current_exchange_sequence + 1
      → (build (next_of row s q name)).submission_id ≡ sid
      → (build (next_of row s q name)).sequence_order ≡ row.current_exchange_sequence + 1
      → checked (build (next_of row s q name)) ≡ ok (build (next_of row s q name))
      → (is_some (build (next_of row s q name)).question_id
          || is_some (build (next_of row s q name)).coding_problem_id)
        ≡ true
      → validate_response_completeness (build (next_of row s q name)) ≡ ok tt
      → let env = calm requery lock percent now up in
        Answered w row s percent now
          (build (next_of row s q name))
          (create_exchange env (prepared env sid seq build w) w)
  unfolding create_exchange
  answer sid seq build r real at own at' good named complete =
      let u =
        progressed w sid row s q name r (build (next_of row s q name)) own at' named complete
          requery steady lock percent bounded now up (rw own real) in
      rw
        (
          at,
          prepared_waiting w sid row s q name r (calm requery lock percent now up) build good,
          create_exchange,
        )
        (u.0, u.1.0, u.1.1)

  module _ (a : Asked) where
    -- A text answer, with a text, a positive time and valid creation data, to the question that the
    -- submission waits for: it is in progress, has a positive id, a version and a valid snapshot,
    -- its exchanges are numbered without gaps and are as many as its progress says, and a question
    -- with a positive id comes next. With a mapper that answers an unchanged row as it is,
    -- percentages up to 100 and no other worker in between, with or without the lock, the answer
    -- becomes the next exchange, and the submission goes on to it: one version on, and completed as
    -- well, with one more version, at the last question. The other fields of the interview and the
    -- other submissions stay as they were.
    pub create_exchange_from_text_answers :
        (g : TextResponseSignal)
        → IsWaiting w g.submission_id row s q name
        → 0 < g.submission_id
        → g.sequence_order ≡ row.current_exchange_sequence + 1
        → checked (text_data g a (next_of row s q name)) ≡ ok (text_data g a (next_of row s q name))
        → g.response_text ≢ ""
        → 0 < g.response_time_ms
        → Answered w row s percent now
            (text_data g a (next_of row s q name))
            (create_exchange_from_text (calm requery lock percent now up) g a w)
    unfolding create_exchange_from_text validate_response_completeness
    create_exchange_from_text_answers g r real at good said timed =
        answer g.submission_id g.sequence_order (text_data g a) r real at refl at good refl
          (ground (arith, eq_iff g.response_text "", said, timed))

    -- The same as for a text, for a spoken answer with a transcription, a recording and a positive
    -- duration.
    pub create_exchange_from_audio_answers :
        (g : AudioCompletionSignal)
        → IsWaiting w g.submission_id row s q name
        → 0 < g.submission_id
        → g.sequence_order ≡ row.current_exchange_sequence + 1
        → checked (audio_data g a (next_of row s q name))
          ≡ ok (audio_data g a (next_of row s q name))
        → g.transcription_text ≢ ""
        → 0 < g.recording_id
        → 0 < g.duration_ms
        → Answered w row s percent now
            (audio_data g a (next_of row s q name))
            (create_exchange_from_audio (calm requery lock percent now up) g a w)
    unfolding create_exchange_from_audio validate_response_completeness
    create_exchange_from_audio_answers g r real at good said kept timed =
        answer g.submission_id g.sequence_order (audio_data g a) r real at refl at good refl
          (ground (arith, eq_iff g.transcription_text "", said, kept, timed))

    -- The same as for a text, for a code answer with a code and a positive time; no code submission
    -- is needed.
    pub create_exchange_from_code_answers :
        (g : CodeCompletionSignal) (problem : ℕ)
        → IsWaiting w g.submission_id row s q name
        → 0 < g.submission_id
        → g.sequence_order ≡ row.current_exchange_sequence + 1
        → checked (code_data g a problem (next_of row s q name))
          ≡ ok (code_data g a problem (next_of row s q name))
        → g.code ≢ ""
        → 0 < g.response_time_ms
        → Answered w row s percent now
            (code_data g a problem (next_of row s q name))
            (create_exchange_from_code (calm requery lock percent now up) g a problem w)
    unfolding create_exchange_from_code validate_response_completeness
    create_exchange_from_code_answers g problem r real at good said timed =
        answer g.submission_id g.sequence_order (code_data g a problem) r real at refl at good refl
          (ground (arith, eq_iff g.code "", said, timed))

module _ (env : Surroundings) (w : World) (sid : ℕ) (row : Submission) (s : TemplateSnapshot)
    (found : w.db.rows sid ≡ some row) (active : row.status ≡ in_progress)
    (valid : validate_template_snapshot row.template_structure_snapshot sid ≡ ok s)
    (build : NextQuestionResult → ExchangeCreationData) (seq : ℕ) where
  refuses_ended :
      s.total_questions ≤ row.current_exchange_sequence
      → prepared env sid seq build w ≡ err (interview_complete sid s.total_questions)
  unfolding prepared load_active_submission validate_sequence
  refuses_ended ended = ground (arith, found, active, valid, ended)

  refuses_other :
      row.current_exchange_sequence < s.total_questions
      → seq ≢ row.current_exchange_sequence + 1
      → prepared env sid seq build w
        ≡ err (sequence_mismatch (row.current_exchange_sequence + 1) seq)
  unfolding prepared load_active_submission validate_sequence
  refuses_other more other = ground (arith, found, active, valid, more, other)

module _ (env : Surroundings) (w : World) (row : Submission) (s : TemplateSnapshot) (a : Asked)
    (g : TextResponseSignal) (found : w.db.rows g.submission_id ≡ some row)
    (active : row.status ≡ in_progress)
    (valid : validate_template_snapshot row.template_structure_snapshot g.submission_id ≡ ok s)
    (other : g.sequence_order ≢ row.current_exchange_sequence + 1) where
  -- A text answer out of turn to a submission in progress with a valid snapshot is refused: with
  -- the sequence that is due while questions are left, with the number of questions after the last;
  -- and nothing changes, whatever else is going on.
  pub create_exchange_from_text_refuses : create_exchange_from_text env g a w ≡ (
    if ltb row.current_exchange_sequence s.total_questions
        then err (sequence_mismatch (row.current_exchange_sequence + 1) g.sequence_order)
        else err (interview_complete g.submission_id s.total_questions),
    w,
  )
  unfolding create_exchange_from_text create_exchange
  create_exchange_from_text_refuses = ground (
    arith,
    refuses_ended env w g.submission_id row s found active valid (text_data g a) g.sequence_order,
    refuses_other env w g.submission_id row s found active valid (text_data g a) g.sequence_order,
  )

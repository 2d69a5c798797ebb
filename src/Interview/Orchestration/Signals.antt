-- ===== src/Interview/Orchestration/Signals.antt =====
-- app/interview/orchestration/contracts.py and exchange_coordinator.py: the completion signals, and
-- the data and errors that the coordinator makes of them.
use ai_interviewer.Prelude.{ℕ, String, Option, none, some, List}
use ai_interviewer.Session.Repository.{Connection}
use ai_interviewer.Session.Service.{Cache}
use ai_interviewer.Interview.Exchanges.Model.{text, coding, audio, ExchangeCreationData, Exchange}
use ai_interviewer.Interview.Exchanges.Validators.{ExchangeError}
use ai_interviewer.Interview.Orchestration.Sequencer.{SequencerError, NextQuestionResult}
use ai_interviewer.Interview.Orchestration.Attempts.{ProgressError}

pub data CoordinatorError : Type 0 where
  not_found interview_not_active : ℕ → CoordinatorError
  sequencer : SequencerError → CoordinatorError
  interview_complete : ℕ → ℕ → CoordinatorError
  -- the expected and the received sequence
  sequence_mismatch : ℕ → ℕ → CoordinatorError
  creation_data_invalid : CoordinatorError
  exchange : ExchangeError → CoordinatorError
  progress : ProgressError → CoordinatorError

pub record World : Type 0 where
  pub db : Connection
  pub exchanges : List Exchange
  pub next_id : ℕ
  pub cache : Cache

-- The three completion signals, with the question's texts that come beside them.
pub record Asked : Type 0 where
  pub question_text : String
  pub question_difficulty : String
  pub expected_answer : Option String

pub record TextResponseSignal : Type 0 where
  pub submission_id : ℕ
  pub sequence_order : ℕ
  pub response_text : String
  pub response_time_ms : ℕ

pub record AudioCompletionSignal : Type 0 where
  pub submission_id : ℕ
  pub sequence_order : ℕ
  pub recording_id : ℕ
  pub transcription_text : String
  pub duration_ms : ℕ

pub record CodeCompletionSignal : Type 0 where
  pub submission_id : ℕ
  pub sequence_order : ℕ
  pub code_submission_id : Option ℕ
  pub code : String
  pub language : String
  pub response_time_ms : ℕ

-- The creation data that the three calls build.
abbrev pub text_data : TextResponseSignal → Asked → NextQuestionResult → ExchangeCreationData
text_data g a q = record {
  submission_id = g.submission_id;
  sequence_order = g.sequence_order;
  question_id = some q.question_id;
  coding_problem_id = none;
  question_text = a.question_text;
  expected_answer = a.expected_answer;
  difficulty_at_time = a.question_difficulty;
  response_text = some g.response_text;
  response_code = none;
  response_time_ms = some g.response_time_ms;
  ai_followup_message = none;
  content_metadata = some (record {
    question_type = text;
    section_name = some q.section_name;
    response_language = none;
    code_submission_id = none;
    audio_recording_id = none;
  });
}

abbrev pub audio_data : AudioCompletionSignal → Asked → NextQuestionResult → ExchangeCreationData
audio_data g a q = record {
  submission_id = g.submission_id;
  sequence_order = g.sequence_order;
  question_id = some q.question_id;
  coding_problem_id = none;
  question_text = a.question_text;
  expected_answer = a.expected_answer;
  difficulty_at_time = a.question_difficulty;
  response_text = some g.transcription_text;
  response_code = none;
  response_time_ms = some g.duration_ms;
  ai_followup_message = none;
  content_metadata = some (record {
    question_type = audio;
    section_name = some q.section_name;
    response_language = none;
    code_submission_id = none;
    audio_recording_id = some g.recording_id;
  });
}

abbrev pub code_data : CodeCompletionSignal → Asked → ℕ → NextQuestionResult → ExchangeCreationData
code_data g a problem q = record {
  submission_id = g.submission_id;
  sequence_order = g.sequence_order;
  question_id = none;
  coding_problem_id = some problem;
  question_text = a.question_text;
  expected_answer = a.expected_answer;
  difficulty_at_time = a.question_difficulty;
  response_text = none;
  response_code = some g.code;
  response_time_ms = some g.response_time_ms;
  ai_followup_message = none;
  content_metadata = some (record {
    question_type = coding;
    section_name = some q.section_name;
    response_language = some g.language;
    code_submission_id = g.code_submission_id;
    audio_recording_id = none;
  });
}

-- ===== src/Interview/Exchanges/Model.antt =====
-- app/interview/exchanges/contracts.py and the rows of `interview_exchanges`.
use ai_interviewer.Prelude.{
  ℕ, String, Bool, true, not, ◌&&◌, ◌||◌, Option, none, some, str_eq, ltb, is_some,
}

pub data ExchangeQuestionType : Type 0 where
  text coding audio : ExchangeQuestionType

-- `ContentMetadata`: the fields that the validators and the coordinator read or write.
pub record ContentMetadata : Type 0 where
  pub question_type : ExchangeQuestionType
  pub section_name : Option String
  pub response_language : Option String
  pub code_submission_id : Option ℕ
  pub audio_recording_id : Option ℕ

-- `ExchangeCreationData`
pub record ExchangeCreationData : Type 0 where
  pub submission_id : ℕ
  pub sequence_order : ℕ
  pub question_id : Option ℕ
  pub coding_problem_id : Option ℕ
  pub question_text : String
  pub expected_answer : Option String
  pub difficulty_at_time : String
  pub response_text : Option String
  pub response_code : Option String
  pub response_time_ms : Option ℕ
  pub ai_followup_message : Option String
  pub content_metadata : Option ContentMetadata

-- A row is its data under an id of its own.
pub record Exchange : Type 0 where
  pub id : ℕ
  pub content : ExchangeCreationData

absent_or_positive : Option ℕ → Bool
absent_or_positive none = true
absent_or_positive (some n) = ltb 0 n

-- The constraints of the pydantic model: positive ids, a question text, a known difficulty, and
-- at least one of question and coding problem.
unfoldable pub creation_data_ok : ExchangeCreationData → Bool
unfolding absent_or_positive
creation_data_ok d =
    ltb 0 d.submission_id
    && (ltb 0 d.sequence_order
        && (absent_or_positive d.question_id
            && (absent_or_positive d.coding_problem_id
                && (not (str_eq d.question_text "")
                    && ((str_eq d.difficulty_at_time "easy"
                          || (str_eq d.difficulty_at_time "medium"
                              || str_eq d.difficulty_at_time "hard"))
                        && (is_some d.question_id || is_some d.coding_problem_id))))))

-- ===== src/Interview/Exchanges/Validators.antt =====
-- app/interview/exchanges/validators.py
use ai_interviewer.Prelude.{
  ℕ, ◌+◌, String, Bool, false, not, ◌&&◌, Option, none, some, List, str_eq, leb, ◌==◌,
  if◌then◌else◌, any,
}
use ai_interviewer.Prelude.Result.{Result, ok, err}
use ai_interviewer.Interview.Exchanges.Model.{
  text, coding, audio, ContentMetadata, ExchangeCreationData,
}

pub data ExchangeError : Type 0 where
  submission_not_found interview_not_active : ℕ → ExchangeError
  duplicate_sequence sequence_gap : ℕ → ℕ → ExchangeError
  incomplete_response : ExchangeError
  -- the database's IntegrityError, raised again
  integrity_error : ExchangeError

abbrev pub has : ℕ → List ℕ → Bool
has k orders = any (λ o. o == k) orders

-- `sequence_gap` carries the expected and the proposed sequence.
unfoldable pub validate_sequence_order : ℕ → ℕ → ℕ → List ℕ → Result ExchangeError Unit
validate_sequence_order sid proposed count orders =
    if has proposed orders
    then err (duplicate_sequence proposed sid)
    else if not (proposed == count + 1)
    then err (sequence_gap (count + 1) proposed)
    else ok tt

-- Python's truth of an optional text, and of an optional id.
abbrev pub filled : Option String → Bool
filled none = false
filled (some t) = not (str_eq t "")

abbrev pub nonzero : Option ℕ → Bool
nonzero none = false
nonzero (some n) = not (n == 0)

-- `_validate_response_time`
validate_response_time : Option ℕ → Result ExchangeError Unit
validate_response_time none = ok tt
validate_response_time (some t) = if leb t 0 then err incomplete_response else ok tt

-- What each kind of question must come with.
abbrev pub answered : ContentMetadata → ExchangeCreationData → Bool
answered m d = elim m.question_type [
  | text ↦ filled d.response_text
  | audio ↦ filled d.response_text && nonzero m.audio_recording_id
  | coding ↦ filled d.response_code
]

validate_by_type : Option ContentMetadata → ExchangeCreationData → Result ExchangeError Unit
unfolding validate_response_time
validate_by_type none d = validate_response_time d.response_time_ms
validate_by_type (some m) d =
    if answered m d then validate_response_time d.response_time_ms else err incomplete_response

unfoldable pub validate_response_completeness : ExchangeCreationData → Result ExchangeError Unit
unfolding validate_by_type
validate_response_completeness d = validate_by_type d.content_metadata d

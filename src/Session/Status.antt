-- ===== src/Session/Status.antt =====
-- app/interview/session/domain/state_machine.py: the submission statuses and the table of legal
-- transitions. The enum's text values are written out, since callers pass texts.
use ai_interviewer.Prelude.{
  String, str_eq, Bool, true, false, Option, none, some, List, [], ◌∷◌, any, if◌then◌else◌,
}
use ai_interviewer.Prelude.Result.{Result, ok, err}

pub data SubmissionStatus : Type 0 where
  pending in_progress completed expired cancelled reviewed : SubmissionStatus

-- `status.value`
unfoldable pub value : SubmissionStatus → String
value pending = "pending"
value in_progress = "in_progress"
value completed = "completed"
value expired = "expired"
value cancelled = "cancelled"
value reviewed = "reviewed"

-- `SubmissionStatus(text)`, with `none` for its `ValueError`
unfoldable pub of_value : String → Option SubmissionStatus
of_value t =
    if str_eq t "pending"
    then some pending
    else if str_eq t "in_progress"
    then some in_progress
    else if str_eq t "completed"
    then some completed
    else if str_eq t "expired"
    then some expired
    else if str_eq t "cancelled"
    then some cancelled
    else if str_eq t "reviewed"
    then some reviewed
    else none

-- `a == b` of two statuses
abbrev pub same : SubmissionStatus → SubmissionStatus → Bool
same pending pending = true
same in_progress in_progress = true
same completed completed = true
same expired expired = true
same cancelled cancelled = true
same reviewed reviewed = true
same _ _ = false

-- `_ALLOWED_TRANSITIONS`
unfoldable pub allowed_transitions : SubmissionStatus → List SubmissionStatus
allowed_transitions pending = in_progress ∷ cancelled ∷ []
allowed_transitions in_progress = completed ∷ expired ∷ cancelled ∷ []
allowed_transitions completed = reviewed ∷ []
allowed_transitions expired = reviewed ∷ []
allowed_transitions cancelled = reviewed ∷ []
allowed_transitions reviewed = []

-- `StateTransitionError(current, target)`
pub record StateTransitionError : Type 0 where
  pub current : String
  pub target : String

check_target :
    Option SubmissionStatus
    → Option SubmissionStatus
    → StateTransitionError
    → Result StateTransitionError Unit
check_target (some current) (some target) e =
    if any (same target) (allowed_transitions current) then ok tt else err e
check_target _ _ e = err e

unfoldable pub validate_transition : String → String → Result StateTransitionError Unit
unfolding check_target allowed_transitions
validate_transition current target =
    check_target (of_value current) (of_value target)
      (record { current = current; target = target })
